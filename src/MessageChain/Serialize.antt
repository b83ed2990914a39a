-- ===== src/MessageChain/Serialize.antt =====
-- `serialize_assistant_event` and `serialize_tool_result`: events as messages of the chain.
use auto_reign.Prelude.{
  Bool, true, false, some, List, [], ◌∷◌, Text, codes, Result, ok, err, ◌>>=◌, map_err,
  if◌then◌else◌, ◌==◌, text_key,
}
use auto_reign.Json.{
  Value, Fields, null, bool, str, array, object, end, field, items_of, canonical_json,
}
use auto_reign.RuntimeTypes.{
  ToolCall, ToolResult, AssistantContent, none_content, text_content, block_content,
  AssistantMessageEvent,
}
use auto_reign.MessageChain.Messages.{
  ChainError, messages_chain_invalid_tool_arguments, messages_chain_tool_result_call_mismatch, Call,
  calls_fields, version_value, optional, model_info_value,
}

-- `_canonical_arguments`
unfoldable pub canonical_arguments : Fields → Result ChainError Text
canonical_arguments arguments =
    map_err (λ _. messages_chain_invalid_tool_arguments) (canonical_json (object arguments))

abbrev pub content_value : AssistantContent → Value
content_value none_content = null
content_value (text_content s) = str s
content_value (block_content blocks) = array (items_of blocks)

serialize_calls : List ToolCall → Result ChainError (List Call)
serialize_calls [] = ok []
serialize_calls (call ∷ calls) = do
  arguments ← canonical_arguments call.arguments
  rest ← serialize_calls calls
  ok (record { id = call.id; name = call.name; arguments = arguments } ∷ rest)

unfoldable pub serialize_assistant_event : AssistantMessageEvent → Result ChainError Value
unfolding serialize_calls
serialize_assistant_event event = do
  calls ← serialize_calls event.tool_calls
  ok (
      object (
        field (some (codes "role")) (str (codes "assistant")) (
          field (some (codes "content")) (content_value event.content) (
            field (some (codes "model_info")) (model_info_value (event.provider, event.model)) (
              field (some (codes "compacted")) (bool event.compacted) (
                field (some (codes "summary_compacted")) (bool event.summary_compacted) (
                  field (some (codes "compaction_version")) (version_value event.compaction_version)
                    (calls_fields calls
                      (optional (codes "reasoning_content") str event.reasoning_content end)))))))))

abbrev error_fields : Bool → Fields
error_fields true = field (some (codes "is_error")) (bool true) end
error_fields false = end

unfoldable pub serialize_tool_result : ToolCall → ToolResult → Result ChainError Value
serialize_tool_result call result =
    if result.call_id == call.id
    then ok (
        object (
          field (some (codes "role")) (str (codes "tool")) (
            field (some (codes "tool_call_id")) (str call.id) (
              field (some (codes "name")) (str call.name) (
                field (some (codes "content")) (str result.content)
                  (error_fields result.is_error))))))
    else err messages_chain_tool_result_call_mismatch
