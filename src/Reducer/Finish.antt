-- ===== src/Reducer/Finish.antt =====
-- `finish_success` and `partial_result`: what is stored of a run that ended, or was broken off.
use auto_reign.Prelude.{
  zero, suc, Bool, true, false, not, ◌&&◌, ◌||◌, Option, none, some, List, [], ◌∷◌, map, Text,
  codes, Result, ok, err, ◌>>=◌, ◌>>◌, guard, map_err, take, any, is_blank, get_last?,
  if◌then◌else◌, ◌==◌, text_key, pos,
}
use mathlib.Core.List.{reverse}
use auto_reign.Json.{
  Value, null, bool, int, float, str, array, object, nil, end, field, get_field, items_of,
  values_of, canonical_json, max_json_string_chars,
}
use auto_reign.RuntimeTypes.{AssistantContent, none_content, text_content, block_content}
use auto_reign.ChatBlocks.{
  TextBlockStatus, ToolBlockStatus, Block, text, tool, BlockError, block_value, append_text_block,
  update_tool_block, tool_is_final, text_is_done,
}
use auto_reign.MessageChain.{Message, message_value, validate_messages_chain, version_value}
use auto_reign.Reducer.State.{
  ReducerError, runtime_event_invalid_terminal, runtime_event_text_mismatch,
  runtime_event_unresolved_tool_call, runtime_event_pending_tool_block, runtime_result_too_large,
  block_error, chain_error, Compaction, Reducer, Python, has_unresolved,
}
use auto_reign.Reducer.Content.{join, assistant_visible_text}

-- `bool(value)` of what `terminal.get("tool_calls")` returned.
truthy : Option Value → Bool
truthy none = false
truthy (some null) = false
truthy (some (bool b)) = b
truthy (some (str [])) = false
truthy (some (array nil)) = false
truthy (some (object end)) = false
truthy (some (int (pos n))) = elim n [ zero ↦ false | suc _ ↦ true ]
truthy (some (float (some repr))) = not (repr == codes "0.0" || repr == codes "-0.0")
truthy _ = true

content_of : Option Value → Result ReducerError AssistantContent
content_of none = ok none_content
content_of (some null) = ok none_content
content_of (some (str s)) = ok (text_content s)
content_of (some (array items)) = ok (block_content (values_of items))
content_of _ = err runtime_event_invalid_terminal

abbrev is_assistant : Option Value → Bool
is_assistant (some (str s)) = s == codes "assistant"
is_assistant _ = false

terminal_answer : Option Value → Result ReducerError Text
unfolding truthy content_of
terminal_answer (some (object terminal)) = do
  guard
      (is_assistant (get_field (codes "role") terminal)
        && not (truthy (get_field (codes "tool_calls") terminal)))
      runtime_event_invalid_terminal
  content ← content_of (get_field (codes "content") terminal)
  answer ← assistant_visible_text content
  guard (not (is_blank answer)) runtime_event_invalid_terminal
  ok answer
terminal_answer _ = err runtime_event_invalid_terminal

-- `_success_terminal_answer`
unfoldable pub success_terminal_answer : Reducer → Result ReducerError Text
unfolding terminal_answer
success_terminal_answer s = terminal_answer (get_last? s.messages_chain)

abbrev pub is_open_tool : Block → Bool
is_open_tool (text _) = false
is_open_tool (tool b) = not (tool_is_final b.status)

compaction_value : Compaction → Value
compaction_value c = object (
    field (some (codes "message_index")) (int (pos c.message_index)) (
      field (some (codes "compacted")) (bool c.compacted) (
        field (some (codes "summary_compacted")) (bool c.summary_compacted)
          (field (some (codes "version")) (version_value c.version) end))))

-- The envelope of a success.
pub record Success : Type 0 where
  pub value : Text
  pub messages_chain : List Message
  pub blocks : List Block
  pub context_compactions : List Compaction
  pub sources : List Value
  pub termination_reason : Option Text

reason_value : Option Text → Value
reason_value none = null
reason_value (some s) = str s

pub success_value : Success → Value
unfolding compaction_value reason_value
success_value r = object (
    field (some (codes "value")) (str r.value) (
      field (some (codes "messages_chain")) (array (items_of (map message_value r.messages_chain)))
        (field (some (codes "blocks")) (array (items_of (map block_value r.blocks))) (
          field (some (codes "context_compactions"))
            (array (items_of (map compaction_value r.context_compactions)))
            (field (some (codes "sources")) (array (items_of r.sources)) (
              field (some (codes "termination_reason")) (reason_value r.termination_reason)
                end))))))

-- `validate_result_envelope`: the keys are those that the two callers write.
unfoldable pub validate_envelope : Value → Result ReducerError (Unit {0})
validate_envelope result = elim (canonical_json result) [
  | err e ↦ err runtime_result_too_large
  | ok written ↦ ok tt
]

unfoldable pub finish_success : Python → Reducer → Result ReducerError Success
unfolding success_value
finish_success python s = do
  final_answer ← success_terminal_answer s
  guard (elim s.pending_deltas [ [] ↦ true | _ ∷ _ ↦ false ]) runtime_event_text_mismatch
  guard (not (has_unresolved s)) runtime_event_unresolved_tool_call
  guard (not (any is_open_tool s.blocks)) runtime_event_pending_tool_block
  chain ←
      map_err chain_error (validate_messages_chain python.loads (array (items_of s.messages_chain)))
  let result : Success = record {
    value = final_answer;
    messages_chain = chain;
    blocks = s.blocks;
    context_compactions = s.context_compactions;
    sources = s.sources;
    termination_reason = s.termination_reason;
  }
  validate_envelope (success_value result)
  ok result

-- The envelope of a run that was broken off; its other keys are always empty.
pub record Partial : Type 0 where
  pub value : Text
  pub blocks : List Block

unfoldable pub partial_value : Partial → Value
partial_value r = object (
    field (some (codes "value")) (str r.value) (
      field (some (codes "blocks")) (array (items_of (map block_value r.blocks))) (
        field (some (codes "context_compactions")) (array nil) (
          field (some (codes "sources")) (array nil)
            (field (some (codes "termination_reason")) null end)))))

-- The output of a tool that did not end.
abbrev pub interrupted : Value
interrupted = object (field (some (codes "code")) (str (codes "execution_interrupted")) end)

unfoldable pub terminal_partial_block : Block → Result BlockError Block
terminal_partial_block (text b) =
    if text_is_done b.status
    then ok (text b)
    else (do closed ← append_text_block b [] (some TextBlockStatus.done); ok (text closed))
terminal_partial_block (tool b) = if tool_is_final b.status then ok (tool b) else (do
  closed ← update_tool_block b none (some interrupted) (some ToolBlockStatus.error)
  ok (tool closed))

-- `_terminal_partial_blocks`
unfoldable pub terminal_partial_blocks : List Block → Result BlockError (List Block)
terminal_partial_blocks [] = ok []
terminal_partial_blocks (b ∷ blocks) = do
  closed ← terminal_partial_block b
  rest ← terminal_partial_blocks blocks
  ok (closed ∷ rest)

-- The loop of `partial_result`, over the blocks from the last one on: the last block is dropped
-- until the envelope is accepted, and without blocks the value is.
unfoldable pub shrink : Text → List Block → Result ReducerError Partial
shrink value [] =
    let whole : Partial = record { value = value; blocks = [] } in
    let empty : Partial = record { value = []; blocks = [] } in
    elim (validate_envelope (partial_value whole)) [
      | ok _ ↦ ok whole
      | err e ↦ validate_envelope (partial_value empty) >> ok empty
    ]
shrink value (b ∷ earlier) =
    let whole : Partial = record { value = value; blocks = reverse (b ∷ earlier) } in
    let rest = shrink value earlier in
    elim (validate_envelope (partial_value whole)) [ ok _ ↦ ok whole | err e ↦ rest ]

unfoldable pub partial_result : Reducer → Result ReducerError Partial
partial_result s = do
  blocks ← map_err block_error (terminal_partial_blocks s.blocks)
  shrink (take max_json_string_chars (join s.value_parts)) (reverse blocks)
