-- ===== src/Reducer/Assistants.antt =====
-- `_accept_assistant`: the assistant's message closes the open text block and declares its calls.
use auto_reign.Prelude.{
  ℕ, ◌-◌, Bool, true, false, not, ◌||◌, Option, none, some, List, [], ◌∷◌, ◌++◌, Text, Result, ok,
  err, set, length, if◌then◌else◌, ◌==◌, text_key,
}
use auto_reign.Prelude.Dict
use auto_reign.Prelude.Exec.{pure, self, modify, ensure, lift, ◌>>=◌, ◌>>◌}
use auto_reign.Json.{Value, Fields, object, canonical_json}
use auto_reign.RuntimeTypes.{ToolCall, AssistantMessageEvent}
use auto_reign.ChatBlocks.{TextBlockStatus, text, append_text_block}
use auto_reign.MessageChain.{serialize_assistant_event}
use auto_reign.Reducer.State.{
  ReducerError, runtime_event_invalid, runtime_event_unresolved_tool_call,
  runtime_event_text_mismatch, runtime_event_duplicate_tool_call, runtime_event_model_mismatch,
  block_error, chain_error, Emission, block_updated, Method, Python, has_unresolved,
}
use auto_reign.Reducer.Content.{join, assistant_visible_text}
use auto_reign.Reducer.Deltas.{block_at}

-- `if self._text_block_index is not None`
unfoldable pub complete_text_block : Option ℕ → Method (List Emission)
complete_text_block none = pure []
complete_text_block (some index) = do
  s ← self
  (index, block) ← lift (λ e. e) (block_at s (some index))
  completed ← lift block_error (append_text_block block [] (some TextBlockStatus.done))
  modify (λ s. record s { blocks = set s.blocks index (text completed) })
  pure (block_updated (text completed) ∷ [])

-- value not in {None, own}
mismatched : Option Text → Text → Bool
mismatched none own = false
mismatched (some value) own = not (value == own)

-- `_normalized_assistant`
unfoldable pub normalized_assistant :
    AssistantMessageEvent → Text → Text → Result ReducerError AssistantMessageEvent
unfolding mismatched
normalized_assistant event provider model =
    if mismatched event.provider provider || mismatched event.model model
    then err runtime_event_model_mismatch
    else ok (record event { provider = some provider; model = some model })

-- Behind `json.loads`: the arguments must be a dict again.
reloaded : Option Value → Result ReducerError Fields
reloaded (some (object fields)) = ok fields
reloaded _ = err runtime_event_invalid

-- `_copy_tool_call`
unfoldable pub copy_tool_call : Python → ToolCall → Result ReducerError ToolCall
unfolding reloaded
copy_tool_call python call = elim (canonical_json (object call.arguments)) [
  | err e ↦ err runtime_event_invalid
  | ok written ↦ elim (reloaded (python.loads written)) [
    | err e ↦ err e
    | ok arguments ↦ ok (record call { arguments = arguments })
  ]
]

unfoldable pub copy_tool_calls : Python → List ToolCall → Result ReducerError (List ToolCall)
copy_tool_calls python [] = ok []
copy_tool_calls python (call ∷ calls) = elim (copy_tool_call python call) [
  | err e ↦ err e
  | ok copy ↦ elim (copy_tool_calls python calls) [ err e ↦ err e | ok copies ↦ ok (copy ∷ copies) ]
]

-- `for call in normalized.tool_calls`: the calls before a duplicate stay declared.
unfoldable pub declare_calls : List ToolCall → Method (Unit {0})
declare_calls [] = pure tt
declare_calls (call ∷ calls) = do
  s ← self
  ensure (not (Dict.has call.id s.declared)) runtime_event_duplicate_tool_call
  modify (λ s. record s { declared = Dict.put call.id call s.declared })
  declare_calls calls

has_version : Option ℕ → Bool
has_version none = false
has_version (some _) = true

-- `if normalized.compacted or …`
note_compaction : AssistantMessageEvent → Method (Unit {0})
unfolding has_version
note_compaction event s =
    if event.compacted || event.summary_compacted || has_version event.compaction_version
    then modify
        (λ s. record s {
          context_compactions =
              s.context_compactions
              ++ record {
                message_index = length s.messages_chain - 1;
                compacted = event.compacted;
                summary_compacted = event.summary_compacted;
                version = event.compaction_version;
              }
                ∷ [];
        })
        s
    else pure tt s

-- From the declarations on.
unfoldable pub record_message : Python → AssistantMessageEvent → Method (Unit {0})
unfolding note_compaction
record_message python event = do
  s ← self
  normalized ← lift (λ e. e) (normalized_assistant event s.provider s.model)
  calls ← lift (λ e. e) (copy_tool_calls python normalized.tool_calls)
  declare_calls calls
  let copied : AssistantMessageEvent = record normalized { tool_calls = calls }
  message ← lift chain_error (serialize_assistant_event copied)
  modify (λ s. record s { messages_chain = s.messages_chain ++ message ∷ [] })
  note_compaction copied

unfoldable pub accept_assistant : Python → AssistantMessageEvent → Method (List Emission)
accept_assistant python event = do
  s ← self
  ensure (not (has_unresolved s)) runtime_event_unresolved_tool_call
  visible ← lift (λ e. e) (assistant_visible_text event.content)
  ensure (join s.pending_deltas == visible) runtime_event_text_mismatch
  emissions ← complete_text_block s.text_block_index
  modify (λ s. record s { text_block_index = none; text_block_offset = 0; pending_deltas = [] })
  record_message python event
  pure emissions
