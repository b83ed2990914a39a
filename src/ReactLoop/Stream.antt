-- ===== src/ReactLoop/Stream.antt =====
-- `ReactLoop.stream`: the loop over the messages of the graph.
use auto_reign.Prelude.{
  Bool, true, false, not, ◌&&◌, if◌then◌else◌, nat_beq, nat_key, Option, none, some, List, [], ◌∷◌,
  ◌++◌, Text, codes, Result, ok, err, ◌==◌, text_key,
}
use auto_reign.Prelude.Exec.{Exec, pure, raise, self, modify, ensure, lift, ◌>>=◌, ◌>>◌}
use auto_reign.Prelude.Dict
use auto_reign.Prelude.Dict.{Dict}
use auto_reign.Json.{Value, bool, object, get_field}
use auto_reign.RuntimeTypes.{
  ToolCall, ToolResult, AssistantMessageEvent, RuntimeEvent, text_delta, assistant_message,
  tool_start, tool_result,
}
use auto_reign.Reducer.{join}
use auto_reign.ReactLoop.Chunks.{
  LoopError, runtime_tool_protocol_violation, context_too_large, tool_call_limit_exceeded,
  graph_recursion, runtime_error, Chunk, different_message, chunk_text, chunk_reasoning,
  assistant_event,
}

-- `artifact` is `none` where it is no ToolResult.
pub record ToolMessage : Type 0 where
  pub artifact : Option ToolResult
  pub tool_call_id : Text

-- What the iterator of the graph gives: a chunk, a tool's message, another message, or an exception.
pub data GraphItem : Type 0 where
  chunk : Chunk → GraphItem
  tool_message : ToolMessage → GraphItem
  other_message : GraphItem
  raises : LoopError → GraphItem

-- The variables of the loop, and what it has yielded.
pub record LoopState : Type 0 where
  pub pending : Option Chunk
  pub pending_reasoning : List Text
  pub active_calls : Dict Text ToolCall
  pub starts_emitted : Bool
  pub sent : List RuntimeEvent

abbrev pub initial : LoopState
initial = record {
  pending = none;
  pending_reasoning = [];
  active_calls = [];
  starts_emitted = false;
  sent = [];
}

-- What the turn was asked with, and langchain's `+` on chunks.
pub record Turn : Type 0 where
  pub provider : Text
  pub model : Text
  pub merge : Chunk → Chunk → Chunk

abbrev pub Method : Type 0 → Type 0
Method A = Exec LoopState LoopError A

unfoldable pub yield_event : RuntimeEvent → Method (Unit {0})
yield_event event s = (ok tt, record s { sent = s.sent ++ (event ∷ []) })

unfoldable pub yield_starts : List ToolCall → Method (Unit {0})
yield_starts [] = pure tt
yield_starts (call ∷ calls) = do yield_event (tool_start call); yield_starts calls

unfoldable pub yield_texts : List Text → Method (Unit {0})
yield_texts [] = pure tt
yield_texts (text ∷ texts) = do yield_event (text_delta text); yield_texts texts

-- {call.id: call for call in event.tool_calls}
unfoldable pub calls_by_id : List ToolCall → Dict Text ToolCall → Dict Text ToolCall
calls_by_id [] d = d
calls_by_id (call ∷ calls) d = calls_by_id calls (Dict.put call.id call d)

-- "".join(pending_reasoning) or None
abbrev pub or_none : Text → Option Text
or_none [] = none
or_none (c ∷ s) = some (c ∷ s)

abbrev pub has_any {ℓ} : {A : Type ℓ} → List A → Bool
has_any [] = false
has_any (x ∷ xs) = true

unfoldable pub yield_assistant : Turn → Chunk → Method AssistantMessageEvent
yield_assistant turn pending = do
  s ← self
  event ←
      lift (λ e. e)
        (assistant_event pending (or_none (join s.pending_reasoning)) turn.provider turn.model)
  yield_event (assistant_message event)
  pure event

-- The assistant's message and the starts of its calls, before what follows it.
unfoldable pub flush : Turn → Chunk → Method (Unit {0})
unfolding yield_assistant
flush turn pending = do
  event ← yield_assistant turn pending
  modify (λ s. record s { active_calls = calls_by_id event.tool_calls [] })
  yield_starts event.tool_calls
  modify (λ s. record s {
    starts_emitted = has_any event.tool_calls;
    pending = none;
    pending_reasoning = [];
  })

-- The two conditions under which the pending message is over.
abbrev pub flush_if : Turn → Bool → Option Chunk → Method (Unit {0})
flush_if turn true (some pending) = flush turn pending
flush_if turn _ _ = pure tt

abbrev pub is_over : Option Chunk → Chunk → Bool
is_over none message = false
is_over (some pending) message = different_message pending message

abbrev pub merged : Turn → Option Chunk → Chunk → Chunk
merged turn none message = message
merged turn (some pending) message = turn.merge pending message

abbrev pub with_reasoning : Option Text → List Text → List Text
with_reasoning none reasonings = reasonings
with_reasoning (some []) reasonings = reasonings
with_reasoning (some (c ∷ s)) reasonings = reasonings ++ ((c ∷ s) ∷ [])

unfoldable pub take_chunk : Turn → Chunk → Method (Unit {0})
take_chunk turn message = do
  s ← self
  flush_if turn (is_over s.pending message) s.pending
  modify (λ s. record s {
    pending = some (merged turn s.pending message);
    pending_reasoning = with_reasoning (chunk_reasoning message) s.pending_reasoning;
  })
  texts ← lift (λ e. e) (chunk_text message)
  yield_texts texts

unfoldable pub found_result : ToolMessage → Result LoopError ToolResult
found_result message = elim message.artifact [
  | none ↦ err runtime_tool_protocol_violation
  | some result ↦ ok result
]

unfoldable pub found_call : Option ToolCall → Result LoopError ToolCall
found_call none = err runtime_tool_protocol_violation
found_call (some call) = ok call

-- result.metadata.get("terminal") is True
abbrev is_true : Option Value → Bool
is_true (some (bool b)) = b
is_true _ = false

abbrev pub is_terminal : Value → Bool
is_terminal (object metadata) = is_true (get_field (codes "terminal") metadata)
is_terminal _ = false

unfoldable pub take_result : ToolMessage → ToolResult → Method (Unit {0})
unfolding found_call
take_result message result = do
  ensure (message.tool_call_id == result.call_id) runtime_tool_protocol_violation
  s ← self
  call ← lift (λ e. e) (found_call (Dict.get result.call_id s.active_calls))
  ensure s.starts_emitted runtime_tool_protocol_violation
  yield_event (tool_result call result)
  ensure (not (is_terminal result.metadata)) context_too_large

unfoldable pub take_tool_message : Turn → ToolMessage → Method (Unit {0})
unfolding found_result
take_tool_message turn message = do
  s ← self
  flush_if turn true s.pending
  result ← lift (λ e. e) (found_result message)
  take_result message result

unfoldable pub take_item : Turn → GraphItem → Method (Unit {0})
take_item turn (chunk message) = take_chunk turn message
take_item turn (tool_message message) = take_tool_message turn message
take_item turn other_message = pure tt
take_item turn (raises e) = raise e

unfoldable pub yield_last : Turn → Option Chunk → Method (Unit {0})
unfolding yield_assistant
yield_last turn none = pure tt
yield_last turn (some pending) = yield_assistant turn pending >>= λ event. pure tt

-- The whole loop, with the message that is pending at the end.
unfoldable pub stream_items : Turn → List GraphItem → Method (Unit {0})
unfolding yield_last
stream_items turn [] = do s ← self; yield_last turn s.pending
stream_items turn (item ∷ items) = do take_item turn item; stream_items turn items

unfoldable pub begins_with : Text → Text → Bool
begins_with [] s = true
begins_with (c ∷ prefix) [] = false
begins_with (c ∷ prefix) (d ∷ s) = let rest = begins_with prefix s in nat_beq c d && rest

-- s.split(separator, 1)[0]
unfoldable pub before_first : Text → Text → Text
unfolding begins_with
before_first separator [] = []
before_first separator (c ∷ s) =
    let rest = before_first separator s in if begins_with separator (c ∷ s) then [] else c ∷ rest

-- The two handlers around the loop. The message of a RuntimeTerminalError is its code.
unfoldable pub handled : LoopError → LoopError
unfolding before_first
handled graph_recursion = runtime_error (codes "tool_call_limit_exceeded")
handled tool_call_limit_exceeded = runtime_error (codes "tool_call_limit_exceeded")
handled (runtime_error message) =
    runtime_error (before_first (codes "\nDuring task with name") message)
handled e = e

abbrev pub with_handlers :
    Result LoopError (Unit {0}) × LoopState → Result LoopError (Unit {0}) × LoopState
with_handlers (ok x, s) = (ok x, s)
with_handlers (err e, s) = (err (handled e), s)

unfoldable pub stream : Turn → List GraphItem → Method (Unit {0})
unfolding stream_items
stream turn items s = with_handlers (stream_items turn items s)
