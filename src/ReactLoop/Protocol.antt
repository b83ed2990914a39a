-- ===== src/ReactLoop/Protocol.antt =====
-- The items of the graph, and the order of the events of `ReactLoop.stream` (react_loop.py).
use auto_reign.Prelude.{
  ◌≡◌, refl, inl, inr, Bool, true, false, not, Option, none, some, List, [], ◌∷◌, ◌++◌, Text,
  Result, ok, err, ◌==◌, text_key, Bool-cases, Result-cases,
}
use auto_reign.Prelude.Options.{Option-cases}
use auto_reign.Prelude.Exec.{Exec, continue, ensure, ◌>>◌}
use auto_reign.Prelude.Dict
use auto_reign.Prelude.Dict.{Dict, get-put}
use auto_reign.Reducer.{join}
use auto_reign.RuntimeTypes.{ToolCall, ToolResult, RuntimeEvent, assistant_message, tool_result}
use auto_reign.ReactLoop.Chunks.{
  LoopError, runtime_tool_protocol_violation, context_too_large, Chunk, assistant_event, chunk_text,
  chunk_reasoning,
}
use auto_reign.ReactLoop.Stream.{
  ToolMessage, GraphItem, chunk, tool_message, other_message, raises, LoopState, initial, Turn,
  yield_event, yield_texts, calls_by_id, yield_assistant, flush, flush_if, is_over, or_none, merged,
  with_reasoning, is_terminal, take_chunk, found_result, found_call, take_result, take_tool_message,
  take_item, yield_last, stream_items, with_handlers, stream,
}
use auto_reign.ReactLoop.EventOrder.{
  Follows, no_events, then_message, then_answer, IsOrdered, assistant_event-DistinctIds,
  calls_by_id-In, no_calls, yield_starts-Follows, yield_texts-Follows,
}

IsOrdered-bind :
    {A B : Type 0} (m : Result LoopError A × LoopState) (f : A → Exec LoopState LoopError B)
    → IsOrdered m.1
    → ((a : A) (s : LoopState) → IsOrdered s → IsOrdered (f a s).1)
    → IsOrdered (continue m.0 f m.1).1
IsOrdered-bind (ok a, s) f h next = next a s h
IsOrdered-bind (err e, s) f h next = h

flush-IsOrdered :
    (turn : Turn) (pending : Chunk) (s : LoopState)
    → IsOrdered s
    → IsOrdered (flush turn pending s).1
unfolding flush yield_assistant yield_event
flush-IsOrdered turn pending s o =
    elim (Result-cases
      (assistant_event pending (or_none (join s.pending_reasoning)) turn.provider turn.model)) [
        | inr (e, raised) ↦ rw raised o
        | inl (event, returned) ↦
            let calls = event.tool_calls in
            let said : LoopState = record s {
              sent = s.sent ++ (assistant_message event ∷ []);
              active_calls = calls_by_id calls [];
            } in
            let (sent, yields, follows) = yield_starts-Follows calls calls said (
              then_message s.sent o.calls event o.follows (
                assistant_event-DistinctIds pending (or_none (join s.pending_reasoning))
                  turn.provider turn.model event returned)) in
            rw (returned, yields)
              (record {
                calls = calls;
                follows = follows;
                active = λ id call found. elim (calls_by_id-In calls [] id call found) [
                  | inl known ↦ known
                  | inr nowhere ↦ absurd (no_calls id call nowhere)
                ];
              })
      ]

flush_if-IsOrdered :
    (turn : Turn) (over : Bool) (pending : Option Chunk) (s : LoopState)
    → IsOrdered s
    → IsOrdered (flush_if turn over pending s).1
flush_if-IsOrdered turn true (some pending) s o = flush-IsOrdered turn pending s o
flush_if-IsOrdered turn true none s o = o
flush_if-IsOrdered turn false pending s o = o

yield_texts-IsOrdered :
    (texts : List Text) (s : LoopState) → IsOrdered s → IsOrdered (yield_texts texts s).1
yield_texts-IsOrdered texts s o =
    let (sent, yields, follows) = yield_texts-Follows o.calls texts s o.follows in
    rw yields (record { calls = o.calls; follows = follows; active = o.active })

take_chunk-IsOrdered :
    (turn : Turn) (message : Chunk) (s : LoopState)
    → IsOrdered s
    → IsOrdered (take_chunk turn message s).1
unfolding take_chunk
take_chunk-IsOrdered turn message s o =
    IsOrdered-bind (flush_if turn (is_over s.pending message) s.pending s) _
      (flush_if-IsOrdered turn (is_over s.pending message) s.pending s o)
      (λ _ t k. elim (Result-cases (chunk_text message)) [
        | inr (e, raised) ↦
            rw raised (record { calls = k.calls; follows = k.follows; active = k.active })
        | inl (texts, returned) ↦ rw returned (
            yield_texts-IsOrdered texts
              (record t {
                pending = some (merged turn t.pending message);
                pending_reasoning = with_reasoning (chunk_reasoning message) t.pending_reasoning;
              })
              (record { calls = k.calls; follows = k.follows; active = k.active }))
      ])

-- The result that is yielded belongs to a call of the last message.
answered-IsOrdered :
    (s : LoopState) (call : ToolCall) (result : ToolResult)
    → IsOrdered s
    → Dict.get result.call_id s.active_calls ≡ some call
    → IsOrdered (record s { sent = s.sent ++ (tool_result call result ∷ []) })
answered-IsOrdered s call result o found =
    let (member, same) = o.active result.call_id call found in
    record {
      calls = o.calls;
      follows = then_answer s.sent o.calls call result o.follows member same;
      active = o.active;
    }

answer_if-IsOrdered :
    (started goes_on : Bool) (s : LoopState) (call : ToolCall) (result : ToolResult)
    → IsOrdered s
    → Dict.get result.call_id s.active_calls ≡ some call
    → IsOrdered
        ((ensure started runtime_tool_protocol_violation
            >> (yield_event (tool_result call result) >> ensure goes_on context_too_large))
          s).1
unfolding yield_event
answer_if-IsOrdered false goes_on s call result o found = o
answer_if-IsOrdered true true s call result o found = answered-IsOrdered s call result o found
answer_if-IsOrdered true false s call result o found = answered-IsOrdered s call result o found

take_result-IsOrdered :
    (message : ToolMessage) (result : ToolResult) (s : LoopState)
    → IsOrdered s
    → IsOrdered (take_result message result s).1
unfolding take_result found_call
take_result-IsOrdered message result s o =
    elim (Bool-cases (message.tool_call_id == result.call_id)) [
      | inr other ↦ rw other o
      | inl same ↦ elim (Option-cases (Dict.get result.call_id s.active_calls)) [
        | inl nothing ↦ rw (same, nothing) o
        | inr (call, found) ↦
            rw (same, found)
              (answer_if-IsOrdered s.starts_emitted (not (is_terminal result.metadata)) s call
                result o found)
      ]
    ]

take_tool_message-IsOrdered :
    (turn : Turn) (message : ToolMessage) (s : LoopState)
    → IsOrdered s
    → IsOrdered (take_tool_message turn message s).1
unfolding take_tool_message found_result take_result
take_tool_message-IsOrdered turn message s o =
    IsOrdered-bind (flush_if turn true s.pending s) _ (flush_if-IsOrdered turn true s.pending s o)
      (λ _ t k. elim (Option-cases message.artifact) [
        | inl missing ↦ rw missing k
        | inr (result, found) ↦ rw found (take_result-IsOrdered message result t k)
      ])

take_item-IsOrdered :
    (turn : Turn) (item : GraphItem) (s : LoopState)
    → IsOrdered s
    → IsOrdered (take_item turn item s).1
unfolding take_item
take_item-IsOrdered turn (chunk message) s o = take_chunk-IsOrdered turn message s o
take_item-IsOrdered turn (tool_message message) s o = take_tool_message-IsOrdered turn message s o
take_item-IsOrdered turn other_message s o = o
take_item-IsOrdered turn (raises e) s o = o

-- A sequence of events that keeps the order.
abbrev pub InOrder : List RuntimeEvent → Type 0
InOrder events = (calls : List ToolCall) × (rest : List ToolCall) × Follows events calls rest

yield_last-InOrder :
    (turn : Turn) (pending : Option Chunk) (s : LoopState)
    → IsOrdered s
    → InOrder (yield_last turn pending s).1.sent
unfolding yield_last yield_assistant yield_event
yield_last-InOrder turn none s o = (o.calls, [], o.follows)
yield_last-InOrder turn (some pending) s o =
    elim (Result-cases
      (assistant_event pending (or_none (join s.pending_reasoning)) turn.provider turn.model)) [
        | inr (e, raised) ↦ rw raised (o.calls, [], o.follows)
        | inl (event, returned) ↦ rw returned (
          event.tool_calls,
          event.tool_calls,
          then_message s.sent o.calls event o.follows (
              assistant_event-DistinctIds pending (or_none (join s.pending_reasoning)) turn.provider
                turn.model event returned),
        )
      ]

then-InOrder :
    (m : Result LoopError (Unit {0}) × LoopState) (rest : Exec LoopState LoopError (Unit {0}))
    → IsOrdered m.1
    → ((s : LoopState) → IsOrdered s → InOrder (rest s).1.sent)
    → InOrder (continue m.0 (λ _. rest) m.1).1.sent
then-InOrder (ok a, s) rest o next = next s o
then-InOrder (err e, s) rest o next = (o.calls, [], o.follows)

stream_from-InOrder :
    (turn : Turn) (items : List GraphItem) (s : LoopState)
    → IsOrdered s
    → InOrder (stream_items turn items s).1.sent
unfolding stream_items
stream_from-InOrder turn [] s o = yield_last-InOrder turn s.pending s o
stream_from-InOrder turn (item ∷ items) s o =
    then-InOrder (take_item turn item s) (stream_items turn items)
      (take_item-IsOrdered turn item s o) (λ t k. stream_from-InOrder turn items t k)

-- The handlers yield nothing.
with_handlers-sent :
    (m : Result LoopError (Unit {0}) × LoopState) → (with_handlers m).1.sent ≡ m.1.sent
with_handlers-sent (ok x, s) = refl
with_handlers-sent (err e, s) = refl

-- Whatever the graph gives, and wherever the loop raises, the events that it has yielded are in order:
-- an assistant's message declares calls with ids of their own; before anything else follows, but at
-- the very end, each of them has started, once and in its place; and a result belongs to a call of the
-- last message and carries its id.
pub stream-InOrder :
    (turn : Turn) (items : List GraphItem) → InOrder (stream turn items initial).1.sent
unfolding stream
stream-InOrder turn items = rw (with_handlers-sent (stream_items turn items initial)) (
    stream_from-InOrder turn items initial (record {
      calls = [];
      follows = no_events;
      active = λ id call found. absurd (no_calls id call found);
    }))
