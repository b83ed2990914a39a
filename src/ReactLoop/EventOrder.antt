-- ===== src/ReactLoop/EventOrder.antt =====
-- What the events that `ReactLoop.stream` yields follow, and the starts and texts that keep to it.
use auto_reign.Prelude.{
  ◌≡◌, refl, sym, ◌∙◌, ap, ◌⊎◌, inl, inr, true, false, Option, some, List, [], ◌∷◌, ◌++◌, Text, ok,
  if◌then◌else◌, ◌==◌, text_key, text_beq_iff, arith, Bool-cases, Result-cases, In, contains,
}
use auto_reign.Prelude.Dict
use auto_reign.Prelude.Dict.{Dict, get-put}
use auto_reign.Json.{Value}
use auto_reign.RuntimeTypes.{
  ToolCall, ToolResult, AssistantMessageEvent, RuntimeEvent, text_delta, assistant_message,
  tool_start, tool_result,
}
use auto_reign.ReactLoop.Chunks.{Chunk, runtime_tool_call, distinct_calls, assistant_event}
use auto_reign.ReactLoop.Stream.{LoopState, yield_event, yield_starts, yield_texts, calls_by_id}

-- No two calls with one id.
abbrev pub ids_of : List ToolCall → List Text
ids_of [] = []
ids_of (call ∷ calls) = call.id ∷ ids_of calls

abbrev pub DistinctIds : List ToolCall → Type 0
DistinctIds [] = Unit
DistinctIds (call ∷ calls) = (contains (ids_of calls) call.id ≡ false) × DistinctIds calls

-- A sequence of events, the calls of its last message, and those of them that have not started.
pub data Follows : List RuntimeEvent → List ToolCall → List ToolCall → Type 0 where
  no_events : Follows [] [] []
  then_text :
      (es : List RuntimeEvent) (cs : List ToolCall) (content : Text)
      → Follows es cs []
      → Follows (es ++ (text_delta content ∷ [])) cs []
  then_message :
      (es : List RuntimeEvent) (cs : List ToolCall) (event : AssistantMessageEvent)
      → Follows es cs []
      → DistinctIds event.tool_calls
      → Follows (es ++ (assistant_message event ∷ [])) event.tool_calls event.tool_calls
  then_start :
      (es : List RuntimeEvent) (cs : List ToolCall) (call : ToolCall) (rest : List ToolCall)
      → Follows es cs (call ∷ rest)
      → Follows (es ++ (tool_start call ∷ [])) cs rest
  then_answer :
      (es : List RuntimeEvent) (cs : List ToolCall) (call : ToolCall) (result : ToolResult)
      → Follows es cs []
      → In call cs
      → call.id ≡ result.call_id
      → Follows (es ++ (tool_result call result ∷ [])) cs []

-- Between two items of the graph.
pub record IsOrdered (s : LoopState) : Type 0 where
  pub calls : List ToolCall
  pub follows : Follows s.sent calls []
  pub active :
      (id : Text) (call : ToolCall)
      → Dict.get id s.active_calls ≡ some call
      → In call calls × (call.id ≡ id)

distinct_calls-DistinctIds :
    (seen : List Text) (values : List Value) (calls : List ToolCall)
    → distinct_calls seen values ≡ ok calls
    → DistinctIds calls
      × ((id : Text) → contains seen id ≡ true → contains (ids_of calls) id ≡ false)
unfolding distinct_calls
distinct_calls-DistinctIds seen [] calls h =
    let empty : calls ≡ [] = ground arith in rw empty (tt, λ id k. refl)
distinct_calls-DistinctIds seen (value ∷ values) calls h =
    elim (Result-cases (runtime_tool_call value)) [
      | inr (e, raised) ↦ ground arith
      | inl (call, returned) ↦ elim (Result-cases (distinct_calls (call.id ∷ seen) values)) [
        | inr (e, raised) ↦ ground arith
        | inl (rest, returned_rest) ↦
            let both : calls ≡ call ∷ rest = ground arith in
            let new : contains seen call.id ≡ false = ground arith in
            let (distinct, apart) =
              distinct_calls-DistinctIds (call.id ∷ seen) values rest returned_rest in
            rw both (
              (apart call.id (ground (arith, text_beq_iff call.id call.id)), distinct),
              λ id k. ground (arith, apart id, text_beq_iff id call.id),
            )
      ]
    ]

pub assistant_event-DistinctIds :
    (pending : Chunk) (reasoning : Option Text) (provider model : Text)
    (event : AssistantMessageEvent)
    → assistant_event pending reasoning provider model ≡ ok event
    → DistinctIds event.tool_calls
unfolding assistant_event
assistant_event-DistinctIds pending reasoning provider model event h =
    elim (Result-cases (distinct_calls [] pending.tool_calls)) [
      | inr (e, raised) ↦ ground arith
      | inl (calls, returned) ↦
          let same : event.tool_calls ≡ calls = ground arith in
          rw same (distinct_calls-DistinctIds [] pending.tool_calls calls returned).0
    ]

pub calls_by_id-In :
    (calls : List ToolCall) (d : Dict Text ToolCall) (id : Text) (call : ToolCall)
    → Dict.get id (calls_by_id calls d) ≡ some call
    → (In call calls × (call.id ≡ id)) ⊎ (Dict.get id d ≡ some call)
unfolding calls_by_id
calls_by_id-In [] d id call h = inr h
calls_by_id-In (c ∷ calls) d id call h = elim (calls_by_id-In calls (Dict.put c.id c d) id call h) [
  | inl (member, same) ↦ inl (inr member, same)
  | inr there ↦
      let looked : (if id == c.id then some c else Dict.get id d) ≡ some call =
        sym (get-put c.id id c d) ∙ there in
      elim (Bool-cases (id == c.id)) [
        | inr other ↦ inr (rw other at looked)
        | inl same_id ↦
            let found : some c ≡ some call = rw same_id at looked in
            let one : call ≡ c = ground arith in
            inl (inl one, ap (λ (x : ToolCall). x.id) one ∙ sym ((text_beq_iff id c.id).0 same_id))
      ]
]

abbrev pub no_calls_yet : Dict Text ToolCall
no_calls_yet = []

pub no_calls : (id : Text) (call : ToolCall) → Dict.get id no_calls_yet ≡ some call → ⊥
unfolding Dict.get
no_calls id call h = cc

-- The starts of the calls of a message leave none that has not started.
pub yield_starts-Follows :
    (cs rest : List ToolCall) (s : LoopState)
    → Follows s.sent cs rest
    → (sent : List RuntimeEvent) × (yield_starts rest s ≡ (ok tt, record s { sent = sent }))
      × Follows sent cs []
unfolding yield_starts yield_event
yield_starts-Follows cs [] s f = (s.sent, refl, f)
yield_starts-Follows cs (call ∷ rest) s f =
    yield_starts-Follows cs rest (record s { sent = s.sent ++ (tool_start call ∷ []) })
      (then_start s.sent cs call rest f)

pub yield_texts-Follows :
    (cs : List ToolCall) (texts : List Text) (s : LoopState)
    → Follows s.sent cs []
    → (sent : List RuntimeEvent) × (yield_texts texts s ≡ (ok tt, record s { sent = sent }))
      × Follows sent cs []
unfolding yield_texts yield_event
yield_texts-Follows cs [] s f = (s.sent, refl, f)
yield_texts-Follows cs (t ∷ texts) s f =
    yield_texts-Follows cs texts (record s { sent = s.sent ++ (text_delta t ∷ []) })
      (then_text s.sent cs t f)
