-- ===== src/MessageChain/Tracking.antt =====
-- The variables of the validating loop against the messages so far (message_chain.py).
use auto_reign.Prelude.{
  ℕ, ◌≤◌, ◌≡◌, refl, ◌∙◌, Bool, true, not, ◌&&◌, some, List, [], ◌∷◌, ◌++◌, append_assoc,
  append-nil, Text, arith, text_key, text_beq_iff, contains, contains-remove, >>=-eq-ok,
  if◌then◌else◌, inl, inr, ok,
}
use auto_reign.Prelude.Options.{Option-cases}
use auto_reign.Prelude.Dict
use auto_reign.Prelude.Dict.{Dict, get-put}
use auto_reign.MessageChain.Messages.{Call, Tool, tool}
use auto_reign.MessageChain.Validate.{
  ChainState, initial, is_empty, declare_call, declare_calls, accept_tool,
}
use auto_reign.MessageChain.Trace.{
  ChainEvent, called, answered, call_events, calls_of, answers_of, is_called_as, total_calls, Fits,
  calls_of-append, answers_of-append, is_called_as-append, total_calls-append,
}

abbrev pub one_if : Bool → ℕ
one_if b = if b then 1 else 0

-- The variables against the events that they have seen.
pub record Tracks (s : ChainState) (es : List ChainEvent) : Type 0 where
  pub declared : (id : Text) → calls_of id es ≡ one_if (Dict.has id s.declared)
  pub resolved : (id : Text) → answers_of id es ≡ one_if (contains s.resolved id)
  pub unresolved :
      (id : Text)
      → contains s.unresolved id ≡ (Dict.has id s.declared && not (contains s.resolved id))
  pub answered_declared :
      (id : Text) → contains s.resolved id ≡ true → Dict.has id s.declared ≡ true
  pub named : (id name : Text) → Dict.get id s.declared ≡ some name → is_called_as id name es ≡ true
  pub counted : s.tool_call_count ≡ total_calls es
  pub few : s.tool_call_count ≤ 128

pub initial-Tracks : Tracks initial []
unfolding Dict.has
initial-Tracks = ground arith

pub declare_call-Tracks :
    (s t : ChainState) (call : Call) (es : List ChainEvent)
    → Tracks s es
    → declare_call s call ≡ ok t
    → Tracks t (es ++ called call.id call.name ∷ [])
unfolding declare_call Dict.has
declare_call-Tracks s t call es h ok_t = record {
  declared = λ id. ground (
    arith,
    h.declared id,
    calls_of-append id es (called call.id call.name ∷ []),
    get-put call.id id call.name s.declared,
    text_beq_iff id call.id,
  );
  resolved =
      λ id. ground (arith, h.resolved id, answers_of-append id es (called call.id call.name ∷ []));
  unresolved = λ id. ground (
    arith,
    h.unresolved id,
    h.answered_declared id,
    get-put call.id id call.name s.declared,
    text_beq_iff id call.id,
  );
  answered_declared =
      λ id r. ground (arith, h.answered_declared id, get-put call.id id call.name s.declared);
  named = λ id name g. ground (
    arith,
    h.named id name,
    get-put call.id id call.name s.declared,
    is_called_as-append id name es (called call.id call.name ∷ []),
    text_beq_iff name call.name,
  );
  counted = ground (arith, h.counted, total_calls-append es (called call.id call.name ∷ []));
  few = ground arith;
}

declare_call-normalized :
    (s t : ChainState) (call : Call) → declare_call s call ≡ ok t → t.normalized ≡ s.normalized
unfolding declare_call
declare_call-normalized s t call h = ground arith

-- The calls of one message, declared in their order.
pub declare_calls-Tracks :
    (calls : List Call) (s t : ChainState) (es : List ChainEvent)
    → Tracks s es
    → declare_calls s calls ≡ ok t
    → Tracks t (es ++ call_events calls) × (t.normalized ≡ s.normalized)
unfolding declare_calls
declare_calls-Tracks [] s t es h ok_t =
    let same : t ≡ s = ground arith in rw (append-nil, same) (h, refl)
declare_calls-Tracks (call ∷ calls) s t es h ok_t =
    let (next, rest, declared) =
      >>=-eq-ok (declare_call s call) (λ s. declare_calls s calls) ok_t in
    let step = declare_call-Tracks s next call es h declared in
    let (tracks, same) =
      declare_calls-Tracks calls next t (es ++ called call.id call.name ∷ []) step rest in
    (rw append_assoc at tracks, same ∙ declare_call-normalized s next call declared)

-- An answer, where its call is open.
pub accept_tool-Tracks :
    (s t : ChainState) (m : Tool) (es : List ChainEvent)
    → Tracks s es
    → accept_tool s m ≡ ok t
    → Tracks t (es ++ answered m.tool_call_id ∷ [])
unfolding accept_tool Dict.has
accept_tool-Tracks s t m es h ok_t = record {
  declared =
      λ id. ground (arith, h.declared id, calls_of-append id es (answered m.tool_call_id ∷ []));
  resolved = λ id. ground (
    arith,
    h.resolved id,
    answers_of-append id es (answered m.tool_call_id ∷ []),
    text_beq_iff id m.tool_call_id,
  );
  unresolved = λ id. ground (
    arith,
    h.unresolved id,
    contains-remove m.tool_call_id id s.unresolved,
    text_beq_iff id m.tool_call_id,
  );
  answered_declared =
      λ id r. ground (arith, h.answered_declared id, text_beq_iff id m.tool_call_id);
  named = λ id name g.
      ground
        (arith, h.named id name, is_called_as-append id name es (answered m.tool_call_id ∷ []));
  counted = ground (arith, h.counted, total_calls-append es (answered m.tool_call_id ∷ []));
  few = ground (arith, h.few);
}

accept_tool-declared :
    (s t : ChainState) (m : Tool)
    → accept_tool s m ≡ ok t
    → Dict.get m.tool_call_id s.declared ≡ some m.name
unfolding accept_tool
accept_tool-declared s t m ok_t = elim (Option-cases (Dict.get m.tool_call_id s.declared)) [
  | inl missing ↦ ground arith
  | inr (name, found) ↦ ground (arith, text_beq_iff name m.name)
]

-- It fits behind the events before it.
pub accept_tool-Fits :
    (s t : ChainState) (m : Tool) (es : List ChainEvent)
    → Tracks s es
    → accept_tool s m ≡ ok t
    → Fits es (tool m)
unfolding accept_tool
accept_tool-Fits s t m es h ok_t = (
  h.named m.tool_call_id m.name (accept_tool-declared s t m ok_t),
  ground (arith, h.resolved m.tool_call_id),
)

-- With no open call, every call has its answer.
pub closed :
    (s : ChainState) (es : List ChainEvent)
    → Tracks s es
    → is_empty s.unresolved ≡ true
    → (id : Text) → answers_of id es ≡ calls_of id es
closed s es h empty id =
    ground (arith, h.declared id, h.resolved id, h.unresolved id, h.answered_declared id)
