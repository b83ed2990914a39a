-- ===== src/MessageChain/Sound.antt =====
-- What `validate_messages_chain` lets through, against `IsChain` (message_chain.py).
use auto_reign.Prelude.{
  suc, ◌+◌, ◌≤◌, ◌≡◌, ◌∙◌, ap, true, Option, List, [], ◌∷◌, ◌++◌, append-nil, Text, codes, arith,
  text_key, length, length-append, inl, inr, Bool-cases, Result-cases, ok,
}
use auto_reign.Json.{Value, Items, object, array, nil, cons, get_field, values_of}
use auto_reign.MessageChain.Messages.{Assistant, Tool, Message, assistant, tool}
use auto_reign.MessageChain.Normalize.{normalize_assistant, normalize_tool}
use auto_reign.MessageChain.Validate.{
  ChainState, initial, is_empty, declare_calls, append_message, accept_assistant, accept_tool,
  role_is, step, steps, close_chain, validate_messages_chain,
}
use auto_reign.MessageChain.Trace.{
  ChainEvent, message_events, events, Fits, AllFit, IsChain, events-append, AllFit-append,
}
use auto_reign.MessageChain.Tracking.{
  Tracks, initial-Tracks, declare_calls-Tracks, accept_tool-Tracks, accept_tool-Fits, closed,
}

-- Between two messages: the variables are those of the normalized messages, which fit.
pub record IsConsistent (s : ChainState) : Type 0 where
  pub tracks : Tracks s (events s.normalized)
  pub fit : AllFit [] s.normalized

accept_tool-normalized :
    (s t : ChainState) (m : Tool)
    → accept_tool s m ≡ ok t
    → t.normalized ≡ s.normalized ++ tool m ∷ []
unfolding accept_tool
accept_tool-normalized s t m h = ground arith

-- The list of normalized messages is no part of what is tracked.
append_message-Tracks :
    (s : ChainState) (m : Message) (es : List ChainEvent)
    → Tracks s es
    → Tracks (append_message s m) es
append_message-Tracks s m es h = record {
  declared = h.declared;
  resolved = h.resolved;
  unresolved = h.unresolved;
  answered_declared = h.answered_declared;
  named = h.named;
  counted = h.counted;
  few = h.few;
}

events-snoc :
    (ms : List Message) (m : Message) → events (ms ++ m ∷ []) ≡ events ms ++ message_events m
events-snoc ms m = rw (events-append ms (m ∷ []), append-nil)

append_message-IsConsistent :
    (s : ChainState) (before : List Message) (m : Message)
    → s.normalized ≡ before
    → Tracks s (events before ++ message_events m)
    → AllFit [] before
    → Fits (events before) m
    → IsConsistent (append_message s m)
append_message-IsConsistent s before m same tracks fit last = record {
  tracks =
      let all_events : events (s.normalized ++ m ∷ []) ≡ events before ++ message_events m =
        ap (λ ms. events (ms ++ m ∷ [])) same ∙ events-snoc before m in
      rw all_events (append_message-Tracks s m (events before ++ message_events m) tracks);
  fit = rw same (AllFit-append [] before m fit last);
}

-- One more message, and the variables are those of the longer list.
record Extends (s t : ChainState) : Type 0 where
  consistent : IsConsistent t
  one_more : length t.normalized ≡ suc (length s.normalized)

length-snoc : (ms : List Message) (m : Message) → length (ms ++ m ∷ []) ≡ suc (length ms)
length-snoc ms m = omega (arith, length-append ms (m ∷ []))

accept_assistant-Extends :
    (s t : ChainState) (m : Assistant)
    → IsConsistent s
    → is_empty s.unresolved ≡ true
    → accept_assistant s m ≡ ok t
    → Extends s t
unfolding accept_assistant
accept_assistant-Extends s t m h empty ok_t = elim (Result-cases (declare_calls s m.tool_calls)) [
  | inl (next, e) ↦
      let (tracks, same) =
        declare_calls-Tracks m.tool_calls s next (events s.normalized) h.tracks e in
      let t_next : append_message next (assistant m) ≡ t = ground arith in
      rw (← t_next) (record {
        consistent =
            append_message-IsConsistent next s.normalized (assistant m) same tracks h.fit
              (closed s (events s.normalized) h.tracks empty);
        one_more = rw same (length-snoc s.normalized (assistant m));
      })
  | inr (raised, e) ↦ ground arith
]

accept_tool-Extends :
    (s t : ChainState) (m : Tool) → IsConsistent s → accept_tool s m ≡ ok t → Extends s t
accept_tool-Extends s t m h ok_t = record {
  one_more = rw (accept_tool-normalized s t m ok_t) (length-snoc s.normalized (tool m));
  consistent = record {
    tracks =
        let all_events : events t.normalized ≡ events s.normalized ++ message_events (tool m) =
          ap events (accept_tool-normalized s t m ok_t) ∙ events-snoc s.normalized (tool m) in
        rw all_events (accept_tool-Tracks s t m (events s.normalized) h.tracks ok_t);
    fit = rw (accept_tool-normalized s t m ok_t) (
        AllFit-append [] s.normalized (tool m) h.fit
          (accept_tool-Fits s t m (events s.normalized) h.tracks ok_t));
  };
}

module _ (loads : Text → Option Value) where
  step-Extends :
      (s t : ChainState) (v : Value) → IsConsistent s → step loads s v ≡ ok t → Extends s t
  unfolding step
  step-Extends s t (object raw) h ok_t =
      elim (Bool-cases (role_is (codes "assistant") (get_field (codes "role") raw))) [
        | inl speaks ↦ elim (Bool-cases (is_empty s.unresolved)) [
          | inl empty ↦ elim (Result-cases (normalize_assistant loads raw)) [
            | inl (m, e) ↦ accept_assistant-Extends s t m h empty (ground arith)
            | inr (raised, e) ↦ ground arith
          ]
          | inr open_calls ↦ ground arith
        ]
        | inr silent ↦ elim (Result-cases (normalize_tool raw)) [
          | inl (m, e) ↦ accept_tool-Extends s t m h (ground arith)
          | inr (raised, e) ↦ ground arith
        ]
      ]
  step-Extends s t _ h ok_t = ground arith

  steps-IsConsistent :
      (items : Items) (s t : ChainState)
      → IsConsistent s
      → steps loads s items ≡ ok t
      → IsConsistent t × (length t.normalized ≡ length s.normalized + length (values_of items))
  unfolding steps
  steps-IsConsistent nil s t h ok_t = let same : t ≡ s = ground arith in rw same (h, omega arith)
  steps-IsConsistent (cons v items) s t h ok_t = elim (Result-cases (step loads s v)) [
    | inl (next, e) ↦
        let extends = step-Extends s next v h e in
        let (last, total) = steps-IsConsistent items next t extends.consistent (ground arith) in
        (last, omega (arith, extends.one_more, total))
    | inr (raised, e) ↦ ground arith
  ]

  close_chain-ok :
      (s : ChainState) (ms : List Message)
      → close_chain s ≡ ok ms
      → (is_empty s.unresolved ≡ true) × (ms ≡ s.normalized)
  unfolding close_chain
  close_chain-ok s ms h = ground arith

  -- At the end of the loop.
  closed-IsChain :
      (s : ChainState)
      → IsConsistent s
      → is_empty s.unresolved ≡ true
      → length s.normalized ≤ 256
      → IsChain s.normalized
  closed-IsChain s h empty few = record {
    ordered = h.fit;
    declared_once = λ id. ground (arith, h.tracks.declared id);
    answered_once = closed s (events s.normalized) h.tracks empty;
    few_calls = ground (arith, h.tracks.counted, h.tracks.few);
    few_messages = few;
  }

  -- Whatever is validated is a chain: an assistant speaks only when every call before it has its
  -- answer, each answer follows a call with its id and its name, every call is declared once and
  -- answered once, and the limits on messages and calls hold.
  pub validate_messages_chain-IsChain :
      (raw : Value) (ms : List Message) → validate_messages_chain loads raw ≡ ok ms → IsChain ms
  unfolding validate_messages_chain
  validate_messages_chain-IsChain (array (cons v items)) ms ok_ms =
      elim (Result-cases (steps loads initial (cons v items))) [
        | inl (s, e) ↦
            let start : IsConsistent initial = record { tracks = initial-Tracks; fit = tt } in
            let (consistent, total) = steps-IsConsistent (cons v items) initial s start e in
            let (empty, same) = close_chain-ok s ms (ground arith) in
            rw same (closed-IsChain s consistent empty (ground (arith, total)))
        | inr (raised, e) ↦ ground arith
      ]
  validate_messages_chain-IsChain _ ms ok_ms = ground arith
