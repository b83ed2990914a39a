-- ===== src/Reducer/MessageSteps.antt =====
-- What an accepted assistant message has done, read off the methods.
use auto_reign.Prelude.{
  ℕ, ◌≡◌, refl, sym, ◌∙◌, false, Option, none, some, List, [], ◌∷◌, arith, inl, inr, ok,
  Result-cases, Bool-cases, get_elem?, set, ◌==◌, text_key, text_beq_iff,
}
use auto_reign.Prelude.Dict
use auto_reign.Prelude.Exec.{>>=-Returned, returned}
use auto_reign.RuntimeTypes.{ToolCall, AssistantMessageEvent}
use auto_reign.ChatBlocks.{TextBlock, TextBlockStatus, text, append_text_block}
use auto_reign.Reducer.State.{Emission, block_updated, Reducer, Python, has_unresolved}
use auto_reign.Reducer.Content.{join, assistant_visible_text}
use auto_reign.Reducer.Deltas.{block_at}
use auto_reign.Reducer.Assistants.{
  complete_text_block, normalized_assistant, copy_tool_calls, declare_calls, record_message,
  accept_assistant,
}
use auto_reign.Reducer.DeltaSteps.{block_at-ok}

-- The open text block, closed; or there was none.
pub data Completed (s t : Reducer) (es : List Emission) : Type 0 where
  nothing : s.text_block_index ≡ none → t ≡ s → es ≡ [] → Completed s t es
  closed :
      (index : ℕ) (block completed : TextBlock)
      → s.text_block_index ≡ some index
      → get_elem? s.blocks index ≡ some (text block)
      → append_text_block block [] (some TextBlockStatus.done) ≡ ok completed
      → t ≡ record s { blocks = set s.blocks index (text completed) }
      → es ≡ block_updated (text completed) ∷ []
      → Completed s t es

pub complete_text_block-Completed :
    (s t : Reducer) (es : List Emission) (at : Option ℕ)
    → at ≡ s.text_block_index
    → complete_text_block at s ≡ (ok es, t)
    → Completed s t es
unfolding complete_text_block
complete_text_block-Completed s t es none at h = nothing (sym at) (ground arith) (ground arith)
complete_text_block-Completed s t es (some i) at h = elim (Result-cases (block_at s (some i))) [
  | inr (e, raised) ↦ ground arith
  | inl ((j, b), found) ↦ elim (Result-cases (append_text_block b [] (some TextBlockStatus.done))) [
    | inr (e, raised) ↦ ground arith
    | inl (c, completed) ↦
        let here = block_at-ok s (some i) j b found in
        closed j b c (sym at ∙ here.0) here.1 completed (ground arith) (ground arith)
  ]
]

-- What a method leaves of the fields that the browser's view stands on.
pub record SameText (s t : Reducer) : Type 0 where
  pub blocks : t.blocks ≡ s.blocks
  pub text_block_index : t.text_block_index ≡ s.text_block_index
  pub text_block_offset : t.text_block_offset ≡ s.text_block_offset
  pub pending_deltas : t.pending_deltas ≡ s.pending_deltas
  pub value_parts : t.value_parts ≡ s.value_parts
  pub value_offset : t.value_offset ≡ s.value_offset

declare_calls-SameText :
    (calls : List ToolCall) (s : Reducer) → SameText s (declare_calls calls s).1
unfolding declare_calls
declare_calls-SameText [] s = ground arith
declare_calls-SameText (call ∷ calls) s =
    ground (
      arith,
      declare_calls-SameText calls (record s { declared = Dict.put call.id call s.declared }),
    )

pub record_message-SameText :
    (python : Python) (event : AssistantMessageEvent) (s : Reducer)
    → SameText s (record_message python event s).1
unfolding record_message
record_message-SameText python event s =
    elim (Result-cases (normalized_assistant event s.provider s.model)) [
      | inr (e, raised) ↦ ground arith
      | inl (normalized, own) ↦ elim (Result-cases (copy_tool_calls python normalized.tool_calls)) [
        | inr (e, raised) ↦ ground arith
        | inl (calls, copied) ↦ ground (arith, declare_calls-SameText calls s)
      ]
    ]

-- The open text block is no longer remembered.
abbrev pub forget_text : Reducer → Reducer
forget_text s = record s { text_block_index = none; text_block_offset = 0; pending_deltas = [] }

-- An accepted assistant message: its visible text is what was sent, and the text block is closed.
pub record Spoken (s : Reducer) (event : AssistantMessageEvent) (t : Reducer) (es : List Emission)
    : Type 0 where
  pub middle : Reducer
  pub nothing_open : has_unresolved s ≡ false
  pub visible : assistant_visible_text event.content ≡ ok (join s.pending_deltas)
  pub completed : Completed s middle es
  pub after : SameText (forget_text middle) t

pub accept_assistant-Spoken :
    (python : Python) (event : AssistantMessageEvent) (s t : Reducer) (es : List Emission)
    → accept_assistant python event s ≡ (ok es, t)
    → Spoken s event t es
unfolding accept_assistant
accept_assistant-Spoken python event s t es h = elim (Bool-cases (has_unresolved s)) [
  | inl some_open ↦ ground arith
  | inr none_open ↦ elim (Result-cases (assistant_visible_text event.content)) [
    | inr (e, raised) ↦ ground arith
    | inl (visible, shown) ↦ elim (Bool-cases (join s.pending_deltas == visible)) [
      | inr differ ↦ ground arith
      | inl same ↦
          elim (>>=-Returned (complete_text_block s.text_block_index s) _
            (rw (none_open, shown, same) at h)) [
              | returned emissions middle completes h ↦
                  elim (>>=-Returned (record_message python event (forget_text middle)) _ h) [
                    | returned _ after records h ↦
                        let sent : es ≡ emissions = ground arith in
                        record {
                          middle = middle;
                          nothing_open = none_open;
                          visible =
                              rw ((text_beq_iff (join s.pending_deltas) visible).0 same) shown;
                          completed = rw sent (
                              complete_text_block-Completed s middle emissions s.text_block_index
                                refl completes);
                          after =
                              ground
                                (arith, record_message-SameText python event (forget_text middle));
                        }
                  ]
            ]
    ]
  ]
]
