-- ===== src/Reducer/Endings.antt =====
-- What is stored of a run that was broken off (partial_result of runtime_event_reducer.py).
use auto_reign.Prelude.{
  ◌≡◌, refl, subst, ◌∙◌, sym, ap, ◌⊎◌, Bool, true, ◌&&◌, none, some, List, [], ◌∷◌, ◌++◌, Text,
  arith, ok, take, inl, inr, Result-cases, Bool-cases, append-nil, append_assoc,
}
use mathlib.Core.List.{reverse, reverse-cons, reverse-reverse}
use auto_reign.Json.{
  canonical_json, max_json_string_chars, serialize, sized, scan, round, visit, count_keys,
  key_bytes, string_bytes, utf8_size, add_node, add_bytes, dumps, dump_items, dump_fields,
}
use auto_reign.ChatBlocks.{
  TextBlockStatus, ToolBlockStatus, Block, text, tool, append_text_block, update_tool_block,
  tool_is_final, text_is_done,
}
use auto_reign.ChatBlocks.Lifecycle.{append_text_block-Appended, update_tool_block-Updated}
use auto_reign.Reducer.State.{Reducer}
use auto_reign.Reducer.Content.{join}
use auto_reign.Reducer.Finish.{
  validate_envelope, Partial, partial_value, interrupted, terminal_partial_block,
  terminal_partial_blocks, shrink, partial_result,
}

abbrev pub is_terminal : Block → Bool
is_terminal (text b) = text_is_done b.status
is_terminal (tool b) = tool_is_final b.status

abbrev pub all_terminal : List Block → Bool
all_terminal [] = true
all_terminal (b ∷ blocks) = is_terminal b && all_terminal blocks

terminal_partial_block-terminal :
    (b c : Block) → terminal_partial_block b ≡ ok c → is_terminal c ≡ true
unfolding terminal_partial_block
terminal_partial_block-terminal (text b) c h = elim (Bool-cases (text_is_done b.status)) [
  | inl done ↦ ground arith
  | inr streaming ↦ elim (Result-cases (append_text_block b [] (some TextBlockStatus.done))) [
    | inr (e, raised) ↦ ground arith
    | inl (d, closes) ↦
        ground (arith, append_text_block-Appended b d [] (some TextBlockStatus.done) closes)
  ]
]
terminal_partial_block-terminal (tool b) c h = elim (Bool-cases (tool_is_final b.status)) [
  | inl final ↦ ground arith
  | inr going_on ↦
      elim (Result-cases
        (update_tool_block b none (some interrupted) (some ToolBlockStatus.error))) [
          | inr (e, raised) ↦ ground arith
          | inl (d, closes) ↦ ground (
            arith,
            update_tool_block-Updated b d none (some interrupted) (some ToolBlockStatus.error)
                closes,
          )
        ]
]

pub terminal_partial_blocks-terminal :
    (blocks closed : List Block)
    → terminal_partial_blocks blocks ≡ ok closed
    → all_terminal closed ≡ true
unfolding terminal_partial_blocks
terminal_partial_blocks-terminal [] closed h = ground arith
terminal_partial_blocks-terminal (b ∷ blocks) closed h =
    elim (Result-cases (terminal_partial_block b)) [
      | inr (e, raised) ↦ ground arith
      | inl (c, closes) ↦ elim (Result-cases (terminal_partial_blocks blocks)) [
        | inr (e, raised) ↦ ground arith
        | inl (cs, close) ↦ ground (
          arith,
          terminal_partial_block-terminal b c closes,
          terminal_partial_blocks-terminal blocks cs close,
        )
      ]
    ]

empty_partial : validate_envelope (partial_value (record { value = []; blocks = [] })) ≡ ok tt
unfolding validate_envelope partial_value canonical_json serialize sized scan round visit count_keys
    key_bytes string_bytes utf8_size add_node add_bytes dumps dump_items dump_fields
empty_partial = refl

-- A prefix of the blocks, or the empty envelope.
pub record Kept (value : Text) (blocks : List Block) (r : Partial) : Type 0 where
  pub accepted : validate_envelope (partial_value r) ≡ ok tt
  pub dropped : List Block
  pub prefix : r.blocks ++ dropped ≡ blocks
  pub whole : (r.value ≡ value) ⊎ ((r.value ≡ []) × (r.blocks ≡ []))

shrink-Kept :
    (value : Text) (later : List Block)
    → (r : Partial) × (shrink value later ≡ ok r) × Kept value (reverse later) r
unfolding shrink
shrink-Kept value [] =
    elim (Result-cases
      (validate_envelope (partial_value (record { value = value; blocks = [] })))) [
        | inl (_, e) ↦ (
          record { value = value; blocks = [] },
          ground arith,
          record { accepted = e; dropped = []; prefix = refl; whole = inl refl },
        )
        | inr (_, e) ↦ (
          record { value = []; blocks = [] },
          ground (arith, empty_partial),
          record {
            accepted = empty_partial;
            dropped = [];
            prefix = refl;
            whole = inr (refl, refl);
          },
        )
      ]
shrink-Kept value (b ∷ earlier) =
    elim (Result-cases (
      validate_envelope
        (partial_value (record { value = value; blocks = reverse (b ∷ earlier) })))) [
          | inl (_, e) ↦ (
            record { value = value; blocks = reverse (b ∷ earlier) },
            ground arith,
            record { accepted = e; dropped = []; prefix = append-nil _; whole = inl refl },
          )
          | inr (_, e) ↦
              let (r, returns, k) = shrink-Kept value earlier in
              (
                r,
                ground (arith, returns),
                record {
                  accepted = k.accepted;
                  dropped = k.dropped ++ b ∷ [];
                  prefix =
                      sym (append_assoc r.blocks k.dropped (b ∷ []))
                      ∙ (ap (λ bs. bs ++ b ∷ []) k.prefix ∙ sym (reverse-cons b earlier));
                  whole = k.whole;
                },
              )
        ]

-- Where the blocks of a broken-off run can be closed, its result is always returned: its envelope
-- is within the limits, its blocks are a prefix of the closed blocks, and its value is the text that
-- was sent, cut to the length of a JSON string, or nothing is left of both.
pub partial_result-Kept :
    (s : Reducer) (closed : List Block)
    → terminal_partial_blocks s.blocks ≡ ok closed
    → (all_terminal closed ≡ true)
      × ((r : Partial) × (partial_result s ≡ ok r)
          × Kept (take max_json_string_chars (join s.value_parts)) closed r)
unfolding partial_result
partial_result-Kept s closed h = (
  terminal_partial_blocks-terminal s.blocks closed h,
  let (r, returns, k) =
        shrink-Kept (take max_json_string_chars (join s.value_parts)) (reverse closed) in
      (
        r,
        rw h returns,
        subst (λ bs. Kept (take max_json_string_chars (join s.value_parts)) bs r)
            (reverse-reverse closed) k,
      ),
)
