-- ===== src/Reducer/DeltaSteps.antt =====
-- What an accepted piece of text has done, read off the methods.
use auto_reign.Prelude.{
  ℕ, ◌≡◌, refl, sym, false, Option, none, some, List, [], ◌∷◌, ◌++◌, Text, arith, inl, inr, ok,
  Result-cases, Bool-cases, get_elem?, set, length, pos, text_key,
}
use auto_reign.Prelude.Exec.{>>=-Returned, returned}
use auto_reign.Prelude.Options.{Option-cases}
use auto_reign.TextOffsets.{advance_utf16_offset}
use auto_reign.ChatBlocks.{
  TextBlock, TextBlockStatus, text, tool, Fresh, create_text_block, append_text_block,
}
use auto_reign.Reducer.State.{Emission, chunk, block_created, Reducer, has_unresolved}
use auto_reign.Reducer.Deltas.{open_text_block, block_at, extend_text_block, accept_delta}

pub block_at-ok :
    (s : Reducer) (at : Option ℕ) (index : ℕ) (block : TextBlock)
    → block_at s at ≡ ok (index, block)
    → (at ≡ some index) × (get_elem? s.blocks index ≡ some (text block))
unfolding block_at
block_at-ok s none index block h = ground arith
block_at-ok s (some i) index block h = elim (Option-cases (get_elem? s.blocks i)) [
  | inl missing ↦ ground arith
  | inr (text b, found) ↦ ground arith
  | inr (tool b, found) ↦ ground arith
]

-- A piece of text that the open block took.
pub record Extended (s : Reducer) (content : Text) (t : Reducer) (es : List Emission) : Type 0 where
  pub index : ℕ
  pub block : TextBlock
  pub updated : TextBlock
  pub next_block_offset : ℕ
  pub next_value_offset : ℕ
  pub is_open : s.text_block_index ≡ some index
  pub found : get_elem? s.blocks index ≡ some (text block)
  pub block_advanced : advance_utf16_offset (pos s.text_block_offset) content ≡ ok next_block_offset
  pub value_advanced : advance_utf16_offset (pos s.value_offset) content ≡ ok next_value_offset
  pub appended : append_text_block block content none ≡ ok updated
  pub emitted : es ≡ chunk updated.id s.text_block_offset s.value_offset content ∷ []
  pub after : t ≡ record s {
    blocks = set s.blocks index (text updated);
    pending_deltas = s.pending_deltas ++ content ∷ [];
    value_parts = s.value_parts ++ content ∷ [];
    text_block_offset = next_block_offset;
    value_offset = next_value_offset;
  }

pub extend_text_block-Extended :
    (s t : Reducer) (content : Text) (es : List Emission)
    → extend_text_block content s ≡ (ok es, t)
    → Extended s content t es
unfolding extend_text_block
extend_text_block-Extended s t content es h = elim (Result-cases (block_at s s.text_block_index)) [
  | inr (e, raised) ↦ ground arith
  | inl ((i, b), at) ↦
      elim (Result-cases (advance_utf16_offset (pos s.text_block_offset) content)) [
        | inr (e, raised) ↦ ground arith
        | inl (nb, eb) ↦ elim (Result-cases (advance_utf16_offset (pos s.value_offset) content)) [
          | inr (e, raised) ↦ ground arith
          | inl (nv, ev) ↦ elim (Result-cases (append_text_block b content none)) [
            | inr (e, raised) ↦ ground arith
            | inl (u, ea) ↦
                let found = block_at-ok s s.text_block_index i b at in
                record {
                  index = i;
                  block = b;
                  updated = u;
                  next_block_offset = nb;
                  next_value_offset = nv;
                  is_open = found.0;
                  found = found.1;
                  block_advanced = eb;
                  value_advanced = ev;
                  appended = ea;
                  emitted = ground arith;
                  after = ground arith;
                }
          ]
        ]
      ]
]

-- The open text block, found or just made.
pub data Opened (fresh : Fresh) (s t : Reducer) (es : List Emission) : Type 0 where
  kept : (index : ℕ) → s.text_block_index ≡ some index → t ≡ s → es ≡ [] → Opened fresh s t es
  made :
      (block : TextBlock)
      → s.text_block_index ≡ none
      → create_text_block fresh [] TextBlockStatus.streaming none none ≡ ok block
      → t ≡ record s {
        text_block_index = some (length s.blocks);
        text_block_offset = 0;
        blocks = s.blocks ++ text block ∷ [];
      }
      → es ≡ block_created (text block) ∷ []
      → Opened fresh s t es

pub open_text_block-Opened :
    (fresh : Fresh) (s t : Reducer) (es : List Emission) (at : Option ℕ)
    → at ≡ s.text_block_index
    → open_text_block fresh at s ≡ (ok es, t)
    → Opened fresh s t es
unfolding open_text_block
open_text_block-Opened fresh s t es (some i) at h = kept i (sym at) (ground arith) (ground arith)
open_text_block-Opened fresh s t es none at h =
    elim (Result-cases (create_text_block fresh [] TextBlockStatus.streaming none none)) [
      | inr (e, raised) ↦ ground arith
      | inl (b, created) ↦ made b (sym at) created (ground arith) (ground arith)
    ]

-- An accepted piece of text that is not empty.
pub record Delta (fresh : Fresh) (s : Reducer) (content : Text) (t : Reducer) (es : List Emission)
    : Type 0 where
  pub middle : Reducer
  pub opening : List Emission
  pub extending : List Emission
  pub nothing_open : has_unresolved s ≡ false
  pub opened : Opened fresh s middle opening
  pub extended : Extended middle content t extending
  pub emitted : es ≡ opening ++ extending

pub accept_delta-Delta :
    (fresh : Fresh) (s t : Reducer) (c : ℕ) (content : Text) (es : List Emission)
    → accept_delta fresh (c ∷ content) s ≡ (ok es, t)
    → Delta fresh s (c ∷ content) t es
unfolding accept_delta
accept_delta-Delta fresh s t c content es h = elim (Bool-cases (has_unresolved s)) [
  | inl some_open ↦ ground arith
  | inr none_open ↦
      elim (>>=-Returned (open_text_block fresh s.text_block_index s) _ (rw none_open at h)) [
        | returned opening middle opens h ↦
            elim (>>=-Returned (extend_text_block (c ∷ content) middle) _ h) [
              | returned extending after extends h ↦ record {
                middle = middle;
                opening = opening;
                extending = extending;
                nothing_open = none_open;
                opened =
                    open_text_block-Opened fresh s middle opening s.text_block_index refl opens;
                extended =
                    extend_text_block-Extended middle t (c ∷ content) extending (ground arith);
                emitted = ground arith;
              }
            ]
      ]
]
