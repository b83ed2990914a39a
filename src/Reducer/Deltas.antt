-- ===== src/Reducer/Deltas.antt =====
-- `_accept_delta`: a piece of text for the open text block, which the first piece opens.
use auto_reign.Prelude.{
  ℕ, not, Option, none, some, List, [], ◌∷◌, ◌++◌, Text, Result, ok, err, get_elem?, set, length,
  pos,
}
use auto_reign.Prelude.Exec.{pure, self, modify, ensure, lift, ◌>>=◌, ◌>>◌}
use auto_reign.TextOffsets.{advance_utf16_offset}
use auto_reign.ChatBlocks.{
  TextBlock, TextBlockStatus, Block, text, tool, Fresh, create_text_block, append_text_block,
}
use auto_reign.Reducer.State.{
  ReducerError, runtime_event_invalid, runtime_event_unresolved_tool_call, block_error, index_error,
  Emission, chunk, block_created, Reducer, Method, has_unresolved,
}

-- `if self._text_block_index is None`: the index is written before the block is made.
unfoldable pub open_text_block : Fresh → Option ℕ → Method (List Emission)
open_text_block fresh (some _) = pure []
open_text_block fresh none = do
  modify (λ s. record s { text_block_index = some (length s.blocks); text_block_offset = 0 })
  block ← lift block_error (create_text_block fresh [] TextBlockStatus.streaming none none)
  modify (λ s. record s { blocks = s.blocks ++ text block ∷ [] })
  pure (block_created (text block) ∷ [])

text_block_of : Option Block → Result ReducerError TextBlock
text_block_of none = err index_error
text_block_of (some (tool _)) = err runtime_event_invalid
text_block_of (some (text block)) = ok block

-- block = self.blocks[self._text_block_index], which must be a text block.
unfoldable pub block_at : Reducer → Option ℕ → Result ReducerError (ℕ × TextBlock)
unfolding text_block_of
block_at s none = err index_error
block_at s (some index) = elim (text_block_of (get_elem? s.blocks index)) [
  | ok block ↦ ok (index, block)
  | err e ↦ err e
]

unfoldable pub extend_text_block : Text → Method (List Emission)
unfolding block_at
extend_text_block content = do
  s ← self
  (index, block) ← lift (λ e. e) (block_at s s.text_block_index)
  next_block_offset ←
      lift (λ _. runtime_event_invalid) (advance_utf16_offset (pos s.text_block_offset) content)
  next_value_offset ←
      lift (λ _. runtime_event_invalid) (advance_utf16_offset (pos s.value_offset) content)
  updated ← lift block_error (append_text_block block content none)
  modify (λ s. record s {
    blocks = set s.blocks index (text updated);
    pending_deltas = s.pending_deltas ++ content ∷ [];
    value_parts = s.value_parts ++ content ∷ [];
    text_block_offset = next_block_offset;
    value_offset = next_value_offset;
  })
  pure (chunk updated.id s.text_block_offset s.value_offset content ∷ [])

unfoldable pub accept_delta : Fresh → Text → Method (List Emission)
accept_delta fresh [] = pure []
accept_delta fresh (c ∷ content) = do
  s ← self
  ensure (not (has_unresolved s)) runtime_event_unresolved_tool_call
  created ← open_text_block fresh s.text_block_index
  emitted ← extend_text_block (c ∷ content)
  pure (created ++ emitted)
