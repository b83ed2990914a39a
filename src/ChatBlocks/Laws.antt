-- ===== src/ChatBlocks/Laws.antt =====
-- Copying a block that the program holds (chat_blocks.py).
use auto_reign.Prelude.{
  ◌≡◌, Bool, true, false, not, Option, none, some, Result, ok, arith, is_blank, ◌>>◌, guard,
  text_key, ◌↔◌,
}
use auto_reign.Json.{Value, object}
use auto_reign.Datetime.{is_canonical_timestamp}
use auto_reign.ChatBlocks.Types.{
  BlockError, chat_block_invalid_id, chat_block_invalid_timestamp, chat_block_invalid_tool,
  chat_block_invalid_tool_state, TextBlock, ToolBlock, Block, text, tool, text_fields, tool_fields,
  block_value,
}
use auto_reign.ChatBlocks.Copy.{
  is_valid_chat_block_id, existing_id, ensure_json_safe, canonical_timestamp, has_keys,
  copy_text_block, copy_tool_block, copy_chat_block,
}
use auto_reign.ChatBlocks.Updates.{tool_is_final}

-- What is left to check of a block in its own dict.
abbrev pub check_text : TextBlock → Result BlockError TextBlock
check_text b = do
  guard (is_valid_chat_block_id b.id) chat_block_invalid_id
  guard (is_canonical_timestamp b.timestamp) chat_block_invalid_timestamp
  ensure_json_safe (object (text_fields b))
  ok b

pub copy_text_block-text_fields :
    (b : TextBlock) → copy_text_block (object (text_fields b)) ≡ check_text b
unfolding copy_text_block existing_id canonical_timestamp has_keys
copy_text_block-text_fields b = ground arith

-- An output is there exactly in a final state.
abbrev pub output_matches : ToolBlock → Bool
output_matches b = elim b.tool_output [
  | none ↦ not (tool_is_final b.status)
  | some _ ↦ tool_is_final b.status
]

abbrev safe_or_none : Option Value → Result BlockError (Unit {0})
safe_or_none none = ok tt
safe_or_none (some v) = ensure_json_safe v

abbrev pub check_tool : ToolBlock → Result BlockError ToolBlock
check_tool b = do
  guard (is_valid_chat_block_id b.id) chat_block_invalid_id
  guard (not (is_blank b.tool_use_id)) chat_block_invalid_tool
  guard (not (is_blank b.tool_name)) chat_block_invalid_tool
  ensure_json_safe (object b.tool_input)
  safe_or_none b.tool_output
  guard (output_matches b) chat_block_invalid_tool_state
  guard (is_canonical_timestamp b.timestamp) chat_block_invalid_timestamp
  ensure_json_safe (object (tool_fields b))
  ok b

pub copy_tool_block-tool_fields :
    (b : ToolBlock) → copy_tool_block (object (tool_fields b)) ≡ check_tool b
unfolding copy_tool_block existing_id canonical_timestamp has_keys
copy_tool_block-tool_fields b = ground arith

-- Everything that the program checks of a block that it holds.
pub record IsSoundText (b : TextBlock) : Type 0 where
  pub id : is_valid_chat_block_id b.id ≡ true
  pub timestamp : is_canonical_timestamp b.timestamp ≡ true
  pub json : ensure_json_safe (object (text_fields b)) ≡ ok tt

pub record IsSoundTool (b : ToolBlock) : Type 0 where
  pub id : is_valid_chat_block_id b.id ≡ true
  pub tool_use_id : is_blank b.tool_use_id ≡ false
  pub tool_name : is_blank b.tool_name ≡ false
  pub input : ensure_json_safe (object b.tool_input) ≡ ok tt
  pub output : safe_or_none b.tool_output ≡ ok tt
  pub state : output_matches b ≡ true
  pub timestamp : is_canonical_timestamp b.timestamp ≡ true
  pub json : ensure_json_safe (object (tool_fields b)) ≡ ok tt

pub check_text-ok : (b c : TextBlock) → check_text b ≡ ok c → (c ≡ b) × IsSoundText b
check_text-ok b c h = ground arith

pub check_tool-ok : (b c : ToolBlock) → check_tool b ≡ ok c → (c ≡ b) × IsSoundTool b
check_tool-ok b c h = ground arith

abbrev pub IsSound : Block → Type 0
IsSound (text b) = IsSoundText b
IsSound (tool b) = IsSoundTool b

-- A block's own dict is copied to the block itself exactly if the block is sound.
pub copy_chat_block-block_value :
    (b c : Block) → (copy_chat_block (block_value b) ≡ ok c) ↔ ((c ≡ b) × IsSound b)
unfolding copy_chat_block
copy_chat_block-block_value (text b) c =
    rw (copy_text_block-text_fields b) (λ h. ground arith, λ h. ground arith)
copy_chat_block-block_value (tool b) c =
    rw (copy_tool_block-tool_fields b) (λ h. ground arith, λ h. ground arith)
