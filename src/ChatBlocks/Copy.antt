-- ===== src/ChatBlocks/Copy.antt =====
-- `copy_chat_block` and the checks that every block passes whenever it is made or changed.
use auto_reign.Prelude.{
  ℕ, Bool, true, false, ◌&&◌, ◌||◌, not, Option, none, some, List, [], ◌∷◌, Text, codes, Result, ok,
  err, ◌>>=◌, ◌>>◌, guard, map_err, leb, nat_beq, if◌then◌else◌, length, all, contains, is_blank,
  ◌==◌, text_key,
}
use auto_reign.Json.{Value, Fields, str, array, object, end, field, get_field, validate_json_value}
use auto_reign.Datetime.{is_canonical_timestamp}
use auto_reign.ChatBlocks.Types.{
  BlockError, chat_block_invalid_id, chat_block_invalid_block, chat_block_invalid_text_block,
  chat_block_invalid_text_status, chat_block_invalid_tool_block, chat_block_invalid_tool,
  chat_block_invalid_tool_input, chat_block_invalid_tool_status, chat_block_invalid_tool_state,
  chat_block_invalid_timestamp, chat_block_not_json_safe, unhashable, TextBlockStatus,
  ToolBlockStatus, TextBlock, ToolBlock, Block, text, tool,
}

abbrev max_chat_block_id_length : ℕ
max_chat_block_id_length = 36

-- [A-Za-z0-9._:-]
is_id_char : ℕ → Bool
is_id_char c =
    leb 65 c && leb c 90
    || leb 97 c && leb c 122
    || leb 48 c && leb c 57
    || nat_beq c 46
    || nat_beq c 95
    || nat_beq c 58
    || nat_beq c 45

unfoldable pub is_valid_chat_block_id : Text → Bool
unfolding is_id_char
is_valid_chat_block_id value =
    leb 1 (length value) && leb (length value) max_chat_block_id_length && all is_id_char value

-- `_validate_existing_id`
unfoldable pub existing_id : Option Value → Result BlockError Text
existing_id (some (str value)) = do
  guard (is_valid_chat_block_id value) chat_block_invalid_id
  ok value
existing_id _ = err chat_block_invalid_id

-- `_ensure_json_safe`
unfoldable pub ensure_json_safe : Value → Result BlockError (Unit {0})
ensure_json_safe value = map_err (λ _. chat_block_not_json_safe) (validate_json_value value)

-- `_validate_canonical_timestamp`
unfoldable pub canonical_timestamp : Option Value → Result BlockError Text
canonical_timestamp (some (str value)) = do
  guard (is_canonical_timestamp value) chat_block_invalid_timestamp
  ok value
canonical_timestamp _ = err chat_block_invalid_timestamp

-- `block.get(…) == expected`
abbrev pub is_text : Text → Option Value → Bool
is_text expected (some (str value)) = value == expected
is_text expected _ = false

listed_only : List Text → Fields → Bool
listed_only keys end = true
listed_only keys (field none v fields) = false
listed_only keys (field (some k) v fields) = contains keys k && listed_only keys fields

abbrev is_present : Fields → Text → Bool
is_present fields k = elim (get_field k fields) [ none ↦ false | some _ ↦ true ]

-- set(block) == expected
unfoldable pub has_keys : List Text → Fields → Bool
unfolding listed_only
has_keys keys fields = listed_only keys fields && all (is_present fields) keys

-- A test `value in {…}` hashes the value.
text_status : Option Value → Result BlockError TextBlockStatus
text_status (some (str s)) =
    if s == codes "streaming"
    then ok TextBlockStatus.streaming
    else if s == codes "done"
    then ok TextBlockStatus.done
    else err chat_block_invalid_text_status
text_status (some (array _)) = err unhashable
text_status (some (object _)) = err unhashable
text_status _ = err chat_block_invalid_text_status

tool_status : Option Value → Result BlockError ToolBlockStatus
tool_status (some (str s)) =
    if s == codes "generating_arguments"
    then ok ToolBlockStatus.generating_arguments
    else if s == codes "pending"
    then ok ToolBlockStatus.pending
    else if s == codes "done"
    then ok ToolBlockStatus.done
    else if s == codes "error"
    then ok ToolBlockStatus.error
    else err chat_block_invalid_tool_status
tool_status (some (array _)) = err unhashable
tool_status (some (object _)) = err unhashable
tool_status _ = err chat_block_invalid_tool_status

text_content : Option Value → Result BlockError Text
text_content (some (str s)) = ok s
text_content _ = err chat_block_invalid_text_block

abbrev text_keys : List Text
text_keys = codes "id" ∷ codes "type" ∷ codes "content" ∷ codes "status" ∷ codes "timestamp" ∷ []

unfoldable pub copy_text_block : Value → Result BlockError TextBlock
unfolding text_status text_content
copy_text_block (object block) = do
  id ← existing_id (get_field (codes "id") block)
  guard (has_keys text_keys block && is_text (codes "text") (get_field (codes "type") block))
      chat_block_invalid_text_block
  content ← text_content (get_field (codes "content") block)
  status ← text_status (get_field (codes "status") block)
  timestamp ← canonical_timestamp (get_field (codes "timestamp") block)
  ensure_json_safe (object block)
  ok (record { id = id; content = content; status = status; timestamp = timestamp })
copy_text_block _ = err chat_block_invalid_text_block

abbrev tool_keys : List Text
tool_keys =
    codes "id"
    ∷ codes "type"
    ∷ codes "tool_use_id"
    ∷ codes "tool_name"
    ∷ codes "tool_input"
    ∷ codes "status"
    ∷ codes "timestamp"
    ∷ []

-- A text with more than white space.
named : Option Value → Result BlockError Text
named (some (str s)) = do guard (not (is_blank s)) chat_block_invalid_tool; ok s
named _ = err chat_block_invalid_tool

tool_input : Option Value → Result BlockError Fields
tool_input (some (object fields)) = ok fields
tool_input _ = err chat_block_invalid_tool_input

safe_output : Option Value → Result BlockError (Unit {0})
safe_output none = ok tt
safe_output (some v) = ensure_json_safe v

abbrev is_final : ToolBlockStatus → Bool
is_final ToolBlockStatus.done = true
is_final ToolBlockStatus.error = true
is_final _ = false

-- An output is there exactly in a final state.
output_fits : ToolBlockStatus → Option Value → Bool
output_fits status none = not (is_final status)
output_fits status (some v) = is_final status

unfoldable pub copy_tool_block : Value → Result BlockError ToolBlock
unfolding named tool_input safe_output tool_status output_fits
copy_tool_block (object block) = do
  id ← existing_id (get_field (codes "id") block)
  guard
      ((has_keys tool_keys block || has_keys (codes "tool_output" ∷ tool_keys) block)
        && is_text (codes "tool") (get_field (codes "type") block))
      chat_block_invalid_tool_block
  tool_use_id ← named (get_field (codes "tool_use_id") block)
  tool_name ← named (get_field (codes "tool_name") block)
  input ← tool_input (get_field (codes "tool_input") block)
  ensure_json_safe (object input)
  safe_output (get_field (codes "tool_output") block)
  status ← tool_status (get_field (codes "status") block)
  guard (output_fits status (get_field (codes "tool_output") block)) chat_block_invalid_tool_state
  timestamp ← canonical_timestamp (get_field (codes "timestamp") block)
  ensure_json_safe (object block)
  ok (record {
    id = id;
    tool_use_id = tool_use_id;
    tool_name = tool_name;
    tool_input = input;
    tool_output = get_field (codes "tool_output") block;
    status = status;
    timestamp = timestamp;
  })
copy_tool_block _ = err chat_block_invalid_tool_block

unfoldable pub copy_chat_block : Value → Result BlockError Block
copy_chat_block (object block) =
    if is_text (codes "text") (get_field (codes "type") block)
    then (do b ← copy_text_block (object block); ok (text b))
    else if is_text (codes "tool") (get_field (codes "type") block)
    then (do b ← copy_tool_block (object block); ok (tool b))
    else err chat_block_invalid_block
copy_chat_block _ = err chat_block_invalid_block
