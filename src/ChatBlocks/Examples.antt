-- ===== src/ChatBlocks/Examples.antt =====
-- A text block and a tool block, and a step of each.
use auto_reign.Prelude.{◌≡◌, refl, ◌↔◌, codes, some, none, ok, false, is_blank, is_space}
use auto_reign.Json.{
  str, null, end, validate_json_value, canonical_json, serialize, sized, scan, round, visit,
  count_keys, key_bytes, string_bytes, utf8_size, add_node, add_bytes, dumps, dump_items,
  dump_fields, decimal, digits_before, int_chars,
}
use auto_reign.Datetime.{
  is_leap, days_in_month, datetime, in_range, two_digits, four_digits, six_digits, isoformat,
  number, expect, fraction, fromisoformat, timestamp, without_z, is_written, is_canonical_timestamp,
}
use auto_reign.RuntimeTypes.{ToolResult}
use auto_reign.ChatBlocks.Types.{
  TextBlock, ToolBlock, TextBlockStatus, ToolBlockStatus, tool, block_value,
}
use auto_reign.ChatBlocks.Copy.{
  is_valid_chat_block_id, existing_id, ensure_json_safe, canonical_timestamp, has_keys,
  copy_text_block, copy_tool_block, copy_chat_block,
}
use auto_reign.ChatBlocks.Updates.{append_text_block, allowed, update_tool_block, apply_tool_result}
use auto_reign.ChatBlocks.Laws.{IsSound, copy_chat_block-block_value}
use auto_reign.ChatBlocks.Lifecycle.{
  Appended, append_text_block-Appended, Updated, update_tool_block-Updated, Resolved,
  apply_tool_result-Resolved,
}

abbrev begun : TextBlock
begun = record {
  id = codes "b1";
  content = codes "Hel";
  status = TextBlockStatus.streaming;
  timestamp = codes "2025-02-28T12:00:00Z";
}

abbrev finished : TextBlock
finished = record begun { content = codes "Hello"; status = TextBlockStatus.done }

abbrev asked : ToolBlock
asked = record {
  id = codes "b2";
  tool_use_id = codes "c1";
  tool_name = codes "search";
  tool_input = end;
  tool_output = none;
  status = ToolBlockStatus.pending;
  timestamp = codes "2025-02-28T12:00:00.000001Z";
}

abbrev answered : ToolBlock
answered = record asked { tool_output = some (str (codes "found")); status = ToolBlockStatus.done }

abbrev found : ToolResult
found = record { call_id = codes "c1"; content = codes "found"; is_error = false; metadata = null }

steps-ok :
    (append_text_block begun (codes "lo") (some TextBlockStatus.done) ≡ ok finished)
    × (update_tool_block asked none (some (str (codes "found"))) (some ToolBlockStatus.done)
        ≡ ok answered)
    × (apply_tool_result asked found ≡ ok answered)
unfolding append_text_block update_tool_block apply_tool_result allowed copy_text_block
    copy_tool_block existing_id is_valid_chat_block_id ensure_json_safe canonical_timestamp has_keys
    is_canonical_timestamp is_written timestamp isoformat two_digits four_digits six_digits
    fromisoformat number expect fraction datetime in_range days_in_month is_leap without_z
    validate_json_value canonical_json serialize sized scan round visit count_keys key_bytes
    string_bytes utf8_size add_node add_bytes dumps dump_items dump_fields decimal digits_before
    int_chars is_blank is_space
steps-ok = (refl, refl, refl)

append_text_block-Appended_example :
    Appended begun (codes "lo") (some TextBlockStatus.done) finished
append_text_block-Appended_example =
    append_text_block-Appended begun finished (codes "lo") (some TextBlockStatus.done) steps-ok.0

update_tool_block-Updated_example :
    Updated asked (some (str (codes "found"))) (some ToolBlockStatus.done) answered
update_tool_block-Updated_example =
    update_tool_block-Updated asked answered none (some (str (codes "found")))
      (some ToolBlockStatus.done) steps-ok.1

apply_tool_result-Resolved_example : Resolved asked found answered
apply_tool_result-Resolved_example = apply_tool_result-Resolved asked answered found steps-ok.2

copy_chat_block-block_value_example :
    (copy_chat_block (block_value (tool answered)) ≡ ok (tool answered))
    ↔ ((tool answered ≡ tool answered) × IsSound (tool answered))
copy_chat_block-block_value_example = copy_chat_block-block_value (tool answered) (tool answered)
