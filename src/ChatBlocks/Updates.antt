-- ===== src/ChatBlocks/Updates.antt =====
-- Blocks are made and changed only here.
use auto_reign.Prelude.{
  Bool, true, false, ◌&&◌, not, Option, none, some, Text, Result, ok, err, ◌>>=◌, ◌>>◌, guard,
  if◌then◌else◌, is_blank, ◌==◌, text_key, ◌++◌,
}
use auto_reign.Json.{Value, Fields, str, object}
use auto_reign.Datetime.{Datetime, timestamp}
use auto_reign.RuntimeTypes.{ToolCall, ToolResult}
use auto_reign.ChatBlocks.Types.{
  BlockError, chat_block_invalid_id, chat_block_invalid_tool, chat_block_invalid_tool_status,
  chat_block_invalid_status_transition, chat_block_terminal_status, chat_block_tool_input_finalized,
  chat_block_tool_result_mismatch, chat_block_invalid_timestamp, TextBlockStatus, ToolBlockStatus,
  TextBlock, ToolBlock, text_fields, tool_fields,
}
use auto_reign.ChatBlocks.Copy.{
  is_valid_chat_block_id, ensure_json_safe, copy_text_block, copy_tool_block,
}

-- What a call takes from outside: a fresh `uuid4` and the clock.
pub record Fresh : Type 0 where
  pub uuid : Text
  pub now : Datetime

-- A `datetime` argument: without a time zone, or a moment that `astimezone` takes to UTC.
pub data Moment : Type 0 where
  naive : Moment
  aware : Datetime → Moment

-- `_timestamp`
block_timestamp : Fresh → Option Moment → Result BlockError Text
block_timestamp fresh none = ok (timestamp fresh.now)
block_timestamp fresh (some naive) = err chat_block_invalid_timestamp
block_timestamp fresh (some (aware moment)) = ok (timestamp moment)

-- `_validate_id`
validate_id : Option Text → Result BlockError (Unit {0})
validate_id none = ok tt
validate_id (some value) = guard (is_valid_chat_block_id value) chat_block_invalid_id

-- `block_id or str(uuid4())`; an empty id has been refused.
id_or_uuid : Fresh → Option Text → Text
id_or_uuid fresh none = fresh.uuid
id_or_uuid fresh (some value) = value

unfoldable pub create_text_block :
    Fresh → Text → TextBlockStatus → Option Text → Option Moment → Result BlockError TextBlock
unfolding block_timestamp validate_id id_or_uuid
create_text_block fresh content status block_id moment = do
  validate_id block_id
  stamp ← block_timestamp fresh moment
  let block : TextBlock = record {
    id = id_or_uuid fresh block_id;
    content = content;
    status = status;
    timestamp = stamp;
  }
  copy_text_block (object (text_fields block))

abbrev pub text_is_done : TextBlockStatus → Bool
text_is_done TextBlockStatus.done = true
text_is_done TextBlockStatus.streaming = false

abbrev pub or_status {ℓ} : {A : Type ℓ} → Option A → A → A
or_status none old = old
or_status (some new) old = new

unfoldable pub append_text_block :
    TextBlock → Text → Option TextBlockStatus → Result BlockError TextBlock
append_text_block block content status = do
  current ← copy_text_block (object (text_fields block))
  guard (not (text_is_done current.status)) chat_block_terminal_status
  copy_text_block (
      object (
        text_fields (record current {
          content = current.content ++ content;
          status = or_status status current.status;
        })))

abbrev pub starts_tool : ToolBlockStatus → Bool
starts_tool ToolBlockStatus.generating_arguments = true
starts_tool ToolBlockStatus.pending = true
starts_tool _ = false

unfoldable pub create_tool_block :
    Fresh → ToolCall → ToolBlockStatus → Option Text → Option Moment → Result BlockError ToolBlock
unfolding block_timestamp validate_id id_or_uuid
create_tool_block fresh call status block_id moment = do
  validate_id block_id
  guard (not (is_blank call.id) && not (is_blank call.name)) chat_block_invalid_tool
  guard (starts_tool status) chat_block_invalid_tool_status
  ensure_json_safe (object call.arguments)
  stamp ← block_timestamp fresh moment
  let block : ToolBlock = record {
    id = id_or_uuid fresh block_id;
    tool_use_id = call.id;
    tool_name = call.name;
    tool_input = call.arguments;
    tool_output = none;
    status = status;
    timestamp = stamp;
  }
  copy_tool_block (object (tool_fields block))

abbrev pub tool_is_final : ToolBlockStatus → Bool
tool_is_final ToolBlockStatus.done = true
tool_is_final ToolBlockStatus.error = true
tool_is_final _ = false

-- `next_status in allowed[old_status]`
unfoldable pub allowed : ToolBlockStatus → ToolBlockStatus → Bool
allowed ToolBlockStatus.generating_arguments ToolBlockStatus.done = false
allowed ToolBlockStatus.generating_arguments _ = true
allowed ToolBlockStatus.pending ToolBlockStatus.generating_arguments = false
allowed ToolBlockStatus.pending _ = true
allowed ToolBlockStatus.done ToolBlockStatus.done = true
allowed ToolBlockStatus.done _ = false
allowed ToolBlockStatus.error ToolBlockStatus.error = true
allowed ToolBlockStatus.error _ = false

abbrev pub is_generating : ToolBlockStatus → Bool
is_generating ToolBlockStatus.generating_arguments = true
is_generating _ = false

with_input : ToolBlock → Option Fields → Result BlockError ToolBlock
with_input current none = ok current
with_input current (some input) = do
  guard (is_generating current.status) chat_block_tool_input_finalized
  ensure_json_safe (object input)
  ok (record current { tool_input = input })

with_output : ToolBlock → Option Value → Result BlockError ToolBlock
with_output current none = ok current
with_output current (some output) = do
  ensure_json_safe output
  ok (record current { tool_output = some output })

-- Each of the three is `none` where the caller leaves it out.
unfoldable pub update_tool_block :
    ToolBlock → Option Fields → Option Value → Option ToolBlockStatus → Result BlockError ToolBlock
unfolding with_input with_output
update_tool_block block input output status = do
  current ← copy_tool_block (object (tool_fields block))
  let next_status = or_status status current.status
  guard (not (tool_is_final current.status)) chat_block_terminal_status
  guard (allowed current.status next_status) chat_block_invalid_status_transition
  with_new_input ← with_input current input
  with_new_output ← with_output with_new_input output
  copy_tool_block (object (tool_fields (record with_new_output { status = next_status })))

unfoldable pub apply_tool_result : ToolBlock → ToolResult → Result BlockError ToolBlock
apply_tool_result block result =
    if result.call_id == block.tool_use_id
    then update_tool_block block none (some (str result.content))
        (some (if result.is_error then ToolBlockStatus.error else ToolBlockStatus.done))
    else err chat_block_tool_result_mismatch
