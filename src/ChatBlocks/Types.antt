-- ===== src/ChatBlocks/Types.antt =====
-- The two kinds of block, each with the dict that it is.
use auto_reign.Prelude.{Option, none, some, Text, codes}
use auto_reign.Json.{Value, Fields, str, object, end, field}

pub data BlockError : Type 0 where
  chat_block_invalid_id chat_block_invalid_block chat_block_invalid_text : BlockError
  chat_block_invalid_text_block chat_block_invalid_text_status : BlockError
  chat_block_invalid_tool_block chat_block_invalid_tool chat_block_invalid_tool_input : BlockError
  chat_block_invalid_tool_status chat_block_invalid_tool_state : BlockError
  chat_block_invalid_status_transition chat_block_terminal_status : BlockError
  chat_block_tool_input_finalized chat_block_tool_result_mismatch : BlockError
  chat_block_invalid_timestamp chat_block_not_json_safe : BlockError
  -- the TypeError of a membership test on a list or a dict
  unhashable : BlockError

pub data TextBlockStatus : Type 0 where
  streaming done : TextBlockStatus

pub data ToolBlockStatus : Type 0 where
  generating_arguments pending done error : ToolBlockStatus

pub record TextBlock : Type 0 where
  pub id : Text
  pub content : Text
  pub status : TextBlockStatus
  pub timestamp : Text

-- `tool_output` is `none` where the key is absent.
pub record ToolBlock : Type 0 where
  pub id : Text
  pub tool_use_id : Text
  pub tool_name : Text
  pub tool_input : Fields
  pub tool_output : Option Value
  pub status : ToolBlockStatus
  pub timestamp : Text

pub data Block : Type 0 where
  text : TextBlock → Block
  tool : ToolBlock → Block

abbrev pub text_status_name : TextBlockStatus → Text
text_status_name TextBlockStatus.streaming = codes "streaming"
text_status_name TextBlockStatus.done = codes "done"

abbrev pub tool_status_name : ToolBlockStatus → Text
tool_status_name ToolBlockStatus.generating_arguments = codes "generating_arguments"
tool_status_name ToolBlockStatus.pending = codes "pending"
tool_status_name ToolBlockStatus.done = codes "done"
tool_status_name ToolBlockStatus.error = codes "error"

abbrev pub text_fields : TextBlock → Fields
text_fields b = field (some (codes "id")) (str b.id) (
    field (some (codes "type")) (str (codes "text")) (
      field (some (codes "content")) (str b.content) (
        field (some (codes "status")) (str (text_status_name b.status))
          (field (some (codes "timestamp")) (str b.timestamp) end))))

abbrev pub output_fields : Option Value → Fields
output_fields none = end
output_fields (some v) = field (some (codes "tool_output")) v end

abbrev pub tool_fields : ToolBlock → Fields
tool_fields b = field (some (codes "id")) (str b.id) (
    field (some (codes "type")) (str (codes "tool")) (
      field (some (codes "tool_use_id")) (str b.tool_use_id) (
        field (some (codes "tool_name")) (str b.tool_name) (
          field (some (codes "tool_input")) (object b.tool_input) (
            field (some (codes "status")) (str (tool_status_name b.status)) (
              field (some (codes "timestamp")) (str b.timestamp) (output_fields b.tool_output)))))))

abbrev pub block_value : Block → Value
block_value (text b) = object (text_fields b)
block_value (tool b) = object (tool_fields b)

abbrev pub block_id : Block → Text
block_id (text b) = b.id
block_id (tool b) = b.id
