-- ===== src/RuntimeTypes.antt =====
-- backend/app/services/runtime_types.py: what the agent runtime, its tools and the event reducer
-- hand to one another.
use auto_reign.Prelude.{ℕ, Bool, Option, List, Text}
use auto_reign.Json.{Value, Fields}

-- `arguments` is a dict.
pub record ToolCall : Type 0 where
  pub id : Text
  pub name : Text
  pub arguments : Fields

-- `metadata` is a dict, but its readers test that.
pub record ToolResult : Type 0 where
  pub call_id : Text
  pub content : Text
  pub is_error : Bool
  pub metadata : Value

-- `str | list[dict[str, object]] | None`; the members of the list are tested by its readers.
pub data AssistantContent : Type 0 where
  none_content : AssistantContent
  text_content : Text → AssistantContent
  block_content : List Value → AssistantContent

pub record AssistantMessageEvent : Type 0 where
  pub content : AssistantContent
  pub tool_calls : List ToolCall
  pub reasoning_content : Option Text
  pub provider : Option Text
  pub model : Option Text
  pub compacted : Bool
  pub summary_compacted : Bool
  pub compaction_version : Option ℕ

pub data RuntimeEvent : Type 0 where
  text_delta : Text → RuntimeEvent
  assistant_message : AssistantMessageEvent → RuntimeEvent
  tool_start : ToolCall → RuntimeEvent
  tool_result : ToolCall → ToolResult → RuntimeEvent
