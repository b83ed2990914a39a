-- ===== src/ChatBlocks/Lifecycle.antt =====
-- How a block may change: what an accepted call leaves alone, and the order of the states.
use auto_reign.Prelude.{
  ◌≡◌, sym, ◌∙◌, true, false, ◌++◌, Option, none, some, Text, ok, arith, if◌then◌else◌, text_key,
  inl, inr, Result-cases, text_beq_iff,
}
use auto_reign.Json.{Value, Fields, str, object}
use auto_reign.Datetime.{timestamp}
use auto_reign.RuntimeTypes.{ToolCall, ToolResult}
use auto_reign.ChatBlocks.Types.{
  TextBlockStatus, ToolBlockStatus, TextBlock, ToolBlock, text_fields, tool_fields,
}
use auto_reign.ChatBlocks.Copy.{copy_text_block, copy_tool_block}
use auto_reign.ChatBlocks.Updates.{
  or_status, is_generating, starts_tool, Fresh, create_text_block, append_text_block,
  create_tool_block, tool_is_final, allowed, update_tool_block, apply_tool_result,
}
use auto_reign.ChatBlocks.Laws.{
  IsSoundText, IsSoundTool, output_matches, copy_text_block-text_fields,
  copy_tool_block-tool_fields, check_text-ok, check_tool-ok,
}

copy_text_block-ok :
    (b c : TextBlock) → copy_text_block (object (text_fields b)) ≡ ok c → (c ≡ b) × IsSoundText b
copy_text_block-ok b c h = check_text-ok b c (sym (copy_text_block-text_fields b) ∙ h)

copy_tool_block-ok :
    (b c : ToolBlock) → copy_tool_block (object (tool_fields b)) ≡ ok c → (c ≡ b) × IsSoundTool b
copy_tool_block-ok b c h = check_tool-ok b c (sym (copy_tool_block-tool_fields b) ∙ h)

-- A text block after an accepted append.
pub record Appended (old : TextBlock) (added : Text) (asked : Option TextBlockStatus)
    (new : TextBlock) : Type 0 where
  pub id : new.id ≡ old.id
  pub timestamp : new.timestamp ≡ old.timestamp
  pub content : new.content ≡ old.content ++ added
  pub was_streaming : old.status ≡ TextBlockStatus.streaming
  pub status : new.status ≡ or_status asked old.status
  pub sound : IsSoundText new

-- An append is accepted only on a streaming block, puts its content at the end, and leaves a sound
-- block with the same id and timestamp, in the state that was asked for.
pub append_text_block-Appended :
    (b c : TextBlock) (content : Text) (status : Option TextBlockStatus)
    → append_text_block b content status ≡ ok c
    → Appended b content status c
unfolding append_text_block
append_text_block-Appended b c content status h = ground (
  arith,
  copy_text_block-text_fields b,
  copy_text_block-text_fields
      (record b { content = b.content ++ content; status = or_status status b.status }),
)

abbrev pub or_else {ℓ} : {A : Type ℓ} → Option A → Option A → Option A
or_else none old = old
or_else (some new) old = some new

-- A tool block after an accepted update.
pub record Updated (old : ToolBlock) (written : Option Value) (asked : Option ToolBlockStatus)
    (new : ToolBlock) : Type 0 where
  pub id : new.id ≡ old.id
  pub tool_use_id : new.tool_use_id ≡ old.tool_use_id
  pub tool_name : new.tool_name ≡ old.tool_name
  pub timestamp : new.timestamp ≡ old.timestamp
  pub status : new.status ≡ or_status asked old.status
  pub was_open : tool_is_final old.status ≡ false
  pub transition : allowed old.status new.status ≡ true
  pub input_kept : is_generating old.status ≡ false → new.tool_input ≡ old.tool_input
  pub output : new.tool_output ≡ or_else written old.tool_output
  pub output_iff_final : output_matches new ≡ true
  pub sound : IsSoundTool new

abbrev updated : ToolBlock → Option Fields → Option Value → Option ToolBlockStatus → ToolBlock
updated b input output status = record b {
  tool_input = or_status input b.tool_input;
  tool_output = or_else output b.tool_output;
  status = or_status status b.status;
}

-- The same, where the block has been copied.
update_current :
    (b c : ToolBlock) (input : Option Fields) (output : Option Value)
    (status : Option ToolBlockStatus)
    → copy_tool_block (object (tool_fields b)) ≡ ok b
    → update_tool_block b input output status ≡ ok c
    → Updated b output status c
unfolding update_tool_block
update_current b c none none status copied h =
    ground (arith, copy_tool_block-ok (updated b none none status) c)
update_current b c none (some v) status copied h =
    ground (arith, copy_tool_block-ok (updated b none (some v) status) c)
update_current b c (some i) none status copied h =
    ground (arith, copy_tool_block-ok (updated b (some i) none status) c)
update_current b c (some i) (some v) status copied h =
    ground (arith, copy_tool_block-ok (updated b (some i) (some v) status) c)

-- An update is accepted only on a block that is not final and along a transition that the table
-- allows; it never changes the identity of the block, nor its input once that was generated, and
-- leaves an output exactly if the new state is final.
pub update_tool_block-Updated :
    (b c : ToolBlock) (input : Option Fields) (output : Option Value)
    (status : Option ToolBlockStatus)
    → update_tool_block b input output status ≡ ok c
    → Updated b output status c
unfolding update_tool_block
update_tool_block-Updated b c input output status h =
    elim (Result-cases (copy_tool_block (object (tool_fields b)))) [
      | inl (current, copied) ↦
          update_current b c input output status
            (let (same, _) = copy_tool_block-ok b current copied in rw same at copied) h
      | inr (raised, e) ↦ ground arith
    ]

-- The block of a call behind the call's result.
pub record Resolved (old : ToolBlock) (result : ToolResult) (new : ToolBlock) : Type 0 where
  pub call : result.call_id ≡ old.tool_use_id
  pub was_pending : result.is_error ≡ false → old.status ≡ ToolBlockStatus.pending
  pub updated :
      Updated old
        (some (str result.content))
        (some (if result.is_error then ToolBlockStatus.error else ToolBlockStatus.done))
        new

-- A result is taken only by the block of its own call, while that is not final, and closes it with
-- the result's text as its output.
pub apply_tool_result-Resolved :
    (b c : ToolBlock) (result : ToolResult)
    → apply_tool_result b result ≡ ok c
    → Resolved b result c
unfolding apply_tool_result allowed
apply_tool_result-Resolved b c result h = ground (
  arith,
  text_beq_iff result.call_id b.tool_use_id,
  update_tool_block-Updated b c none (some (str result.content))
      (some (if result.is_error then ToolBlockStatus.error else ToolBlockStatus.done)),
)

abbrev pub new_tool_block : Fresh → ToolCall → ToolBlockStatus → ToolBlock
new_tool_block fresh call status = record {
  id = fresh.uuid;
  tool_use_id = call.id;
  tool_name = call.name;
  tool_input = call.arguments;
  tool_output = none;
  status = status;
  timestamp = timestamp fresh.now;
}

-- A text block that has just been made.
pub create_text_block-ok :
    (fresh : Fresh) (content : Text) (status : TextBlockStatus) (b : TextBlock)
    → create_text_block fresh content status none none ≡ ok b
    → (b ≡ record {
      id = fresh.uuid;
      content = content;
      status = status;
      timestamp = timestamp fresh.now;
    })
      × IsSoundText b
unfolding create_text_block
create_text_block-ok fresh content status b h = ground (
  arith,
  copy_text_block-ok
      (record {
        id = fresh.uuid;
        content = content;
        status = status;
        timestamp = timestamp fresh.now;
      })
      b,
)

-- A tool block that has just been made for a call: without an output, and sound.
pub create_tool_block-ok :
    (fresh : Fresh) (call : ToolCall) (status : ToolBlockStatus) (b : ToolBlock)
    → create_tool_block fresh call status none none ≡ ok b
    → (b ≡ new_tool_block fresh call status) × (starts_tool status ≡ true) × IsSoundTool b
unfolding create_tool_block
create_tool_block-ok fresh call status b h =
    ground (arith, copy_tool_block-ok (new_tool_block fresh call status) b)
