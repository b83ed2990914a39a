-- ===== src/Reducer/State.antt =====
-- The object's fields, its errors and what it emits.
use auto_reign.Prelude.{ℕ, Bool, not, Option, none, List, [], Text, contains, any, text_key}
use auto_reign.Prelude.Dict.{Dict}
use auto_reign.Prelude.Exec.{Exec}
use auto_reign.Json.{Value, Fields}
use auto_reign.RuntimeTypes.{ToolCall}
use auto_reign.ChatBlocks.{Block, BlockError}
use auto_reign.MessageChain.{ChainError}

pub data ReducerError : Type 0 where
  runtime_event_invalid runtime_event_unresolved_tool_call : ReducerError
  runtime_event_text_mismatch runtime_event_duplicate_tool_call : ReducerError
  runtime_event_orphan_tool_start runtime_event_duplicate_tool_start : ReducerError
  runtime_event_tool_start_mismatch runtime_event_orphan_tool_result : ReducerError
  runtime_event_duplicate_tool_result runtime_event_tool_result_mismatch : ReducerError
  runtime_event_model_mismatch runtime_event_pending_tool_block : ReducerError
  runtime_event_invalid_terminal : ReducerError
  runtime_result_too_large : ReducerError
  -- the errors of the modules that are called
  block_error : BlockError → ReducerError
  chain_error : ChainError → ReducerError
  -- an IndexError, a KeyError, and the TypeError of a membership test on a list or a dict
  index_error key_error type_error : ReducerError

pub data Emission : Type 0 where
  chunk : (block_id : Text) (block_offset offset : ℕ) (content : Text) → Emission
  block_created block_updated : Block → Emission

pub record Compaction : Type 0 where
  pub message_index : ℕ
  pub compacted : Bool
  pub summary_compacted : Bool
  pub version : Option ℕ

pub record Reducer : Type 0 where
  pub provider : Text
  pub model : Text
  pub messages_chain : List Value
  pub blocks : List Block
  pub context_compactions : List Compaction
  pub sources : List Value
  pub termination_reason : Option Text
  pub declared : Dict Text ToolCall
  pub started : List Text
  pub resolved : List Text
  pub tool_block_indexes : Dict Text ℕ
  pub text_block_index : Option ℕ
  pub pending_deltas : List Text
  pub value_parts : List Text
  pub value_offset : ℕ
  pub text_block_offset : ℕ

-- `__init__`
abbrev pub new : Text → Text → Reducer
new provider model = record {
  provider = provider;
  model = model;
  messages_chain = [];
  blocks = [];
  context_compactions = [];
  sources = [];
  termination_reason = none;
  declared = [];
  started = [];
  resolved = [];
  tool_block_indexes = [];
  text_block_index = none;
  pending_deltas = [];
  value_parts = [];
  value_offset = 0;
  text_block_offset = 0;
}

abbrev pub Method : Type 0 → Type 0
Method A = Exec Reducer ReducerError A

-- What the reducer uses of Python that is not modelled: `json.loads`, whose `none` is a ValueError,
-- and `==` on the arguments of two calls.
pub record Python : Type 0 where
  pub loads : Text → Option Value
  pub same_arguments : Fields → Fields → Bool

-- Whether `_unresolved_calls()` holds an id.
unfoldable pub has_unresolved : Reducer → Bool
has_unresolved s = any (λ entry. not (contains s.resolved entry.0)) s.declared
