-- ===== src/MessageChain/Messages.antt =====
-- The messages of a chain after normalization, each with the dict that it is.
use auto_reign.Prelude.{ℕ, Bool, pos, Option, none, some, List, [], ◌∷◌, Text, codes, map}
use auto_reign.Json.{Value, Fields, null, bool, int, str, array, object, end, field, items_of}

pub data ChainError : Type 0 where
  messages_chain_invalid_container messages_chain_too_large : ChainError
  messages_chain_invalid_message messages_chain_invalid_role : ChainError
  messages_chain_missing_tool_result messages_chain_duplicate_tool_call_id : ChainError
  messages_chain_orphan_tool_result messages_chain_duplicate_tool_result : ChainError
  messages_chain_tool_name_mismatch messages_chain_tool_result_call_mismatch : ChainError
  messages_chain_invalid_assistant_content messages_chain_invalid_tool_calls : ChainError
  messages_chain_invalid_reasoning_content messages_chain_invalid_model_info : ChainError
  messages_chain_invalid_compaction messages_chain_invalid_tool_call : ChainError
  messages_chain_invalid_tool_call_id messages_chain_invalid_tool_name : ChainError
  messages_chain_invalid_tool_arguments messages_chain_invalid_tool_result_id : ChainError
  messages_chain_invalid_tool_content messages_chain_invalid_tool_error : ChainError

pub record Call : Type 0 where
  pub id : Text
  pub name : Text
  pub arguments : Text

-- A field is `none` where the key is absent; `compaction_version` may be there with no value.
pub record Assistant : Type 0 where
  pub content : Value
  pub tool_calls : List Call
  pub reasoning_content : Option Text
  pub model_info : Option (Option Text × Option Text)
  pub compacted : Option Bool
  pub summary_compacted : Option Bool
  pub compaction_version : Option (Option ℕ)

pub record Tool : Type 0 where
  pub tool_call_id : Text
  pub name : Text
  pub content : Text
  pub is_error : Option Bool

pub data Message : Type 0 where
  assistant : Assistant → Message
  tool : Tool → Message

abbrev pub text_or_null : Option Text → Value
text_or_null none = null
text_or_null (some s) = str s

abbrev pub call_value : Call → Value
call_value call = object (
    field (some (codes "id")) (str call.id) (
      field (some (codes "type")) (str (codes "function")) (
        field (some (codes "function"))
          (object (
            field (some (codes "name")) (str call.name)
              (field (some (codes "arguments")) (str call.arguments) end)))
          end)))

abbrev pub calls_fields : List Call → Fields → Fields
calls_fields [] rest = rest
calls_fields (call ∷ calls) rest =
    field (some (codes "tool_calls")) (array (items_of (map call_value (call ∷ calls)))) rest

abbrev pub model_info_value : Option Text × Option Text → Value
model_info_value (provider, model) = object (
    field (some (codes "provider")) (text_or_null provider)
      (field (some (codes "model")) (text_or_null model) end))

abbrev pub version_value : Option ℕ → Value
version_value none = null
version_value (some n) = int (pos n)

-- A key with its value, where there is one.
abbrev pub optional {ℓ} : {A : Type ℓ} → Text → (A → Value) → Option A → Fields → Fields
optional key value none rest = rest
optional key value (some a) rest = field (some key) (value a) rest

abbrev pub assistant_fields : Assistant → Fields
assistant_fields m = field (some (codes "role")) (str (codes "assistant")) (
    field (some (codes "content")) m.content (
      calls_fields m.tool_calls (
        optional (codes "reasoning_content") str m.reasoning_content (
          optional (codes "model_info") model_info_value m.model_info (
            optional (codes "compacted") bool m.compacted (
              optional (codes "summary_compacted") bool m.summary_compacted
                (optional (codes "compaction_version") version_value m.compaction_version end)))))))

abbrev pub tool_fields : Tool → Fields
tool_fields m = field (some (codes "role")) (str (codes "tool")) (
    field (some (codes "tool_call_id")) (str m.tool_call_id) (
      field (some (codes "name")) (str m.name) (
        field (some (codes "content")) (str m.content)
          (optional (codes "is_error") bool m.is_error end))))

abbrev pub message_value : Message → Value
message_value (assistant m) = object (assistant_fields m)
message_value (tool m) = object (tool_fields m)
