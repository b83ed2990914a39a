-- ===== src/MessageChain/Validate.antt =====
-- `validate_messages_chain`: one pass over the messages, with what has been declared and answered.
use auto_reign.Prelude.{
  ℕ, ◌+◌, Bool, true, false, not, Option, none, some, List, [], ◌∷◌, ◌++◌, Text, codes, map, Result,
  ok, err, ◌>>=◌, ◌>>◌, guard, map_err, leb, if◌then◌else◌, length, contains, remove, ◌==◌,
  text_key,
}
use auto_reign.Prelude.Dict
use auto_reign.Prelude.Dict.{Dict}
use auto_reign.Json.{
  Value, Items, str, array, object, nil, cons, get_field, items_of, values_of, canonical_json,
}
use auto_reign.MessageChain.Messages.{
  ChainError, messages_chain_invalid_container, messages_chain_too_large,
  messages_chain_invalid_message, messages_chain_invalid_role, messages_chain_missing_tool_result,
  messages_chain_duplicate_tool_call_id, messages_chain_orphan_tool_result,
  messages_chain_duplicate_tool_result, messages_chain_tool_name_mismatch, Call, Assistant, Tool,
  Message, assistant, tool, message_value,
}
use auto_reign.MessageChain.Normalize.{normalize_assistant, normalize_tool}

abbrev pub max_message_chain_messages : ℕ
max_message_chain_messages = 256

abbrev pub max_message_chain_tool_calls : ℕ
max_message_chain_tool_calls = 128

-- The local variables of the loop.
pub record ChainState : Type 0 where
  pub normalized : List Message
  pub declared : Dict Text Text
  pub unresolved : List Text
  pub resolved : List Text
  pub tool_call_count : ℕ

abbrev pub initial : ChainState
initial = record {
  normalized = [];
  declared = [];
  unresolved = [];
  resolved = [];
  tool_call_count = 0;
}

abbrev pub is_empty {ℓ} : {A : Type ℓ} → List A → Bool
is_empty [] = true
is_empty (x ∷ xs) = false

-- The body of the loop over an assistant's tool calls.
unfoldable pub declare_call : ChainState → Call → Result ChainError ChainState
declare_call s call = do
  guard (leb (s.tool_call_count + 1) max_message_chain_tool_calls) messages_chain_too_large
  guard (not (Dict.has call.id s.declared)) messages_chain_duplicate_tool_call_id
  ok (record s {
    tool_call_count = s.tool_call_count + 1;
    declared = Dict.put call.id call.name s.declared;
    unresolved = call.id ∷ s.unresolved;
  })

unfoldable pub declare_calls : ChainState → List Call → Result ChainError ChainState
declare_calls s [] = ok s
declare_calls s (call ∷ calls) = do s ← declare_call s call; declare_calls s calls

abbrev pub append_message : ChainState → Message → ChainState
append_message s m = record s { normalized = s.normalized ++ m ∷ [] }

unfoldable pub accept_assistant : ChainState → Assistant → Result ChainError ChainState
accept_assistant s m = do s ← declare_calls s m.tool_calls; ok (append_message s (assistant m))

unfoldable pub accept_tool : ChainState → Tool → Result ChainError ChainState
accept_tool s m = elim (Dict.get m.tool_call_id s.declared) [
  | none ↦ err messages_chain_orphan_tool_result
  | some name ↦ do
    guard (not (contains s.resolved m.tool_call_id)) messages_chain_duplicate_tool_result
    guard (name == m.name) messages_chain_tool_name_mismatch
    ok (
        append_message
          (record s {
            resolved = m.tool_call_id ∷ s.resolved;
            unresolved = remove m.tool_call_id s.unresolved;
          })
          (tool m))
]

abbrev pub role_is : Text → Option Value → Bool
role_is role (some (str s)) = s == role
role_is role _ = false

-- Behind the loop.
unfoldable pub close_chain : ChainState → Result ChainError (List Message)
close_chain s = do
  guard (is_empty s.unresolved) messages_chain_missing_tool_result
  map_err (λ _. messages_chain_too_large)
      (canonical_json (array (items_of (map message_value s.normalized))))
  ok s.normalized

module _ (loads : Text → Option Value) where
  -- One round of the loop over the messages.
  unfoldable pub step : ChainState → Value → Result ChainError ChainState
  step s (object raw) =
      if role_is (codes "assistant") (get_field (codes "role") raw)
      then (do
        guard (is_empty s.unresolved) messages_chain_missing_tool_result
        m ← normalize_assistant loads raw
        accept_assistant s m)
      else if role_is (codes "tool") (get_field (codes "role") raw)
      then (do m ← normalize_tool raw; accept_tool s m)
      else err messages_chain_invalid_role
  step s _ = err messages_chain_invalid_message

  unfoldable pub steps : ChainState → Items → Result ChainError ChainState
  steps s nil = ok s
  steps s (cons v items) = do s ← step s v; steps s items

  -- The messages that are returned stand for their dicts, `message_value`.
  unfoldable pub validate_messages_chain : Value → Result ChainError (List Message)
  validate_messages_chain (array (cons v items)) = do
    guard (leb (length (values_of (cons v items))) max_message_chain_messages)
        messages_chain_too_large
    s ← steps initial (cons v items)
    close_chain s
  validate_messages_chain _ = err messages_chain_invalid_container
