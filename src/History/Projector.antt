-- ===== src/History/Projector.antt =====
-- The messages that a stored subtask is replayed as.
use auto_reign.Prelude.{
  Option, none, some, List, [], ◌∷◌, map, Text, codes, Result, ok, err, text_key,
}
use auto_reign.Json.{Value, null, str, object, Fields, end, field, get_field}
use auto_reign.MessageChain.{Message, ChainError, message_value, validate_messages_chain}
use auto_reign.Tasks.{Status}

abbrev pub message_of : Text → Text → Value
message_of role content =
    object
      (field (some (codes "role")) (str role) (field (some (codes "content")) (str content) end))

-- `project_user`
unfoldable pub project_user : Text → List Value
project_user prompt = message_of (codes "user") prompt ∷ []

-- `_value_message`
unfoldable pub value_message : Option Value → List Value
value_message (some (str [])) = []
value_message (some (str (c ∷ s))) = message_of (codes "assistant") (c ∷ s) ∷ []
value_message _ = []

abbrev pub values_in : Option Value → Fields
values_in (some (object values)) = values
values_in _ = end

-- `dict.get` gives `None` for a key that is not there.
abbrev pub or_null : Option Value → Value
or_null none = null
or_null (some v) = v

unfoldable pub chain_or_value : Result ChainError (List Message) → Option Value → List Value
unfolding value_message
chain_or_value (ok messages) value = map message_value messages
chain_or_value (err e) value = value_message value

-- `project_assistant`
unfoldable pub project_assistant : (Text → Option Value) → Status → Option Value → List Value
unfolding chain_or_value
project_assistant loads Status.pending result = []
project_assistant loads Status.running result = []
project_assistant loads Status.failed result =
    value_message (get_field (codes "value") (values_in result))
project_assistant loads Status.cancelled result =
    value_message (get_field (codes "value") (values_in result))
project_assistant loads Status.completed result =
    chain_or_value
      (validate_messages_chain loads
        (or_null (get_field (codes "messages_chain") (values_in result))))
      (get_field (codes "value") (values_in result))
