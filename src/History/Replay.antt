-- ===== src/History/Replay.antt =====
-- What a model is shown of an answer, by its status.
use auto_reign.Prelude.{
  ◌≡◌, refl, ◌⊎◌, inl, inr, Option, some, List, [], ◌∷◌, map, Text, codes, Result-cases, text_key,
  arith,
}
use auto_reign.Json.{Value, str, object, Fields, get_field}
use auto_reign.MessageChain.{Message, message_value, validate_messages_chain}
use auto_reign.MessageChain.Trace.{IsChain}
use auto_reign.MessageChain.Sound.{validate_messages_chain-IsChain}
use auto_reign.Tasks.{Status}
use auto_reign.History.Projector.{
  message_of, value_message, values_in, or_null, chain_or_value, project_assistant,
}

-- The text of an answer that is stored as a value.
abbrev pub HasText : Option Value → Text → Type 0
HasText (some (object fields)) s = (get_field (codes "value") fields ≡ some (str s)) × ¬ (s ≡ [])
HasText _ s = ⊥

-- One message with that text and no calls, or none where there is no text.
abbrev pub IsPlain : Option Value → List Value → Type 0
IsPlain result messages =
    ((s : Text) × HasText result s × (messages ≡ message_of (codes "assistant") s ∷ []))
    ⊎ ((messages ≡ []) × ¬ ((s : Text) × HasText result s))

abbrev pub IsReplayed : Status → Option Value → List Value → Type 0
IsReplayed Status.pending result messages = messages ≡ []
IsReplayed Status.running result messages = messages ≡ []
IsReplayed Status.failed result messages = IsPlain result messages
IsReplayed Status.cancelled result messages = IsPlain result messages
IsReplayed Status.completed result messages =
    ((chain : List Message) × IsChain chain × (messages ≡ map message_value chain))
    ⊎ IsPlain result messages

value_in_fields-IsPlain :
    (fields : Fields) (value : Option Value)
    → get_field (codes "value") fields ≡ value
    → IsPlain (some (object fields)) (value_message value)
unfolding value_message
value_in_fields-IsPlain fields (some (str [])) h =
    inr (refl, λ (s, has). let empty : s ≡ [] = ground arith in has.1 empty)
value_in_fields-IsPlain fields (some (str (c ∷ s))) h = inl (c ∷ s, (h, λ e. cc e), refl)
value_in_fields-IsPlain fields _ h = inr (refl, λ (s, has). cc (has.0, h))

value_message-IsPlain :
    (result : Option Value)
    → IsPlain result (value_message (get_field (codes "value") (values_in result)))
unfolding value_message
value_message-IsPlain (some (object fields)) =
    value_in_fields-IsPlain fields (get_field (codes "value") fields) refl
value_message-IsPlain _ = inr (refl, λ (s, has). has)

-- An answer in progress is not replayed; one that failed or was cancelled is replayed as one plain
-- message with exactly the text that is stored as its value, or not at all where no such text is
-- stored; one that was completed as a well-formed chain of messages, or in the same way.
pub project_assistant-IsReplayed :
    (loads : Text → Option Value) (status : Status) (result : Option Value)
    → IsReplayed status result (project_assistant loads status result)
unfolding project_assistant chain_or_value
project_assistant-IsReplayed loads Status.pending result = refl
project_assistant-IsReplayed loads Status.running result = refl
project_assistant-IsReplayed loads Status.failed result = value_message-IsPlain result
project_assistant-IsReplayed loads Status.cancelled result = value_message-IsPlain result
project_assistant-IsReplayed loads Status.completed result =
    let raw = or_null (get_field (codes "messages_chain") (values_in result)) in
    elim (Result-cases (validate_messages_chain loads raw)) [
      | inl (chain, valid) ↦
          rw valid (inl (chain, validate_messages_chain-IsChain loads raw chain valid, refl))
      | inr (e, raised) ↦ rw raised (inr (value_message-IsPlain result))
    ]
