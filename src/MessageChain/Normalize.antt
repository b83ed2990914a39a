-- ===== src/MessageChain/Normalize.antt =====
-- `_normalize_assistant`, `_normalize_tool_call` and `_normalize_tool`: a raw message is read key by
-- key, and what is not known of it is dropped.
use auto_reign.Prelude.{
  ℕ, suc, Bool, true, false, ◌&&◌, not, Option, none, some, List, [], ◌∷◌, Text, codes, Result, ok,
  err, ◌>>=◌, ◌>>◌, guard, leb, pos, length, is_blank, ◌==◌, text_key,
}
use auto_reign.Json.{
  Value, Fields, Items, null, bool, int, str, array, object, nil, cons, get_field, canonical_json,
  max_json_string_chars, max_json_canonical_bytes, utf8_size,
}
use auto_reign.MessageChain.Messages.{
  ChainError, messages_chain_invalid_assistant_content, messages_chain_invalid_tool_calls,
  messages_chain_invalid_reasoning_content, messages_chain_invalid_model_info,
  messages_chain_invalid_compaction, messages_chain_invalid_tool_call,
  messages_chain_invalid_tool_call_id, messages_chain_invalid_tool_name,
  messages_chain_invalid_tool_arguments, messages_chain_invalid_tool_result_id,
  messages_chain_invalid_tool_content, messages_chain_invalid_tool_error, Call, Assistant, Tool,
}
use auto_reign.MessageChain.Serialize.{canonical_arguments}

-- `raw.get(key)`, where a missing key and `None` are the same.
abbrev pub given : Option Value → Option Value
given (some null) = none
given v = v

abbrev pub is_ok {ℓ κ} : {E : Type ℓ} {A : Type κ} → Result E A → Bool
is_ok (ok a) = true
is_ok (err e) = false

unfoldable pub all_dicts : Items → Bool
all_dicts nil = true
all_dicts (cons (object _) items) = all_dicts items
all_dicts (cons _ items) = false

-- `_assistant_content_is_valid`
unfoldable pub assistant_content_is_valid : Value → Bool
unfolding all_dicts
assistant_content_is_valid null = is_ok (canonical_json null)
assistant_content_is_valid (str s) = is_ok (canonical_json (str s))
assistant_content_is_valid (array items) = all_dicts items && is_ok (canonical_json (array items))
assistant_content_is_valid _ = false

-- A missing content is `None`.
abbrev pub content_or_null : Option Value → Value
content_or_null none = null
content_or_null (some v) = v

unfoldable pub named : Option Value → ChainError → Result ChainError Text
named (some (str s)) e = do guard (not (is_blank s)) e; ok s
named _ e = err e

unfoldable pub text_or : Option Value → ChainError → Result ChainError Text
text_or (some (str s)) e = ok s
text_or _ e = err e

unfoldable pub dict_or : Option Value → ChainError → Result ChainError Fields
dict_or (some (object fields)) e = ok fields
dict_or _ e = err e

abbrev pub is_function : Option Value → Bool
is_function (some (str s)) = s == codes "function"
is_function _ = false

-- The limits on the text of a call's arguments; a UnicodeError is a refusal too.
unfoldable pub arguments_fit : Text → Bool
arguments_fit arguments = elim (utf8_size arguments) [
  | none ↦ false
  | some bytes ↦ leb (length arguments) max_json_string_chars && leb bytes max_json_canonical_bytes
]

unfoldable pub normalize_reasoning : Option Value → Result ChainError (Option Text)
normalize_reasoning none = ok none
normalize_reasoning (some (str s)) = ok (some s)
normalize_reasoning (some _) = err messages_chain_invalid_reasoning_content

unfoldable pub text_or_none : Option Value → Result ChainError (Option Text)
text_or_none none = ok none
text_or_none (some (str s)) = ok (some s)
text_or_none (some _) = err messages_chain_invalid_model_info

unfoldable pub normalize_model_info :
    Option Value → Result ChainError (Option (Option Text × Option Text))
normalize_model_info none = ok none
normalize_model_info (some (object info)) = do
  provider ← text_or_none (given (get_field (codes "provider") info))
  model ← text_or_none (given (get_field (codes "model") info))
  ok (some (provider, model))
normalize_model_info (some _) = err messages_chain_invalid_model_info

unfoldable pub normalize_marker : Option Value → ChainError → Result ChainError (Option Bool)
normalize_marker none e = ok none
normalize_marker (some (bool b)) e = ok (some b)
normalize_marker (some _) e = err e

-- Not by `given`: a key with `None` is kept.
unfoldable pub normalize_version : Option Value → Result ChainError (Option (Option ℕ))
normalize_version none = ok none
normalize_version (some null) = ok (some none)
normalize_version (some (int (pos (suc n)))) = ok (some (some (suc n)))
normalize_version (some _) = err messages_chain_invalid_compaction

module _ (loads : Text → Option Value) where
  -- The text is what `canonical_json` writes of the dict that `json.loads` reads from it.
  unfoldable pub arguments_canonical : Text → Result ChainError (Unit {0})
  arguments_canonical arguments = do
    parsed ← dict_or (loads arguments) messages_chain_invalid_tool_arguments
    written ← canonical_arguments parsed
    guard (written == arguments) messages_chain_invalid_tool_arguments

  unfoldable pub normalize_tool_call : Value → Result ChainError Call
  normalize_tool_call (object raw) = do
    id ← named (get_field (codes "id") raw) messages_chain_invalid_tool_call_id
    guard (is_function (get_field (codes "type") raw)) messages_chain_invalid_tool_call
    function ← dict_or (get_field (codes "function") raw) messages_chain_invalid_tool_call
    name ← named (get_field (codes "name") function) messages_chain_invalid_tool_name
    arguments ←
        text_or (get_field (codes "arguments") function) messages_chain_invalid_tool_arguments
    guard (arguments_fit arguments) messages_chain_invalid_tool_arguments
    arguments_canonical arguments
    ok (record { id = id; name = name; arguments = arguments })
  normalize_tool_call _ = err messages_chain_invalid_tool_call

  unfoldable pub normalize_calls : Items → Result ChainError (List Call)
  normalize_calls nil = ok []
  normalize_calls (cons v items) = do
    call ← normalize_tool_call v
    calls ← normalize_calls items
    ok (call ∷ calls)

  unfoldable pub normalize_tool_calls : Option Value → Result ChainError (List Call)
  normalize_tool_calls none = ok []
  normalize_tool_calls (some (array items)) = normalize_calls items
  normalize_tool_calls (some _) = err messages_chain_invalid_tool_calls

  unfoldable pub normalize_assistant : Fields → Result ChainError Assistant
  normalize_assistant raw = do
    let content = content_or_null (get_field (codes "content") raw)
    guard (assistant_content_is_valid content) messages_chain_invalid_assistant_content
    tool_calls ← normalize_tool_calls (given (get_field (codes "tool_calls") raw))
    reasoning ← normalize_reasoning (given (get_field (codes "reasoning_content") raw))
    model_info ← normalize_model_info (given (get_field (codes "model_info") raw))
    compacted ←
        normalize_marker (given (get_field (codes "compacted") raw))
          messages_chain_invalid_compaction
    summary_compacted ←
        normalize_marker (given (get_field (codes "summary_compacted") raw))
          messages_chain_invalid_compaction
    version ← normalize_version (get_field (codes "compaction_version") raw)
    ok (record {
      content = content;
      tool_calls = tool_calls;
      reasoning_content = reasoning;
      model_info = model_info;
      compacted = compacted;
      summary_compacted = summary_compacted;
      compaction_version = version;
    })

unfoldable pub normalize_tool : Fields → Result ChainError Tool
normalize_tool raw = do
  call_id ← named (get_field (codes "tool_call_id") raw) messages_chain_invalid_tool_result_id
  name ← named (get_field (codes "name") raw) messages_chain_invalid_tool_name
  content ← text_or (get_field (codes "content") raw) messages_chain_invalid_tool_content
  is_error ←
      normalize_marker (given (get_field (codes "is_error") raw)) messages_chain_invalid_tool_error
  ok (record { tool_call_id = call_id; name = name; content = content; is_error = is_error })
