-- ===== src/Reducer/Content.antt =====
-- `_assistant_visible_text`, and the text of a list of texts.
use auto_reign.Prelude.{
  Bool, false, ◌||◌, Option, some, List, [], ◌∷◌, ◌++◌, Text, codes, Result, ok, err, ◌>>=◌,
  if◌then◌else◌, ◌==◌, text_key,
}
use auto_reign.Json.{Value, str, array, object, get_field}
use auto_reign.RuntimeTypes.{AssistantContent, none_content, text_content, block_content}
use auto_reign.Reducer.State.{ReducerError, runtime_event_invalid, type_error}

-- "".join(parts)
abbrev pub join : List Text → Text
join [] = []
join (t ∷ ts) = t ++ join ts

-- block.get("type") in {"text", "output_text"}: a list or a dict cannot be hashed.
text_type : Option Value → Result ReducerError Bool
text_type (some (str s)) = ok (s == codes "text" || s == codes "output_text")
text_type (some (array _)) = err type_error
text_type (some (object _)) = err type_error
text_type _ = ok false

text_of : Option Value → Result ReducerError Text
text_of (some (str s)) = ok s
text_of _ = err runtime_event_invalid

visible_part : Value → Result ReducerError (List Text)
unfolding text_type text_of
visible_part (object block) = do
  shown ← text_type (get_field (codes "type") block)
  if shown then (do text ← text_of (get_field (codes "text") block); ok (text ∷ [])) else ok []
visible_part _ = err runtime_event_invalid

visible_parts : List Value → Result ReducerError (List Text)
unfolding visible_part
visible_parts [] = ok []
visible_parts (v ∷ vs) = do part ← visible_part v; parts ← visible_parts vs; ok (part ++ parts)

unfoldable pub assistant_visible_text : AssistantContent → Result ReducerError Text
unfolding visible_parts
assistant_visible_text none_content = ok []
assistant_visible_text (text_content s) = ok s
assistant_visible_text (block_content blocks) = do values ← visible_parts blocks; ok (join values)
