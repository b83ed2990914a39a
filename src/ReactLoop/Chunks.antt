-- ===== src/ReactLoop/Chunks.antt =====
-- What the loop reads of a chunk of the model's message.
use auto_reign.Prelude.{
  Bool, true, false, not, ◌||◌, Option, none, some, List, [], ◌∷◌, ◌++◌, Text, codes, Result, ok,
  err, ◌>>=◌, ◌>>◌, guard, if◌then◌else◌, is_blank, contains, ◌==◌, text_key,
}
use auto_reign.Json.{
  Value, null, str, array, object, Fields, end, field, Items, nil, cons, get_field,
}
use auto_reign.RuntimeTypes.{
  ToolCall, AssistantContent, none_content, text_content, block_content, AssistantMessageEvent,
}
use auto_reign.Reducer.{join}

-- The two RuntimeTerminalErrors by their codes, ToolCallLimitExceeded, a TypeError, GraphRecursionError,
-- any other RuntimeError with its message, and any other exception of the graph.
pub data LoopError : Type 0 where
  runtime_tool_protocol_violation context_too_large : LoopError
  tool_call_limit_exceeded type_error graph_recursion graph_error : LoopError
  runtime_error : Text → LoopError

-- A chunk as langchain hands it over. `content_blocks` and the other attributes are langchain's;
-- whether `invalid_tool_calls` holds any is all that is read of them.
pub record Chunk : Type 0 where
  pub id : Option Text
  pub content : Value
  pub content_blocks : List Value
  pub tool_calls : List Value
  pub has_invalid_tool_calls : Bool
  pub additional_kwargs : Fields
  pub response_metadata : Fields

-- left.id and right.id and left.id != right.id
abbrev differ : Text → Text → Bool
differ [] right = false
differ (c ∷ left) [] = false
differ (c ∷ left) (d ∷ right) = not ((c ∷ left) == (d ∷ right))

abbrev differ_ids : Option Text → Option Text → Bool
differ_ids none right = false
differ_ids (some left) none = false
differ_ids (some left) (some right) = differ left right

unfoldable pub different_message : Chunk → Chunk → Bool
different_message left right = differ_ids left.id right.id

-- value in {"text", "output_text"}: a list or a dict cannot be a member of a set.
is_text_type : Option Value → Result LoopError Bool
is_text_type (some (str s)) = ok (s == codes "text" || s == codes "output_text")
is_text_type (some (array items)) = err type_error
is_text_type (some (object d)) = err type_error
is_text_type _ = ok false

-- A text that is not empty.
abbrev text_of : Option Value → List Text
text_of (some (str [])) = []
text_of (some (str (c ∷ s))) = (c ∷ s) ∷ []
text_of _ = []

block_text : Value → Result LoopError (List Text)
unfolding is_text_type
block_text (object d) = do
  is_text ← is_text_type (get_field (codes "type") d)
  ok (if is_text then text_of (get_field (codes "text") d) else [])
block_text _ = ok []

texts_of : List Value → Result LoopError (List Text)
unfolding block_text
texts_of [] = ok []
texts_of (block ∷ blocks) = do texts ← block_text block; rest ← texts_of blocks; ok (texts ++ rest)

-- `_chunk_text`
unfoldable pub chunk_text : Chunk → Result LoopError (List Text)
unfolding texts_of
chunk_text chunk = texts_of chunk.content_blocks

abbrev is_str : Text → Option Value → Bool
is_str s (some (str t)) = t == s
is_str s _ = false

block_reasoning : Value → List Text
block_reasoning (object d) =
    if is_str (codes "reasoning") (get_field (codes "type") d)
    then text_of (get_field (codes "reasoning") d)
    else []
block_reasoning _ = []

reasonings_of : List Value → List Text
unfolding block_reasoning
reasonings_of [] = []
reasonings_of (block ∷ blocks) = block_reasoning block ++ reasonings_of blocks

abbrev str_of : Option Value → Option Text
str_of (some (str s)) = some s
str_of _ = none

abbrev or_else : Option Text → Option Text → Option Text
or_else none other = other
or_else (some s) other = some s

abbrev reasoning_or : List Text → Option Text → Option Text
reasoning_or [] other = other
reasoning_or (s ∷ values) other = some (join (s ∷ values))

-- `_chunk_reasoning`
unfoldable pub chunk_reasoning : Chunk → Option Text
unfolding reasonings_of
chunk_reasoning chunk = reasoning_or (reasonings_of chunk.content_blocks) (
    or_else (str_of (get_field (codes "reasoning_content") chunk.additional_kwargs))
      (str_of (get_field (codes "reasoning_content") chunk.response_metadata)))

abbrev non_blank : Option Value → Option Text
non_blank (some (str s)) = if is_blank s then none else some s
non_blank _ = none

tool_call_of : Option Text → Option Text → Option Value → Result LoopError ToolCall
tool_call_of (some id) (some name) (some (object arguments)) =
    ok (record { id = id; name = name; arguments = arguments })
tool_call_of _ _ _ = err runtime_tool_protocol_violation

-- `_runtime_tool_call`
unfoldable pub runtime_tool_call : Value → Result LoopError ToolCall
unfolding tool_call_of
runtime_tool_call (object d) =
    tool_call_of (non_blank (get_field (codes "id") d)) (non_blank (get_field (codes "name") d))
      (get_field (codes "args") d)
runtime_tool_call _ = err runtime_tool_protocol_violation

-- The loop over `chunk.tool_calls`, with the ids that were seen.
unfoldable pub distinct_calls : List Text → List Value → Result LoopError (List ToolCall)
distinct_calls seen [] = ok []
distinct_calls seen (value ∷ values) = do
  call ← runtime_tool_call value
  guard (not (contains seen call.id)) runtime_tool_protocol_violation
  calls ← distinct_calls (call.id ∷ seen) values
  ok (call ∷ calls)

-- The variables of the loop in `_assistant_content`.
record Parts : Type 0 where
  pub blocks : List Value
  pub text_parts : List Text
  pub only_text : Bool

abbrev text_block : Text → Value
text_block s =
    object
      (field (some (codes "type")) (str (codes "text")) (field (some (codes "text")) (str s) end))

-- A block's text, if its type says that it has one.
abbrev with_text : Bool → Option Value → Parts → Parts
with_text true (some (str s)) parts = record parts { text_parts = parts.text_parts ++ (s ∷ []) }
with_text _ _ parts = record parts { only_text = false }

content_part : Value → Parts → Result LoopError Parts
unfolding is_text_type
content_part (str s) parts = ok (record parts {
  blocks = parts.blocks ++ (text_block s ∷ []);
  text_parts = parts.text_parts ++ (s ∷ []);
})
content_part (object d) parts =
    if is_str (codes "reasoning") (get_field (codes "type") d)
    then ok parts
    else (is_text_type (get_field (codes "type") d) >>= λ is_text. ok (
        with_text is_text (get_field (codes "text") d)
          (record parts { blocks = parts.blocks ++ (object d ∷ []) })))
content_part _ parts = err type_error

content_parts : Items → Parts → Result LoopError Parts
unfolding content_part
content_parts nil parts = ok parts
content_parts (cons block items) parts = do
  next ← content_part block parts
  content_parts items next

abbrev content_of_parts : Parts → AssistantContent
content_of_parts parts = elim parts.blocks [
  | [] ↦ none_content
  | block ∷ blocks ↦
      if parts.only_text then text_content (join parts.text_parts) else block_content parts.blocks
]

-- `_assistant_content`
unfoldable pub assistant_content : Value → Result LoopError AssistantContent
unfolding content_parts
assistant_content null = ok none_content
assistant_content (str s) = ok (text_content s)
assistant_content (array items) = do
  parts ← content_parts items (record { blocks = []; text_parts = []; only_text = true })
  ok (content_of_parts parts)
assistant_content _ = err type_error

-- if calls and content == "": content = None
abbrev without_empty : List ToolCall → AssistantContent → AssistantContent
without_empty (call ∷ calls) (text_content []) = none_content
without_empty calls content = content

-- `_assistant_event`. What `_assistant_content` returns passes the test that follows it.
unfoldable pub assistant_event :
    Chunk → Option Text → Text → Text → Result LoopError AssistantMessageEvent
assistant_event chunk reasoning_content provider model = do
  guard (not chunk.has_invalid_tool_calls) runtime_tool_protocol_violation
  calls ← distinct_calls [] chunk.tool_calls
  content ← assistant_content chunk.content
  ok (record {
    content = without_empty calls content;
    tool_calls = calls;
    reasoning_content = reasoning_content;
    provider = some provider;
    model = some model;
    compacted = false;
    summary_compacted = false;
    compaction_version = none;
  })
