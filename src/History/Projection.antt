-- ===== src/History/Projection.antt =====
-- What of an attached context a runtime gets.
use auto_reign.Prelude.{
  ℕ, ◌%◌, nat_beq, Bool, true, false, not, ◌&&◌, ◌||◌, Option, none, some, List, [], ◌∷◌, ◌++◌,
  Text, codes, Result, ok, err, ◌>>=◌, ◌>>◌, guard, ltb, if◌then◌else◌, contains, text_key, ◌==◌,
  is_blank, length,
}
use auto_reign.Json.{
  Value, str, array, object, end, field, get_field, items_of, values_of, canonical_json,
  JsonSafetyError, json_size_limit, json_string_limit, max_json_string_chars,
}
use auto_reign.Contexts.{SubtaskRuntimeContextProjection}

pub data TurnError : Type 0 where
  history_invalid context_invalid context_too_large : TurnError

pub data RuntimeUserContext : Type 0 where
  text_context : (context_id : ℕ) (source_type name text : Text) → RuntimeUserContext
  image_context : (context_id : ℕ) (name mime_type image_base64 : Text) → RuntimeUserContext
  documents_context :
      (context_id : ℕ) (name knowledge_id : Text) (document_ids : List Text) → RuntimeUserContext

-- Strings that are not blank.
abbrev named_text : Value → Option Text
named_text (str s) = if is_blank s then none else some s
named_text _ = none

named_texts : List Value → Option (List Text)
named_texts [] = some []
named_texts (v ∷ values) =
    let rest = named_texts values in
    elim (named_text v) [
      | none ↦ none
      | some s ↦ elim rest [ none ↦ none | some texts ↦ some (s ∷ texts) ]
    ]

abbrev has_repeats : List Text → Bool
has_repeats [] = false
has_repeats (s ∷ texts) = contains texts s || has_repeats texts

abbrev has_any {ℓ} : {A : Type ℓ} → List A → Bool
has_any [] = false
has_any (x ∷ xs) = true

id_of : Option Value → Result TurnError Text
id_of none = err context_invalid
id_of (some v) = elim (named_text v) [ none ↦ err context_invalid | some s ↦ ok s ]

ids_of : Option Value → Result TurnError (List Text)
unfolding named_texts
ids_of (some (array items)) = elim (named_texts (values_of items)) [
  | none ↦ err context_invalid
  | some ids ↦ ok ids
]
ids_of _ = err context_invalid

abbrev is_size_error : JsonSafetyError → Bool
is_size_error json_size_limit = true
is_size_error json_string_limit = true
is_size_error _ = false

abbrev strs : List Text → List Value
strs [] = []
strs (s ∷ texts) = str s ∷ strs texts

abbrev reference_value : Text → List Text → Value
reference_value knowledge_id document_ids = object (
    field (some (codes "knowledge_id")) (str knowledge_id)
      (field (some (codes "document_ids")) (array (items_of (strs document_ids))) end))

bounded_reference : Result JsonSafetyError Text → Result TurnError (Unit {0})
bounded_reference (ok written) = ok tt
bounded_reference (err e) = if is_size_error e then err context_too_large else err context_invalid

documents_of : SubtaskRuntimeContextProjection → Value → Result TurnError (List RuntimeUserContext)
unfolding id_of ids_of bounded_reference
documents_of row (object reference) = do
  knowledge_id ← id_of (get_field (codes "knowledge_id") reference)
  document_ids ← ids_of (get_field (codes "document_ids") reference)
  guard (has_any document_ids && not (has_repeats document_ids)) context_invalid
  bounded_reference (canonical_json (reference_value knowledge_id document_ids))
  ok (documents_context row.id row.name knowledge_id document_ids ∷ [])
documents_of row _ = err context_invalid

-- `_selected_documents`
unfoldable pub selected_documents :
    SubtaskRuntimeContextProjection → Bool → Result TurnError (List RuntimeUserContext)
unfolding documents_of
selected_documents row false = ok []
selected_documents row true = documents_of row row.type_data

-- SUPPORTED_IMAGE_MIME_TYPES
abbrev is_supported_image : Text → Bool
is_supported_image mime_type =
    contains (codes "image/png" ∷ codes "image/jpeg" ∷ codes "image/webp" ∷ codes "image/gif" ∷ [])
      mime_type

-- Whether Python's decoder accepts a text, and encodes what it gives as that text again.
abbrev pub Base64 : Type 0
Base64 = Text → Bool

text_part :
    SubtaskRuntimeContextProjection → Option Text → Result TurnError (List RuntimeUserContext)
text_part row none = ok []
text_part row (some s) = do
  guard (not (ltb max_json_string_chars (length s))) context_too_large
  ok (text_context row.id row.context_type row.name s ∷ [])

-- `_validate_image` before the image.
image_part :
    Base64
    → SubtaskRuntimeContextProjection
    → Option Text
    → Option Text
    → Result TurnError (List RuntimeUserContext)
image_part base64 row none mime_type = ok []
image_part base64 row (some image) none = err context_invalid
image_part base64 row (some image) (some mime_type) = do
  guard
      (is_supported_image mime_type
        && (not (image == []) && (nat_beq (length image % 4) 0 && base64 image)))
      context_invalid
  ok (image_context row.id row.name mime_type image ∷ [])

-- The parts of a context that is an attachment or a knowledge base.
parts_of :
    Base64 → SubtaskRuntimeContextProjection → Bool → Result TurnError (List RuntimeUserContext)
unfolding text_part image_part
parts_of base64 row is_attachment = do
  texts ← text_part row row.extracted_text
  pictures ← if is_attachment then image_part base64 row row.image_base64 row.mime_type else ok []
  guard (has_any (texts ++ pictures)) context_invalid
  ok (texts ++ pictures)

-- `project_runtime_contexts`
unfoldable pub project_runtime_contexts :
    Base64 → SubtaskRuntimeContextProjection → Bool → Result TurnError (List RuntimeUserContext)
unfolding selected_documents parts_of
project_runtime_contexts base64 row is_current = do
  guard (not (row.name == []) && not (ltb 255 (length row.name))) context_invalid
  if row.context_type == codes "selected_documents" then selected_documents row is_current else (do
    guard (row.context_type == codes "attachment" || row.context_type == codes "knowledge_base")
        context_invalid
    parts_of base64 row (row.context_type == codes "attachment"))
