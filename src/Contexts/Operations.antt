-- ===== src/Contexts/Operations.antt =====
-- The methods that write.
use auto_reign.Prelude.{
  ℕ, Bool, true, false, not, ◌&&◌, ◌||◌, Option, none, some, List, [], ◌∷◌, ◌++◌, map, Text, Result,
  ok, err, nat_beq, nat_key, if◌then◌else◌, contains, length, any,
}
use auto_reign.Prelude.Exec.{Exec, pure, raise, self, modify, ensure, lift, ◌>>=◌, ◌>>◌}
use auto_reign.Json.{Value}
use auto_reign.Tasks.{where_rows, first_row, update_rows}
use auto_reign.Contexts.Rows.{
  ContextError, context_not_ready, context_not_found, context_status_invalid, ContextStatus,
  SubtaskContext, is_ready, is_parsing, get,
}

abbrev pub Method : Type 0 → Type 0
Method A = Exec (List SubtaskContext) ContextError A

-- What a caller may give of a new draft; the id and the time are the database's.
pub record Draft : Type 0 where
  pub context_type : Text
  pub name : Text
  pub status : ContextStatus
  pub binary_data : Option (List ℕ)
  pub image_base64 : Option Text
  pub extracted_text : Option Text
  pub mime_type : Option Text
  pub file_extension : Option Text
  pub file_size : Option ℕ
  pub type_data : Value

abbrev pub length_or_zero : Option Text → ℕ
length_or_zero none = 0
length_or_zero (some s) = length s

abbrev pub draft_row : ℕ → ℕ → ℕ → Draft → SubtaskContext
draft_row id now user_id d = record {
  id = id;
  user_id = user_id;
  subtask_id = 0;
  context_type = d.context_type;
  name = d.name;
  status = d.status;
  error_message = none;
  binary_data = d.binary_data;
  image_base64 = d.image_base64;
  extracted_text = d.extracted_text;
  text_length = length_or_zero d.extracted_text;
  mime_type = d.mime_type;
  file_extension = d.file_extension;
  file_size = d.file_size;
  type_data = d.type_data;
  created_at = now;
}

unfoldable pub create_draft : ℕ → ℕ → ℕ → Draft → Method SubtaskContext
create_draft id now user_id d = do
  modify (λ rows. rows ++ (draft_row id now user_id d ∷ []))
  pure (draft_row id now user_id d)

abbrev pub has_repeats : List ℕ → Bool
has_repeats [] = false
has_repeats (id ∷ ids) = contains ids id || has_repeats ids

abbrev pub with_found : Option SubtaskContext → List SubtaskContext → List SubtaskContext
with_found none rest = rest
with_found (some c) rest = c ∷ rest

-- by_id = {row.id: row for row in rows}, read for each id that was requested.
abbrev pub requested_rows : List ℕ → List SubtaskContext → List SubtaskContext
requested_rows [] rows = []
requested_rows (id ∷ ids) rows =
    let rest = requested_rows ids rows in
    with_found (first_row (where_rows (λ (c : SubtaskContext). nat_beq c.id id) rows)) rest

abbrev pub is_requested : ℕ → List ℕ → SubtaskContext → Bool
is_requested user_id ids c = contains ids c.id && nat_beq c.user_id user_id

abbrev pub is_unbindable : SubtaskContext → Bool
is_unbindable c = not (nat_beq c.subtask_id 0) || not (is_ready c.status)

abbrev pub bound : ℕ → SubtaskContext → SubtaskContext
bound subtask_id c = record c { subtask_id = subtask_id }

abbrev pub ids_of : List SubtaskContext → List ℕ
ids_of [] = []
ids_of (c ∷ rows) = c.id ∷ ids_of rows

-- The ids are the table's primary key, so that the writes to the rows of the list are writes by id.
unfoldable pub bind_drafts : ℕ → List ℕ → ℕ → Method (List SubtaskContext)
bind_drafts user_id [] subtask_id = pure []
bind_drafts user_id (id ∷ ids) subtask_id = do
  ensure (not (nat_beq subtask_id 0 || has_repeats (id ∷ ids))) context_not_ready
  rows ← self
  let ordered = requested_rows (id ∷ ids) (where_rows (is_requested user_id (id ∷ ids)) rows)
  ensure (not (not (nat_beq (length ordered) (length (id ∷ ids))) || any is_unbindable ordered))
      context_not_ready
  modify (update_rows (λ c. contains (ids_of ordered) c.id) (bound subtask_id))
  pure (map (bound subtask_id) ordered)

abbrev pub delete_rows : (SubtaskContext → Bool) → List SubtaskContext → List SubtaskContext
delete_rows p [] = []
delete_rows p (c ∷ rows) = let rest = delete_rows p rows in if p c then rest else c ∷ rest

unfoldable pub delete_found : Option SubtaskContext → Method Bool
delete_found none = raise context_not_found
delete_found (some c) = do
  ensure (nat_beq c.subtask_id 0) context_not_ready
  modify (delete_rows (λ x. nat_beq x.id c.id))
  pure true

unfoldable pub delete_draft : ℕ → ℕ → Method Bool
delete_draft user_id context_id = do rows ← self; delete_found (get user_id context_id rows)

abbrev pub is_parsing_draft : ℕ → ℕ → SubtaskContext → Bool
is_parsing_draft user_id context_id c =
    nat_beq c.id context_id
    && (nat_beq c.user_id user_id && (nat_beq c.subtask_id 0 && is_parsing c.status))

unfoldable pub found_draft : Option SubtaskContext → Result ContextError SubtaskContext
found_draft none = err context_not_ready
found_draft (some c) = ok c

-- `_get_parsing_draft`
unfoldable pub get_parsing_draft : ℕ → ℕ → Method SubtaskContext
unfolding found_draft
get_parsing_draft user_id context_id = do
  rows ← self
  lift (λ e. e) (found_draft (first_row (where_rows (is_parsing_draft user_id context_id) rows)))

abbrev pub parsed : Option Text → ContextStatus → SubtaskContext → SubtaskContext
parsed extracted_text status c = record c {
  extracted_text = extracted_text;
  text_length = length_or_zero extracted_text;
  status = status;
  error_message = none;
}

abbrev pub is_parsed_status : ContextStatus → Bool
is_parsed_status ContextStatus.ready = true
is_parsed_status ContextStatus.empty = true
is_parsed_status _ = false

unfoldable pub mark_parsed : ℕ → ℕ → Option Text → ContextStatus → Method SubtaskContext
mark_parsed user_id context_id extracted_text status = do
  ensure (is_parsed_status status) context_status_invalid
  c ← get_parsing_draft user_id context_id
  modify (update_rows (λ x. nat_beq x.id c.id) (parsed extracted_text status))
  pure (parsed extracted_text status c)

abbrev pub failed_with : Text → SubtaskContext → SubtaskContext
failed_with error_code c = record c {
  extracted_text = none;
  text_length = 0;
  status = ContextStatus.failed;
  error_message = some error_code;
}

unfoldable pub mark_failed : ℕ → ℕ → Text → Method SubtaskContext
mark_failed user_id context_id error_code = do
  c ← get_parsing_draft user_id context_id
  modify (update_rows (λ x. nat_beq x.id c.id) (failed_with error_code))
  pure (failed_with error_code c)
