-- ===== src/Contexts/Rows.antt =====
-- The rows of `subtask_contexts`, and the queries over them.
use auto_reign.Prelude.{
  ℕ, Bool, true, false, ◌&&◌, Option, List, [], ◌∷◌, map, Text, nat_beq, nat_key, contains,
}
use auto_reign.Json.{Value}
use auto_reign.Tasks.{where_rows, first_row, order_rows, pair_le}

pub data ContextError : Type 0 where
  context_not_ready context_not_found context_status_invalid : ContextError

pub data ContextStatus : Type 0 where
  pending parsing ready empty failed : ContextStatus

-- Bytes stand for themselves. A draft has 0 for `subtask_id`.
pub record SubtaskContext : Type 0 where
  pub id : ℕ
  pub user_id : ℕ
  pub subtask_id : ℕ
  pub context_type : Text
  pub name : Text
  pub status : ContextStatus
  pub error_message : Option Text
  pub binary_data : Option (List ℕ)
  pub image_base64 : Option Text
  pub extracted_text : Option Text
  pub text_length : ℕ
  pub mime_type : Option Text
  pub file_extension : Option Text
  pub file_size : Option ℕ
  pub type_data : Value
  pub created_at : ℕ

abbrev pub is_ready : ContextStatus → Bool
is_ready ContextStatus.ready = true
is_ready _ = false

abbrev pub is_parsing : ContextStatus → Bool
is_parsing ContextStatus.parsing = true
is_parsing _ = false

abbrev pub is_context_of : ℕ → ℕ → SubtaskContext → Bool
is_context_of user_id context_id c = nat_beq c.id context_id && nat_beq c.user_id user_id

unfoldable pub get : ℕ → ℕ → List SubtaskContext → Option SubtaskContext
get user_id context_id rows = first_row (where_rows (is_context_of user_id context_id) rows)

abbrev created_le : SubtaskContext → SubtaskContext → Bool
created_le a b = pair_le a.created_at a.id b.created_at b.id

abbrev is_draft : ℕ → SubtaskContext → Bool
is_draft user_id c = nat_beq c.user_id user_id && nat_beq c.subtask_id 0

unfoldable pub list_drafts : ℕ → List SubtaskContext → List SubtaskContext
list_drafts user_id rows = order_rows created_le (where_rows (is_draft user_id) rows)

abbrev is_bound_to : ℕ → List ℕ → SubtaskContext → Bool
is_bound_to user_id subtask_ids c = nat_beq c.user_id user_id && contains subtask_ids c.subtask_id

unfoldable pub list_for_subtasks : ℕ → List ℕ → List SubtaskContext → List SubtaskContext
list_for_subtasks user_id [] rows = []
list_for_subtasks user_id (id ∷ subtask_ids) rows =
    order_rows created_le (where_rows (is_bound_to user_id (id ∷ subtask_ids)) rows)

-- The columns that a model may see.
pub record SubtaskRuntimeContextProjection : Type 0 where
  pub id : ℕ
  pub subtask_id : ℕ
  pub context_type : Text
  pub name : Text
  pub image_base64 : Option Text
  pub extracted_text : Option Text
  pub mime_type : Option Text
  pub type_data : Value

abbrev projection : SubtaskContext → SubtaskRuntimeContextProjection
projection c = record {
  id = c.id;
  subtask_id = c.subtask_id;
  context_type = c.context_type;
  name = c.name;
  image_base64 = c.image_base64;
  extracted_text = c.extracted_text;
  mime_type = c.mime_type;
  type_data = c.type_data;
}

abbrev is_runtime : ℕ → List ℕ → SubtaskContext → Bool
is_runtime user_id subtask_ids c =
    nat_beq c.user_id user_id && (contains subtask_ids c.subtask_id && is_ready c.status)

unfoldable pub list_runtime_for_subtasks :
    ℕ → List ℕ → List SubtaskContext → List SubtaskRuntimeContextProjection
list_runtime_for_subtasks user_id [] rows = []
list_runtime_for_subtasks user_id (id ∷ subtask_ids) rows =
    map projection (order_rows created_le (where_rows (is_runtime user_id (id ∷ subtask_ids)) rows))
