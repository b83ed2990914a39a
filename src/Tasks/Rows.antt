-- ===== src/Tasks/Rows.antt =====
-- The rows of `tasks` and `subtasks`, and the queries of the repository over them.
use auto_reign.Prelude.{
  ℕ, zero, suc, ◌+◌, Bool, true, false, not, ◌&&◌, ◌||◌, Option, none, some, List, [], ◌∷◌, ◌++◌,
  map, Text, Result, ok, err, ℤ, pos, negsuc, leb, ltb, nat_beq, if◌then◌else◌,
}
use auto_reign.Json.{Value}

-- The errors of the repository, by their codes; `multiple_rows` is raised by `one_or_none`.
pub data RepositoryError : Type 0 where
  task_not_found task_invalid_status : RepositoryError
  subtask_not_found subtask_not_assistant subtask_not_failed subtask_invalid_status :
      RepositoryError
  finish_status_invalid multiple_rows : RepositoryError

pub data Status : Type 0 where
  pending running completed failed cancelled : Status

pub data Role : Type 0 where
  user assistant : Role

-- `model_override_json` is what `_serialize_model` made of the reference.
pub record Task : Type 0 where
  pub id : ℕ
  pub user_id : ℕ
  pub agent_id : Option Text
  pub name : Text
  pub status : Status
  pub model_override_json : Option Value
  pub is_active : Bool
  pub created_at : ℕ
  pub updated_at : ℕ

-- `title`, `created_at` and `updated_at` are left out: nothing here reads or sets them.
pub record Subtask : Type 0 where
  pub id : ℕ
  pub user_id : ℕ
  pub task_id : ℕ
  pub role : Role
  pub message_id : ℕ
  pub parent_id : Option ℕ
  pub prompt : Text
  pub status : Status
  pub progress : ℤ
  pub result : Option Value
  pub error_message : Option Text
  pub completed_at : Option ℕ

-- The two tables, each in the order of its rows.
pub record Tables : Type 0 where
  pub tasks : List Task
  pub subtasks : List Subtask

-- status in {"PENDING", "RUNNING"}
abbrev pub is_active_status : Status → Bool
is_active_status Status.pending = true
is_active_status Status.running = true
is_active_status _ = false

-- status in ["COMPLETED", "FAILED", "CANCELLED"]
abbrev pub is_terminal_status : Status → Bool
is_terminal_status Status.completed = true
is_terminal_status Status.failed = true
is_terminal_status Status.cancelled = true
is_terminal_status _ = false

abbrev pub is_assistant : Role → Bool
is_assistant assistant = true
is_assistant user = false

abbrev pub is_failed : Status → Bool
is_failed Status.failed = true
is_failed _ = false

abbrev pub is_pending : Status → Bool
is_pending Status.pending = true
is_pending _ = false

-- The rows that a `where` keeps, in their order.
abbrev pub where_rows {ℓ} : {A : Type ℓ} → (A → Bool) → List A → List A
where_rows p [] = []
where_rows p (x ∷ xs) = let rest = where_rows p xs in if p x then x ∷ rest else rest

-- `session.scalar`: the first row, or `None`.
abbrev pub first_row {ℓ} : {A : Type ℓ} → List A → Option A
first_row [] = none
first_row (x ∷ xs) = some x

-- `one_or_none`
abbrev pub one_or_none {ℓ} : {A : Type ℓ} → List A → Result RepositoryError (Option A)
one_or_none [] = ok none
one_or_none (x ∷ []) = ok (some x)
one_or_none (x ∷ y ∷ xs) = err multiple_rows

-- A change of the rows that a condition picks.
abbrev pub update_rows {ℓ} : {A : Type ℓ} → (A → Bool) → (A → A) → List A → List A
update_rows p f [] = []
update_rows p f (x ∷ xs) = (if p x then f x else x) ∷ update_rows p f xs

-- `result.rowcount`
abbrev pub row_count {ℓ} : {A : Type ℓ} → (A → Bool) → List A → ℕ
row_count p [] = 0
row_count p (x ∷ xs) = (if p x then 1 else 0) + row_count p xs

-- The pairs of a join.
abbrev pub with_each {ℓ κ} : {A : Type ℓ} {B : Type κ} → A → List B → List (A × B)
with_each a [] = []
with_each a (b ∷ bs) = (a, b) ∷ with_each a bs

abbrev pub join_rows {ℓ κ} : {A : Type ℓ} {B : Type κ} → List A → List B → List (A × B)
join_rows [] bs = []
join_rows (a ∷ as_) bs = with_each a bs ++ join_rows as_ bs

-- The rows in the order of their keys, the smaller first; equal keys keep their order.
abbrev pub insert_row {ℓ} : {A : Type ℓ} → (A → A → Bool) → A → List A → List A
insert_row le x [] = x ∷ []
insert_row le x (y ∷ ys) =
    let later = insert_row le x ys in if le x y then x ∷ y ∷ ys else y ∷ later

abbrev pub order_rows {ℓ} : {A : Type ℓ} → (A → A → Bool) → List A → List A
order_rows le [] = []
order_rows le (x ∷ xs) = insert_row le x (order_rows le xs)

-- A key of two numbers.
abbrev pub pair_le : ℕ → ℕ → ℕ → ℕ → Bool
pair_le a b c d = ltb a c || nat_beq a c && leb b d

-- `get`: the user's task, if it is not deleted.
abbrev pub is_task_of : ℕ → ℕ → Task → Bool
is_task_of user_id task_id t = nat_beq t.id task_id && (nat_beq t.user_id user_id && t.is_active)

unfoldable pub get : ℕ → ℕ → Tables → Option Task
get user_id task_id db = first_row (where_rows (is_task_of user_id task_id) db.tasks)

-- The condition of `_get_owned_assistant` on a subtask and its task.
abbrev pub is_owned : ℕ → ℕ → Subtask × Task → Bool
is_owned user_id subtask_id (s, t) =
    nat_beq t.id s.task_id
    && (nat_beq s.id subtask_id
        && (nat_beq s.user_id user_id && (nat_beq t.user_id user_id && t.is_active)))

unfoldable pub owned_or_error : Option (Subtask × Task) → Result RepositoryError (Subtask × Task)
owned_or_error none = err subtask_not_found
owned_or_error (some (s, t)) = if is_assistant s.role then ok (s, t) else err subtask_not_assistant

unfoldable pub found_or_error :
    Result RepositoryError (Option (Subtask × Task)) → Result RepositoryError (Subtask × Task)
unfolding owned_or_error
found_or_error (err e) = err e
found_or_error (ok row) = owned_or_error row

-- `_get_owned_assistant`
unfoldable pub get_owned_assistant : ℕ → ℕ → Tables → Result RepositoryError (Subtask × Task)
unfolding found_or_error
get_owned_assistant user_id subtask_id db =
    found_or_error
      (one_or_none (where_rows (is_owned user_id subtask_id) (join_rows db.subtasks db.tasks)))

-- `list_subtasks`, behind the message `after_message_id` if there is one.
abbrev is_after : Option ℕ → ℕ → Bool
is_after none message_id = true
is_after (some after) message_id = ltb after message_id

abbrev is_listed : ℕ → ℕ → Option ℕ → Subtask × Task → Bool
is_listed user_id task_id after (s, t) =
    nat_beq t.id s.task_id
    && (nat_beq s.task_id task_id
        && (nat_beq s.user_id user_id
            && (nat_beq t.user_id user_id && (t.is_active && is_after after s.message_id))))

abbrev pub message_le : Subtask → Subtask → Bool
message_le a b = pair_le a.message_id a.id b.message_id b.id

abbrev subtask_of : Subtask × Task → Subtask
subtask_of (s, t) = s

unfoldable pub list_subtasks : ℕ → ℕ → Option ℕ → Tables → List Subtask
list_subtasks user_id task_id after db =
    order_rows message_le (
      map subtask_of
        (where_rows (is_listed user_id task_id after) (join_rows db.subtasks db.tasks)))

-- `latest_user_prompt`: the last of the user's messages.
abbrev is_prompt : ℕ → ℕ → Subtask × Task → Bool
is_prompt user_id task_id (s, t) =
    nat_beq t.id s.task_id
    && (nat_beq s.task_id task_id
        && (nat_beq s.user_id user_id
            && (not (is_assistant s.role) && (nat_beq t.user_id user_id && t.is_active))))

abbrev message_ge : Subtask → Subtask → Bool
message_ge a b = message_le b a

prompt_of : Option Subtask → Option Text
prompt_of none = none
prompt_of (some s) = some s.prompt

unfoldable pub latest_user_prompt : ℕ → ℕ → Tables → Option Text
unfolding prompt_of
latest_user_prompt user_id task_id db = prompt_of (
    first_row (
      order_rows message_ge
        (map subtask_of (where_rows (is_prompt user_id task_id) (join_rows db.subtasks db.tasks)))))

-- `list_recent`: the newest tasks, each with its last prompt.
abbrev is_own_prompt : Task → Subtask → Bool
is_own_prompt t s =
    nat_beq s.task_id t.id && (nat_beq s.user_id t.user_id && not (is_assistant s.role))

last_prompt : Tables → Task → Option Text
unfolding prompt_of
last_prompt db t =
    prompt_of (first_row (order_rows message_ge (where_rows (is_own_prompt t) db.subtasks)))

abbrev task_ge : Task → Task → Bool
task_ge a b = pair_le b.created_at b.id a.created_at a.id

abbrev is_listed_task : ℕ → Task → Bool
is_listed_task user_id t = nat_beq t.user_id user_id && t.is_active

abbrev first_rows {ℓ} : {A : Type ℓ} → ℕ → List A → List A
first_rows zero xs = []
first_rows (suc n) [] = []
first_rows (suc n) (x ∷ xs) = x ∷ first_rows n xs

unfoldable pub list_recent : ℕ → ℤ → Tables → List (Task × Option Text)
unfolding last_prompt
list_recent user_id (negsuc _) db = []
list_recent user_id (pos limit) db =
    map (λ t. (t, last_prompt db t))
      (first_rows limit (order_rows task_ge (where_rows (is_listed_task user_id) db.tasks)))
