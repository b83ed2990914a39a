-- ===== src/Tasks/Writes.antt =====
-- What the repository writes. The clock, and the ids that the database gives to new rows, are inputs;
-- a method that raises leaves what it had written to the session's transaction.
use auto_reign.Prelude.{
  ℕ, ◌+◌, max, min, Bool, true, false, ◌&&◌, Option, none, some, List, [], ◌∷◌, ◌++◌, Text, Result,
  ok, err, ℤ, pos, negsuc, nat_beq, nat_key, if◌then◌else◌,
}
use auto_reign.Prelude.Exec.{Exec, pure, raise, self, modify, ensure, lift, ◌>>=◌, ◌>>◌}
use auto_reign.Json.{Value}
use auto_reign.Tasks.Rows.{
  RepositoryError, task_not_found, task_invalid_status, subtask_not_found, subtask_not_assistant,
  subtask_not_failed, subtask_invalid_status, finish_status_invalid, Status, user, assistant, Task,
  Subtask, Tables, is_active_status, is_assistant, is_failed, is_pending, where_rows, first_row,
  update_rows, row_count, is_task_of, get, get_owned_assistant,
}

abbrev pub Method : Type 0 → Type 0
Method A = Exec Tables RepositoryError A

-- A write to the row of a task, and to that of a subtask.
abbrev pub write_task : ℕ → (Task → Task) → Tables → Tables
write_task id f db = record db { tasks = update_rows (λ t. nat_beq t.id id) f db.tasks }

abbrev pub write_subtask : ℕ → (Subtask → Subtask) → Tables → Tables
write_subtask id f db = record db { subtasks = update_rows (λ s. nat_beq s.id id) f db.subtasks }

-- task.status = …; task.updated_at = …
abbrev pub with_status : Status → ℕ → Task → Task
with_status status now t = record t { status = status; updated_at = now }

unfoldable pub create_task : ℕ → ℕ → ℕ → Option Text → Text → Option Value → Method Task
create_task id now user_id agent_id name model_override = do
  let task : Task = record {
    id = id;
    user_id = user_id;
    agent_id = agent_id;
    name = name;
    status = Status.pending;
    model_override_json = model_override;
    is_active = true;
    created_at = now;
    updated_at = now;
  }
  modify (λ db. record db { tasks = db.tasks ++ task ∷ [] })
  pure task

-- func.max over the messages of a task.
abbrev pub larger : Option ℕ → ℕ → Option ℕ
larger none n = some n
larger (some m) n = some (max m n)

unfoldable pub max_message_id : ℕ → List Subtask → Option ℕ
max_message_id task_id [] = none
max_message_id task_id (s ∷ subtasks) =
    let later = max_message_id task_id subtasks in
    if nat_beq s.task_id task_id then larger later s.message_id else later

-- previous_message_id or 0
abbrev pub or_zero : Option ℕ → ℕ
or_zero none = 0
or_zero (some n) = n

abbrev pub user_row : ℕ → ℕ → Task → Option ℕ → Text → Subtask
user_row id now task previous prompt = record {
  id = id;
  user_id = task.user_id;
  task_id = task.id;
  role = user;
  message_id = or_zero previous + 1;
  parent_id = previous;
  prompt = prompt;
  status = Status.completed;
  progress = pos 100;
  result = none;
  error_message = none;
  completed_at = some now;
}

abbrev pub assistant_row : ℕ → Task → Option ℕ → Subtask
assistant_row id task previous = record {
  id = id;
  user_id = task.user_id;
  task_id = task.id;
  role = assistant;
  message_id = or_zero previous + 1 + 1;
  parent_id = some (or_zero previous + 1);
  prompt = [];
  status = Status.pending;
  progress = pos 0;
  result = none;
  error_message = none;
  completed_at = none;
}

unfoldable pub create_turn : ℕ → ℕ → ℕ → Task → Text → Method (Subtask × Subtask)
create_turn user_row_id assistant_row_id now task prompt = do
  db ← self
  let previous = max_message_id task.id db.subtasks
  let first : Subtask = user_row user_row_id now task previous prompt
  let second : Subtask = assistant_row assistant_row_id task previous
  modify (write_task task.id (with_status Status.pending now))
  modify (λ db. record db { subtasks = db.subtasks ++ (first ∷ second ∷ []) })
  pure (first, second)

-- min(max(progress, 0), 100)
abbrev pub clamp_progress : ℤ → ℤ
clamp_progress (negsuc _) = pos 0
clamp_progress (pos n) = pos (min n 100)

abbrev pub started : Subtask → Subtask
started s = record s {
  status = Status.running;
  progress = clamp_progress s.progress;
  completed_at = none;
}

unfoldable pub mark_running : ℕ → ℕ → ℕ → Method (Unit {0})
mark_running now user_id subtask_id = do
  db ← self
  (s, t) ← lift (λ e. e) (get_owned_assistant user_id subtask_id db)
  ensure (is_pending s.status) subtask_invalid_status
  modify (write_subtask s.id started)
  modify (write_task t.id (with_status Status.running now))

-- The row of an assistant that ended.
abbrev pub ended : Status → ℕ → Option Value → Option Text → Subtask → Subtask
ended status now result error_message s = record s {
  status = status;
  progress = pos 100;
  result = result;
  error_message = error_message;
  completed_at = some now;
}

abbrev is_finish_status : Status → Bool
is_finish_status Status.completed = true
is_finish_status Status.failed = true
is_finish_status _ = false

-- The part that `finish_assistant` and `cancel_assistant` share.
unfoldable pub end_assistant : ℕ → ℕ → ℕ → Status → Option Value → Option Text → Method (Unit {0})
end_assistant now user_id subtask_id status result error_message = do
  db ← self
  (s, t) ← lift (λ e. e) (get_owned_assistant user_id subtask_id db)
  ensure (is_active_status s.status) subtask_invalid_status
  modify (write_subtask s.id (ended status now result error_message))
  modify (write_task t.id (with_status status now))

unfoldable pub finish_assistant :
    ℕ → ℕ → ℕ → Status → Option Value → Option Text → Method (Unit {0})
finish_assistant now user_id subtask_id status result error_message = do
  ensure (is_finish_status status) finish_status_invalid
  end_assistant now user_id subtask_id status result error_message

unfoldable pub cancel_assistant : ℕ → ℕ → ℕ → Option Value → Method (Unit {0})
cancel_assistant now user_id subtask_id result =
    end_assistant now user_id subtask_id Status.cancelled result none

-- The conditions of the two updates of `fail_active_assistant`.
abbrev pub is_active_assistant : ℕ → ℕ → ℕ → Subtask → Bool
is_active_assistant user_id task_id subtask_id s =
    nat_beq s.id subtask_id
    && (nat_beq s.task_id task_id
        && (nat_beq s.user_id user_id && (is_assistant s.role && is_active_status s.status)))

abbrev pub is_active_task : ℕ → ℕ → Task → Bool
is_active_task user_id task_id t = is_task_of user_id task_id t && is_active_status t.status

unfoldable pub fail_task : ℕ → ℕ → ℕ → Method Bool
fail_task now user_id task_id db =
    if nat_beq (row_count (is_active_task user_id task_id) db.tasks) 1
    then (
      ok true,
      record db {
        tasks =
            update_rows (is_active_task user_id task_id) (with_status Status.failed now) db.tasks;
      },
    )
    else raise task_invalid_status (record db {
      tasks = update_rows (is_active_task user_id task_id) (with_status Status.failed now) db.tasks;
    })

unfoldable pub fail_active_assistant : ℕ → ℕ → ℕ → ℕ → Option Value → Text → Method Bool
unfolding fail_task
fail_active_assistant now user_id task_id subtask_id result error_message db =
    let changed : Tables = record db {
      subtasks =
          update_rows (is_active_assistant user_id task_id subtask_id)
            (ended Status.failed now result (some error_message)) db.subtasks;
    } in
    if nat_beq (row_count (is_active_assistant user_id task_id subtask_id) db.subtasks) 1
    then fail_task now user_id task_id changed
    else (ok false, changed)

unfoldable pub task_or_error : Option Task → Result RepositoryError Task
task_or_error none = err task_not_found
task_or_error (some t) = ok t

-- `_require_task`
unfoldable pub require_task : ℕ → ℕ → Method Task
unfolding task_or_error
require_task user_id task_id = do db ← self; lift (λ e. e) (task_or_error (get user_id task_id db))

abbrev pub is_subtask_of : ℕ → ℕ → ℕ → Subtask → Bool
is_subtask_of user_id task_id subtask_id s =
    nat_beq s.id subtask_id && (nat_beq s.task_id task_id && nat_beq s.user_id user_id)

unfoldable pub subtask_or_error : Option Subtask → Result RepositoryError Subtask
subtask_or_error none = err subtask_not_found
subtask_or_error (some s) = ok s

abbrev pub reset : Subtask → Subtask
reset s = record s {
  status = Status.pending;
  progress = pos 0;
  result = none;
  error_message = none;
  completed_at = none;
}

unfoldable pub reset_failed_assistant : ℕ → ℕ → ℕ → ℕ → Method Subtask
unfolding subtask_or_error
reset_failed_assistant now user_id task_id subtask_id = do
  t ← require_task user_id task_id
  db ← self
  s ←
      lift (λ e. e)
        (subtask_or_error
          (first_row (where_rows (is_subtask_of user_id t.id subtask_id) db.subtasks)))
  ensure (is_assistant s.role) subtask_not_assistant
  ensure (is_failed s.status) subtask_not_failed
  modify (write_subtask s.id reset)
  modify (write_task t.id (with_status Status.pending now))
  pure (reset s)
