-- ===== src/Tasks/Edits.antt =====
-- The repository's writes to tasks alone, and the recovery after a restart.
use auto_reign.Prelude.{
  ℕ, Bool, true, false, ◌&&◌, Option, none, some, List, [], ◌∷◌, Text, codes, ok, pos, nat_beq,
  nat_key, contains, length,
}
use auto_reign.Prelude.Exec.{modify, ◌>>=◌}
use auto_reign.Json.{Value}
use auto_reign.Tasks.Rows.{
  Status, Task, Subtask, Tables, is_active_status, is_terminal_status, is_assistant, where_rows,
  update_rows, row_count, join_rows, is_task_of, get,
}
use auto_reign.Tasks.Writes.{Method, write_task, with_status, require_task}

unfoldable pub rename : ℕ → ℕ → ℕ → Text → Method (Unit {0})
rename now user_id task_id name = do
  t ← require_task user_id task_id
  modify (write_task t.id (λ t. record t { name = name; updated_at = now }))

unfoldable pub delete_found : ℕ → Option Task → Method Bool
delete_found now none db = (ok false, db)
delete_found now (some t) db =
    (ok true, write_task t.id (λ t. record t { is_active = false; updated_at = now }) db)

unfoldable pub soft_delete : ℕ → ℕ → ℕ → Method Bool
unfolding delete_found
soft_delete now user_id task_id db = delete_found now (get user_id task_id db) db

-- The condition of the two updates that ask for a task at rest.
abbrev pub is_terminal_task : ℕ → ℕ → Task → Bool
is_terminal_task user_id task_id t = is_task_of user_id task_id t && is_terminal_status t.status

-- An update of such tasks, and whether it met one. The refresh of the session's object that follows
-- reads the row again.
unfoldable pub update_if_terminal : ℕ → ℕ → (Task → Task) → Method Bool
update_if_terminal user_id task_id f db = (
  ok (nat_beq (row_count (is_terminal_task user_id task_id) db.tasks) 1),
  record db { tasks = update_rows (is_terminal_task user_id task_id) f db.tasks },
)

unfoldable pub soft_delete_if_terminal : ℕ → ℕ → ℕ → Method Bool
unfolding update_if_terminal
soft_delete_if_terminal now user_id task_id =
    update_if_terminal user_id task_id (λ t. record t { is_active = false; updated_at = now })

unfoldable pub set_model_override : ℕ → ℕ → ℕ → Option Value → Method (Unit {0})
set_model_override now user_id task_id model_override = do
  t ← require_task user_id task_id
  modify
      (write_task t.id (λ t. record t { model_override_json = model_override; updated_at = now }))

unfoldable pub set_model_override_if_terminal : ℕ → ℕ → ℕ → Option Value → Method Bool
unfolding update_if_terminal
set_model_override_if_terminal now user_id task_id model_override =
    update_if_terminal user_id task_id
      (λ t. record t { model_override_json = model_override; updated_at = now })

-- The condition of the select of `recover_interrupted`.
abbrev pub is_interrupted : Subtask × Task → Bool
is_interrupted (s, t) =
    nat_beq t.id s.task_id
    && (is_assistant s.role && (is_active_status s.status && nat_beq s.user_id t.user_id))

abbrev pub interrupted : Tables → List (Subtask × Task)
interrupted db = where_rows is_interrupted (join_rows db.subtasks db.tasks)

abbrev pub subtask_ids : List (Subtask × Task) → List ℕ
subtask_ids [] = []
subtask_ids ((s, t) ∷ rows) = s.id ∷ subtask_ids rows

abbrev pub task_ids : List (Subtask × Task) → List ℕ
task_ids [] = []
task_ids ((s, t) ∷ rows) = s.task_id ∷ task_ids rows

abbrev pub broken_off : ℕ → Subtask → Subtask
broken_off now s = record s {
  status = Status.failed;
  progress = pos 100;
  error_message = some (codes "generation_interrupted");
  completed_at = some now;
}

-- The writes to the rows that were selected, and to their tasks.
abbrev pub break_off : ℕ → List (Subtask × Task) → Tables → Tables
break_off now rows db = record {
  subtasks = update_rows (λ s. contains (subtask_ids rows) s.id) (broken_off now) db.subtasks;
  tasks = update_rows (λ t. contains (task_ids rows) t.id) (with_status Status.failed now) db.tasks;
}

unfoldable pub recover_rows : ℕ → List (Subtask × Task) → Method ℕ
recover_rows now [] db = (ok 0, db)
recover_rows now (row ∷ rows) db = (ok (length (row ∷ rows)), break_off now (row ∷ rows) db)

unfoldable pub recover_interrupted : ℕ → Method ℕ
unfolding recover_rows
recover_interrupted now db = recover_rows now (interrupted db) db
