-- ===== src/Tasks/Settled.antt =====
-- `fail_active_assistant` of repositories/task_repository.py, where it changes nothing.
use auto_reign.Prelude.{
  ℕ, ◌≡◌, refl, ◌+◌, ap, false, Option, some, List, [], ◌∷◌, Text, ok, arith, Bool-cases, inl, inr,
}
use auto_reign.Json.{Value}
use auto_reign.Tasks.Rows.{Status, Subtask, Tables, update_rows, row_count}
use auto_reign.Tasks.Writes.{ended, is_active_assistant, fail_task, fail_active_assistant}

-- A row that has failed is not in progress any more.
none_active :
    (now user_id task_id subtask_id : ℕ) (result : Option Value) (message : Option Text)
    (rows : List Subtask)
    → row_count (is_active_assistant user_id task_id subtask_id) (
        update_rows
          (is_active_assistant user_id task_id subtask_id)
          (ended Status.failed now result message)
          rows)
      ≡ 0
none_active now user_id task_id subtask_id result message [] = refl
none_active now user_id task_id subtask_id result message (s ∷ rows) =
    let rest = none_active now user_id task_id subtask_id result message rows in
    elim (Bool-cases (is_active_assistant user_id task_id subtask_id s)) [
      | inr other ↦ rw (other, other) (ap (λ n. 0 + n) rest)
      | inl active ↦
          let over : is_active_assistant user_id task_id subtask_id
                (ended Status.failed now result message s)
              ≡ false =
            ground arith in
          rw (active, over) (ap (λ n. 0 + n) rest)
    ]

-- Where it returns false, no row of the answer is in progress behind it.
pub fail_active_assistant-none :
    (now user_id task_id subtask_id : ℕ) (result : Option Value) (message : Text)
    (db after : Tables)
    → fail_active_assistant now user_id task_id subtask_id result message db ≡ (ok false, after)
    → row_count (is_active_assistant user_id task_id subtask_id) after.subtasks ≡ 0
unfolding fail_active_assistant fail_task
fail_active_assistant-none now user_id task_id subtask_id result message db after h =
    let none = none_active now user_id task_id subtask_id result (some message) db.subtasks in
    ground arith
