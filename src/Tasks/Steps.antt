-- ===== src/Tasks/Steps.antt =====
-- What each operation on an assistant does to the rows of messages.
use auto_reign.Prelude.{
  ℕ, ◌≡◌, refl, inl, inr, true, Option, none, some, Text, nat_key, arith, Bool-cases, Result-cases,
}
use auto_reign.Prelude.Options.{Option-cases}
use auto_reign.Json.{Value}
use auto_reign.Tasks.Rows.{
  Status, Tables, is_active_status, is_terminal_status, is_assistant, is_failed, is_pending,
  where_rows, first_row, get, get_owned_assistant,
}
use auto_reign.Tasks.Writes.{
  started, mark_running, ended, end_assistant, finish_assistant, cancel_assistant,
  is_active_assistant, fail_task, fail_active_assistant, require_task, is_subtask_of, reset,
  reset_failed_assistant, task_or_error, subtask_or_error,
}
use auto_reign.Tasks.Members.{In-where, In-first, get_owned_assistant-OwnedAssistant}
use auto_reign.Tasks.Evolution.{
  IsKeyed, Change, same, updated, write-Change, started-Evolved, ended-Evolved, reset-Evolved,
}

abbrev pub Changes : Tables → Tables → Type 0
Changes db after = Change db.subtasks after.subtasks

pub mark_running-Changes :
    (now user_id subtask_id : ℕ) (db : Tables)
    → IsKeyed db.subtasks
    → Changes db (mark_running now user_id subtask_id db).1
unfolding mark_running
mark_running-Changes now user_id subtask_id db keyed =
    elim (Result-cases (get_owned_assistant user_id subtask_id db)) [
      | inr (e, raised) ↦ rw raised (same refl)
      | inl ((s, t), found) ↦ elim (Bool-cases (is_pending s.status)) [
        | inr other ↦ rw (found, other) (same refl)
        | inl pending ↦
            let owned = get_owned_assistant-OwnedAssistant user_id subtask_id db s t found in
            rw (found, pending)
              (write-Change s started db.subtasks keyed owned.subtask_row (λ x. (refl, refl, refl))
                (started-Evolved s pending))
      ]
    ]

pub end_assistant-Changes :
    (now user_id subtask_id : ℕ) (status : Status) (result : Option Value) (message : Option Text)
    (db : Tables)
    → IsKeyed db.subtasks
    → is_terminal_status status ≡ true
    → Changes db (end_assistant now user_id subtask_id status result message db).1
unfolding end_assistant
end_assistant-Changes now user_id subtask_id status result message db keyed terminal =
    elim (Result-cases (get_owned_assistant user_id subtask_id db)) [
      | inr (e, raised) ↦ rw raised (same refl)
      | inl ((s, t), found) ↦ elim (Bool-cases (is_active_status s.status)) [
        | inr other ↦ rw (found, other) (same refl)
        | inl active ↦
            let owned = get_owned_assistant-OwnedAssistant user_id subtask_id db s t found in
            rw (found, active)
              (write-Change s (ended status now result message) db.subtasks keyed owned.subtask_row
                (λ x. (refl, refl, refl))
                (ended-Evolved s status now result message active terminal))
      ]
    ]

pub finish_assistant-Changes :
    (now user_id subtask_id : ℕ) (status : Status) (result : Option Value) (message : Option Text)
    (db : Tables)
    → IsKeyed db.subtasks
    → Changes db (finish_assistant now user_id subtask_id status result message db).1
unfolding finish_assistant
finish_assistant-Changes now user_id subtask_id Status.completed result message db keyed =
    end_assistant-Changes now user_id subtask_id Status.completed result message db keyed refl
finish_assistant-Changes now user_id subtask_id Status.failed result message db keyed =
    end_assistant-Changes now user_id subtask_id Status.failed result message db keyed refl
finish_assistant-Changes now user_id subtask_id Status.pending result message db keyed = same refl
finish_assistant-Changes now user_id subtask_id Status.running result message db keyed = same refl
finish_assistant-Changes now user_id subtask_id Status.cancelled result message db keyed = same refl

pub cancel_assistant-Changes :
    (now user_id subtask_id : ℕ) (result : Option Value) (db : Tables)
    → IsKeyed db.subtasks
    → Changes db (cancel_assistant now user_id subtask_id result db).1
unfolding cancel_assistant
cancel_assistant-Changes now user_id subtask_id result db keyed =
    end_assistant-Changes now user_id subtask_id Status.cancelled result none db keyed refl

fail_task-subtasks :
    (now user_id task_id : ℕ) (db : Tables)
    → (fail_task now user_id task_id db).1.subtasks ≡ db.subtasks
unfolding fail_task
fail_task-subtasks now user_id task_id db = ground arith

pub fail_active_assistant-Changes :
    (now user_id task_id subtask_id : ℕ) (result : Option Value) (message : Text) (db : Tables)
    → Changes db (fail_active_assistant now user_id task_id subtask_id result message db).1
unfolding fail_active_assistant
fail_active_assistant-Changes now user_id task_id subtask_id result message db =
    updated (is_active_assistant user_id task_id subtask_id)
      (ended Status.failed now result (some message)) (λ x. (refl, refl, refl))
      (λ x found active.
        ended-Evolved x Status.failed now result (some message) (ground arith) refl)
      (ground (arith, fail_task-subtasks now user_id task_id))

pub reset_failed_assistant-Changes :
    (now user_id task_id subtask_id : ℕ) (db : Tables)
    → IsKeyed db.subtasks
    → Changes db (reset_failed_assistant now user_id task_id subtask_id db).1
unfolding reset_failed_assistant require_task task_or_error subtask_or_error
reset_failed_assistant-Changes now user_id task_id subtask_id db keyed =
    elim (Option-cases (get user_id task_id db)) [
      | inl missing ↦ rw missing (same refl)
      | inr (t, task_found) ↦
          elim (Option-cases
            (first_row (where_rows (is_subtask_of user_id t.id subtask_id) db.subtasks))) [
              | inl missing ↦ rw (task_found, missing) (same refl)
              | inr (s, found) ↦ elim (Bool-cases (is_assistant s.role)) [
                | inr other ↦ rw (task_found, found, other) (same refl)
                | inl role ↦ elim (Bool-cases (is_failed s.status)) [
                  | inr other ↦ rw (task_found, found, role, other) (same refl)
                  | inl failed ↦
                      rw (task_found, found, role, failed)
                        (write-Change s reset db.subtasks keyed
                          (In-where (is_subtask_of user_id t.id subtask_id) s db.subtasks
                            (In-first s _ found)).0
                          (λ x. (refl, refl, refl)) (reset-Evolved s failed))
                ]
              ]
            ]
    ]
