-- ===== src/Tasks/Endings.antt =====
-- The end of an answer (finish_assistant and cancel_assistant of task_repository.py).
use auto_reign.Prelude.{
  subst, some, if◌then◌else◌, pos, nat_key, ℕ, ◌≡◌, refl, sym, ◌∙◌, ap, ◌⊎◌, inl, inr, true, false,
  Option, none, List, Text, Result, ok, err, nat_beq, nat_beq_iff, arith, Bool-cases, Result-cases,
}
use auto_reign.Json.{Value}
use auto_reign.Tasks.Rows.{
  RepositoryError, subtask_invalid_status, finish_status_invalid, Status, Subtask, Task, Tables,
  is_active_status, is_terminal_status, update_rows, get_owned_assistant, is_owned,
}
use auto_reign.Tasks.Writes.{
  write_task, write_subtask, with_status, ended, end_assistant, finish_assistant, cancel_assistant,
}
use auto_reign.Tasks.Members.{
  In, In-update, update-In, OwnedAssistant, get_owned_assistant-OwnedAssistant,
}

-- The answer was in progress, and its row and that of its task have the new status.
pub record Ended (now user_id subtask_id : ℕ) (status : Status) (result : Option Value)
    (message : Option Text) (db : Tables) (outcome : Result RepositoryError (Unit {0}) × Tables)
    : Type 0 where
  pub row : Subtask
  pub task : Task
  pub owned : OwnedAssistant user_id subtask_id db row task
  pub active : is_active_status row.status ≡ true
  pub written : outcome ≡ (
    ok tt,
    write_task task.id
        (with_status status now)
        (write_subtask row.id (ended status now result message) db),
  )

-- The call raised, and wrote nothing.
abbrev pub Refused : Tables → Result RepositoryError (Unit {0}) × Tables → Type 0
Refused db outcome = (e : RepositoryError) × (outcome ≡ (err e, db))

pub end_assistant-Ended :
    (now user_id subtask_id : ℕ) (status : Status) (result : Option Value) (message : Option Text)
    (db : Tables)
    → Ended now user_id subtask_id status result message db
        (end_assistant now user_id subtask_id status result message db)
      ⊎ Refused db (end_assistant now user_id subtask_id status result message db)
unfolding end_assistant
end_assistant-Ended now user_id subtask_id status result message db =
    elim (Result-cases (get_owned_assistant user_id subtask_id db)) [
      | inr (e, raised) ↦ inr (e, rw raised refl)
      | inl ((s, t), found) ↦ elim (Bool-cases (is_active_status s.status)) [
        | inr other ↦ inr (subtask_invalid_status, rw (found, other) refl)
        | inl active ↦ inl (record {
          row = s;
          task = t;
          owned = get_owned_assistant-OwnedAssistant user_id subtask_id db s t found;
          active = active;
          written = rw (found, active) refl;
        })
      ]
    ]

-- The user's answer was in progress, and its row and that of its task are rewritten, and no other.
pub record Cancelled (now user_id subtask_id : ℕ) (result : Option Value) (db after : Tables)
    : Type 0 where
  pub row : Subtask
  pub task : Task
  pub owned : OwnedAssistant user_id subtask_id db row task
  pub active : is_active_status row.status ≡ true
  pub new_row :
      In
        (record row {
          status = Status.cancelled;
          progress = pos 100;
          result = result;
          error_message = none;
          completed_at = some now;
        })
        after.subtasks
  pub new_task : In (record task { status = Status.cancelled; updated_at = now }) after.tasks
  pub all_cancelled :
      (s : Subtask) → In s after.subtasks → s.id ≡ subtask_id → s.status ≡ Status.cancelled
  pub other_rows : (s : Subtask) → In s db.subtasks → ¬ (s.id ≡ subtask_id) → In s after.subtasks
  pub other_tasks : (t : Task) → In t db.tasks → ¬ (t.id ≡ task.id) → In t after.tasks

-- An update by id reaches the row that has it, and leaves the others.
module _ {A : Type 0} (id_of : A → ℕ) (f : A → A) (id : ℕ) (rows : List A) (x : A)
    (member : In x rows) where
  picked-In : id_of x ≡ id → In (f x) (update_rows (λ y. nat_beq (id_of y) id) f rows)
  picked-In same =
      let picked : nat_beq (id_of x) id ≡ true = (nat_beq_iff (id_of x) id).1 same in
      subst (λ z. In z (update_rows (λ y. nat_beq (id_of y) id) f rows))
        (ap (λ b. if b then f x else x) picked)
        (update-In (λ y. nat_beq (id_of y) id) f x rows member)

  left-In : ¬ (id_of x ≡ id) → In x (update_rows (λ y. nat_beq (id_of y) id) f rows)
  left-In other = elim (Bool-cases (nat_beq (id_of x) id)) [
    | inl picked ↦ absurd (other ((nat_beq_iff (id_of x) id).0 picked))
    | inr left ↦
        subst (λ z. In z (update_rows (λ y. nat_beq (id_of y) id) f rows))
          (ap (λ b. if b then f x else x) left)
          (update-In (λ y. nat_beq (id_of y) id) f x rows member)
  ]

is_owned-id :
    (user_id subtask_id : ℕ) (s : Subtask) (t : Task)
    → is_owned user_id subtask_id (s, t) ≡ true
    → s.id ≡ subtask_id
is_owned-id user_id subtask_id s t h = ground (arith, nat_beq_iff s.id subtask_id)

ended-status :
    (now id : ℕ) (status : Status) (result : Option Value) (message : Option Text)
    (rows : List Subtask) (s : Subtask)
    → In s (update_rows (λ s. nat_beq s.id id) (ended status now result message) rows)
    → s.id ≡ id
    → s.status ≡ status
ended-status now id status result message rows s member same_id =
    let (x, x_in, s_is) =
      In-update (λ s. nat_beq s.id id) (ended status now result message) s rows member in
    elim (Bool-cases (nat_beq x.id id)) [
      | inl picked ↦
          let now_ended : s ≡ ended status now result message x = s_is ∙ rw picked refl in
          ap (λ (y : Subtask). y.status) now_ended
      | inr other ↦
          let kept : s ≡ x = s_is ∙ rw other refl in
          let no : nat_beq s.id id ≡ false = rw kept other in cc ((nat_beq_iff s.id id).1 same_id)
    ]

-- A cancellation either raises and writes nothing, or finds the user's assistant message in progress:
-- then its row has the status CANCELLED, the given result, no error message, full progress and the
-- time, the row of its task has the status CANCELLED and the time, both are otherwise as they were,
-- and the rows with other ids are unchanged.
pub cancel_assistant-Ended :
    (now user_id subtask_id : ℕ) (result : Option Value) (db : Tables)
    → ((after : Tables) × (cancel_assistant now user_id subtask_id result db ≡ (ok tt, after))
        × Cancelled now user_id subtask_id result db after)
      ⊎ Refused db (cancel_assistant now user_id subtask_id result db)
unfolding cancel_assistant
cancel_assistant-Ended now user_id subtask_id result db =
    elim (end_assistant-Ended now user_id subtask_id Status.cancelled result none db) [
      | inr refused ↦ inr refused
      | inl e ↦
          let owned = e.owned in
          let named : e.row.id ≡ subtask_id =
            is_owned-id user_id subtask_id e.row e.task owned.owned in
          inl (
            _,
            e.written,
            record {
              row = e.row;
              task = e.task;
              owned = owned;
              active = e.active;
              new_row =
                  picked-In (λ (s : Subtask). s.id) (ended Status.cancelled now result none)
                    e.row.id db.subtasks e.row owned.subtask_row refl;
              new_task =
                  picked-In (λ (t : Task). t.id) (with_status Status.cancelled now) e.task.id
                    db.tasks e.task owned.task_row refl;
              all_cancelled = λ s member same_id.
                  ended-status now e.row.id Status.cancelled result none db.subtasks s member
                    (same_id ∙ sym named);
              other_rows = λ s member other.
                  left-In (λ (s : Subtask). s.id) (ended Status.cancelled now result none) e.row.id
                    db.subtasks s member (λ same. other (same ∙ named));
              other_tasks = λ t member other.
                  left-In (λ (t : Task). t.id) (with_status Status.cancelled now) e.task.id db.tasks
                    t member other;
            },
          )
    ]

-- The rows that another call finds after the end are at rest.
ended-at_rest :
    (now id : ℕ) (status : Status) (result : Option Value) (message : Option Text)
    (rows : List Subtask) (s : Subtask)
    → is_terminal_status status ≡ true
    → In s (update_rows (λ s. nat_beq s.id id) (ended status now result message) rows)
    → s.id ≡ id
    → is_active_status s.status ≡ false
ended-at_rest now id status result message rows s terminal member same_id =
    let same = ended-status now id status result message rows s member same_id in ground arith

at_rest-Refused :
    (now user_id subtask_id : ℕ) (status : Status) (result : Option Value) (message : Option Text)
    (db : Tables)
    → ((s : Subtask) → In s db.subtasks → s.id ≡ subtask_id → is_active_status s.status ≡ false)
    → Refused db (end_assistant now user_id subtask_id status result message db)
at_rest-Refused now user_id subtask_id status result message db at_rest =
    elim (end_assistant-Ended now user_id subtask_id status result message db) [
      | inr refused ↦ refused
      | inl e ↦
          let owned = e.owned in
          let named : e.row.id ≡ subtask_id =
            is_owned-id user_id subtask_id e.row e.task owned.owned in
          cc (at_rest e.row owned.subtask_row named, e.active)
    ]

ended-Refused :
    (now later user_id subtask_id other_user : ℕ) (status other_status : Status)
    (result other_result : Option Value) (message other_message : Option Text) (db after : Tables)
    → is_terminal_status status ≡ true
    → end_assistant now user_id subtask_id status result message db ≡ (ok tt, after)
    → Refused after
        (end_assistant later other_user subtask_id other_status other_result other_message after)
ended-Refused now later user_id subtask_id other_user status other_status result other_result
      message other_message db after terminal done =
    elim (end_assistant-Ended now user_id subtask_id status result message db) [
      | inr (e, raised) ↦ cc
      | inl e ↦
          let owned = e.owned in
          let named : e.row.id ≡ subtask_id =
            is_owned-id user_id subtask_id e.row e.task owned.owned in
          let written : after
              ≡ write_task e.task.id (with_status status now)
                  (write_subtask e.row.id (ended status now result message) db) =
            ap (λ (outcome : Result RepositoryError (Unit {0}) × Tables). outcome.1)
              (sym done ∙ e.written) in
          at_rest-Refused later other_user subtask_id other_status other_result other_message after
            (λ s member same_id.
              ended-at_rest now e.row.id status result message db.subtasks s terminal
                (rw written at member) (same_id ∙ sym named))
    ]

finish_assistant-Refused :
    (later user_id subtask_id : ℕ) (status : Status) (result : Option Value) (message : Option Text)
    (db : Tables)
    → ((s : Status) → Refused db (end_assistant later user_id subtask_id s result message db))
    → Refused db (finish_assistant later user_id subtask_id status result message db)
unfolding finish_assistant
finish_assistant-Refused later user_id subtask_id Status.completed result message db h =
    h Status.completed
finish_assistant-Refused later user_id subtask_id Status.failed result message db h =
    h Status.failed
finish_assistant-Refused later user_id subtask_id Status.pending result message db h =
    (finish_status_invalid, refl)
finish_assistant-Refused later user_id subtask_id Status.running result message db h =
    (finish_status_invalid, refl)
finish_assistant-Refused later user_id subtask_id Status.cancelled result message db h =
    (finish_status_invalid, refl)

-- An answer ends once: right after a cancellation that succeeded, a further cancellation and a
-- finish of the same message, by whatever user and with whatever status, raise and write nothing.
pub cancel_assistant-once :
    (now later user_id other_user subtask_id : ℕ) (status : Status) (result other : Option Value)
    (message : Option Text) (db after : Tables)
    → cancel_assistant now user_id subtask_id result db ≡ (ok tt, after)
    → Refused after (cancel_assistant later other_user subtask_id other after)
      × Refused after (finish_assistant later other_user subtask_id status other message after)
unfolding cancel_assistant
cancel_assistant-once now later user_id other_user subtask_id status result other message db after
      done =
    (
      ended-Refused now later user_id subtask_id other_user Status.cancelled Status.cancelled result
          other none none db after refl done,
      finish_assistant-Refused later other_user subtask_id status other message after (λ s.
          ended-Refused now later user_id subtask_id other_user Status.cancelled s result other none
            message db after refl done),
    )
