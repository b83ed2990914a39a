-- ===== src/Preparation/Again.antt =====
-- What is refused right after a message that was sent (prepare_send, prepare_retry).
use auto_reign.Prelude.{
  ℕ, ◌≡◌, refl, sym, ◌∙◌, ap, subst, inl, inr, true, Option, none, some, Text, Result, ok, err,
  ◌>>=◌, >>=-eq-ok, nat_beq, nat_beq_iff, if◌then◌else◌, arith, Bool-cases, In,
}
use auto_reign.Tasks
use auto_reign.Tasks.{
  Tables, Task, Subtask, Status, RepositoryError, is_active_status, is_task_of, where_rows,
  first_row, create_task, create_turn, user_row, assistant_row, max_message_id, with_status,
}
use auto_reign.Tasks.Members.{In-where, In-first, In-update}
use auto_reign.TaskExecution.{Commit, takes_effect, rolled_back, answer_lost}
use auto_reign.Preparation.Service.{
  PrepareError, task_not_found, task_running, Services, Data, Service, Moment, Prepared, committed,
}
use auto_reign.Preparation.Send.{
  ChatSendRequest, old_target, target, send_turn, send_session, prepare_send,
}
use auto_reign.Preparation.Retry.{idle_task, retry_session, prepare_retry}
use auto_reign.Preparation.Stages.{Refused, send_turn-Turned}

-- Every row of the task is in progress.
abbrev pub InProgress : ℕ → Tables → Type 0
InProgress task_id db =
    (t : Task) → In t db.tasks → t.id ≡ task_id → is_active_status t.status ≡ true

create_turn-InProgress :
    (user_row_id assistant_row_id now : ℕ) (task : Task) (prompt : Text) (db : Tables)
    → InProgress task.id (create_turn user_row_id assistant_row_id now task prompt db).1
unfolding create_turn
create_turn-InProgress user_row_id assistant_row_id now task prompt db t member same =
    let (x, x_in, t_is) =
      In-update (λ (t : Task). nat_beq t.id task.id) (with_status Status.pending now) t db.tasks
        member in
    elim (Bool-cases (nat_beq x.id task.id)) [
      | inl picked ↦
          let written : t ≡ with_status Status.pending now x =
            t_is ∙ ap (λ b. if b then with_status Status.pending now x else x) picked in
          ap (λ (t : Task). is_active_status t.status) written
      | inr other ↦
          let kept : t ≡ x =
            t_is ∙ ap (λ b. if b then with_status Status.pending now x else x) other in
          let x_id : x.id ≡ task.id = sym (ap (λ (t : Task). t.id) kept) ∙ same in
          cc ((nat_beq_iff x.id task.id).1 x_id)
    ]

get-active :
    (user_id task_id : ℕ) (db : Tables) (t : Task)
    → InProgress task_id db
    → Tasks.get user_id task_id db ≡ some t
    → is_active_status t.status ≡ true
unfolding Tasks.get
get-active user_id task_id db t progress found =
    let (member, holds) = In-where (is_task_of user_id task_id) t db.tasks (In-first t _ found) in
    progress t member (ground (arith, nat_beq_iff t.id task_id))

old_target-refused :
    (services : Services) (user_id : ℕ) (request : ChatSendRequest) (db : Tables)
    (found : Option Task)
    → ((t : Task) → found ≡ some t → is_active_status t.status ≡ true)
    → (e : PrepareError) × (old_target services user_id request db found ≡ err e)
unfolding old_target
old_target-refused services user_id request db none h = (task_not_found, refl)
old_target-refused services user_id request db (some t) h =
    let active = h t refl in (task_running, ground arith)

idle_task-refused :
    (found : Option Task)
    → ((t : Task) → found ≡ some t → is_active_status t.status ≡ true)
    → (e : PrepareError) × (idle_task found ≡ err e)
unfolding idle_task
idle_task-refused none h = (task_not_found, refl)
idle_task-refused (some t) h = let active = h t refl in (task_running, ground arith)

committed-error :
    (outcome : Commit) (e : PrepareError) (service : Service)
    → committed outcome (err e) service ≡ (err e, service)
unfolding committed
committed-error outcome e service = refl

send-Refused :
    (services : Services) (moment : Moment) (user_id : ℕ) (request : ChatSendRequest)
    (service : Service) (task_id : ℕ)
    → InProgress task_id service.data_.db
    → request.task_id ≡ some task_id
    → Refused service (prepare_send services moment user_id request service)
unfolding prepare_send send_session target
send-Refused services moment user_id request service task_id progress asks =
    let (e, raised) =
      old_target-refused services user_id request service.data_.db
        (Tasks.get user_id task_id service.data_.db)
        (λ t found. get-active user_id task_id service.data_.db t progress found) in
    let fails : target services moment user_id request request.task_id service.data_.db ≡ err e =
      ap (λ id. target services moment user_id request id service.data_.db) asks ∙ raised in
    (
      e,
      ap
            (λ r.
              committed moment.outcome
                (r >>= send_turn services moment user_id request service.data_.contexts) service)
            fails
          ∙ committed-error moment.outcome e service,
    )

retry-Refused :
    (services : Services) (moment : Moment) (user_id task_id subtask_id : ℕ) (service : Service)
    → InProgress task_id service.data_.db
    → Refused service (prepare_retry services moment user_id task_id subtask_id service)
unfolding prepare_retry retry_session
retry-Refused services moment user_id task_id subtask_id service progress =
    let (e, raised) =
      idle_task-refused (Tasks.get user_id task_id service.data_.db)
        (λ t found. get-active user_id task_id service.data_.db t progress found) in
    (e, rw raised (committed-error moment.outcome e service))

committed-ok :
    (outcome : Commit) (session : Result PrepareError (Prepared × Data)) (service after : Service)
    (p : Prepared)
    → committed outcome session service ≡ (ok p, after)
    → session ≡ ok (p, after.data_)
unfolding committed
committed-ok outcome (err e) service after p h = ground arith
committed-ok rolled_back (ok (q, d)) service after p h = ground arith
committed-ok answer_lost (ok (q, d)) service after p h = ground arith
committed-ok takes_effect (ok (q, d)) service after p h = ground arith

sent-InProgress :
    (services : Services) (moment : Moment) (user_id : ℕ) (request : ChatSendRequest)
    (service after : Service) (p : Prepared)
    → prepare_send services moment user_id request service ≡ (ok p, after)
    → InProgress p.execution.task_id after.data_.db
unfolding prepare_send send_session
sent-InProgress services moment user_id request service after p h =
    let (t, sends, reached) =
      >>=-eq-ok (target services moment user_id request request.task_id service.data_.db) _ (
        committed-ok moment.outcome (send_session services moment user_id request service.data_)
          service after p h) in
    let turned =
      send_turn-Turned services moment user_id request service.data_ t p after.data_ sends in
    let progress =
      create_turn-InProgress moment.user_row_id moment.assistant_row_id moment.now t.task
        request.message t.db in
    subst (λ id. InProgress id after.data_.db) (sym turned.task_id)
      (subst (InProgress t.task.id) (sym turned.db) progress)

-- Right after a message that was sent, a further message to its task and a retry of any of the task's
-- answers, by whatever user, raise and change nothing.
pub prepare_send-one_generation :
    (services : Services) (moment later : Moment) (user_id other_user subtask_id : ℕ)
    (request again : ChatSendRequest) (service after : Service) (p : Prepared)
    → prepare_send services moment user_id request service ≡ (ok p, after)
    → again.task_id ≡ some p.execution.task_id
    → Refused after (prepare_send services later other_user again after)
      × Refused after (prepare_retry services later other_user p.execution.task_id subtask_id after)
prepare_send-one_generation services moment later user_id other_user subtask_id request again
      service after p sent asks =
    let progress = sent-InProgress services moment user_id request service after p sent in
    (
      send-Refused services later other_user again after p.execution.task_id progress asks,
      retry-Refused services later other_user p.execution.task_id subtask_id after progress,
    )
