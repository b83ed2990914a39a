-- ===== src/Preparation/Sent.antt =====
-- What a message that was sent leaves (prepare_send).
use auto_reign.Prelude.Dict
use auto_reign.Prelude.{
  ◌<◌, [], ◌∷◌, ◌++◌, In, nat_key, ℕ, ◌≡◌, sym, ap, subst, ◌⊎◌, true, false, Option, none, some,
  List, Result, ok, err,
}
use auto_reign.Tasks
use auto_reign.Tasks.{
  Tables, Subtask, Status, RepositoryError, is_active_status, is_assistant, is_task_of, where_rows,
  first_row, create_task, user_row, assistant_row, with_status,
}
use auto_reign.Tasks.Evolution.{IsKeyed}
use auto_reign.Tasks.Turns.{IsFresh}
use auto_reign.Tasks.Runs as TaskRuns
use auto_reign.Contexts.{SubtaskContext}
use auto_reign.Contexts.Requests.{Bound}
use auto_reign.Cancellation.{TaskExecutionCancellationRegistry}
use auto_reign.Cancellation.Filed.{HasObject}
use auto_reign.Preparation.Service.{
  PrepareError, database_error, Services, Data, Service, Moment, Prepared,
}
use auto_reign.Preparation.Send.{ChatSendRequest, task_title, Target, target}
use auto_reign.Preparation.Stages.{Refused, old_target-db, new_target-db}

-- The target is reached by the repository, and no message is touched.
pub target-Run :
    (services : Services) (moment : Moment) (user_id : ℕ) (request : ChatSendRequest)
    (task_id : Option ℕ) (db : Tables) (t : Target)
    → target services moment user_id request task_id db ≡ ok t
    → TaskRuns.Run db t.db × (t.db.subtasks ≡ db.subtasks)
unfolding target create_task
target-Run services moment user_id request none db t h =
    let (agent, same) = new_target-db services moment user_id request db t h in
    let step =
      TaskRuns.task_created moment.task_id moment.now user_id agent (task_title request.message)
        request.model_override db in
    (
      subst (TaskRuns.Run db) (sym same) (TaskRuns.go_on db _ _ step (TaskRuns.rest _)),
      ap (λ (d : Tables). d.subtasks) same,
    )
target-Run services moment user_id request (some task_id) db t h =
    let same = old_target-db services user_id request db (Tasks.get user_id task_id db) t h in
    (subst (TaskRuns.Run db) (sym same) (TaskRuns.rest db), ap (λ (d : Tables). d.subtasks) same)

-- What the session writes: the user's message with its text and the answer to come, behind the
-- messages there were, which stay as they are; and the contexts that the message asks for, bound to it.
pub record Stands (request : ChatSendRequest) (p : Prepared) (before after : Data) : Type 0 where
  pub user : Subtask
  pub assistant : Subtask
  pub rows : after.db.subtasks ≡ before.db.subtasks ++ (user ∷ assistant ∷ [])
  pub keyed : IsKeyed after.db.subtasks
  pub asked : user.prompt ≡ request.message
  pub roles : (is_assistant user.role ≡ false) × (is_assistant assistant.role ≡ true)
  pub statuses : (user.status ≡ Status.completed) × (assistant.status ≡ Status.pending)
  pub tasks : (user.task_id ≡ p.execution.task_id) × (assistant.task_id ≡ p.execution.task_id)
  pub behind :
      (x : Subtask)
      → In x before.db.subtasks
      → x.task_id ≡ user.task_id
      → x.message_id < user.message_id
  pub follows : assistant.parent_id ≡ some user.message_id
  pub answers : assistant.id ≡ p.execution.assistant_subtask_id
  pub ordered : List SubtaskContext
  pub contexts :
      Bound p.execution.user_id request.context_ids user.id before.contexts after.contexts ordered

-- The registry has an object for the execution under its task, neither asked to cancel nor ended.
abbrev pub IsKnown : Prepared → TaskExecutionCancellationRegistry → Type 0
IsKnown p r =
    (i : ℕ) × (Dict.get p.execution.task_id r.by_task ≡ some i)
    × HasObject r i (λ s.
      (s.user_id ≡ p.execution.user_id)
      × (s.task_id ≡ p.execution.task_id)
      × (s.assistant_subtask_id ≡ p.execution.assistant_subtask_id)
      × (s.cancel_flag ≡ false)
      × (s.terminal ≡ none))

-- The ids of the rows that a turn adds are new, and differ.
pub record NewIds (moment : Moment) (rows : List Subtask) : Type 0 where
  pub user_row : IsFresh moment.user_row_id rows
  pub assistant_row : IsFresh moment.assistant_row_id rows
  pub apart : ¬ (moment.user_row_id ≡ moment.assistant_row_id)

abbrev pub HasSent : ChatSendRequest → Service → Result PrepareError Prepared × Service → Type 0
HasSent request service outcome =
    Refused service outcome
    ⊎ ((p : Prepared) × (after : Data) × Stands request p service.data_ after
        × ((outcome ≡ (err database_error, record service { data_ = after }))
            ⊎ ((r : TaskExecutionCancellationRegistry) × (outcome
                  ≡ (ok p, record { data_ = after; registry = r }))
                × IsKnown p r)))
