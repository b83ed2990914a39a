-- ===== src/Preparation/Retry.antt =====
-- `prepare_retry`
use auto_reign.Prelude.{
  ℕ, Bool, false, not, ◌&&◌, Option, none, some, List, Result, ok, err, ◌>>=◌, ◌>>◌, guard, leb,
  nat_beq,
}
use auto_reign.Tasks
use auto_reign.Tasks.{
  Tables, Task, Subtask, Role, RepositoryError, is_active_status, is_assistant, where_rows,
  first_row, order_rows, reset_failed_assistant,
}
use auto_reign.TaskExecution.{PreparedTaskExecution}
use auto_reign.Preparation.Service.{
  PrepareError, task_not_found, task_running, subtask_parent_not_found, Services, Data, Service,
  Moment, Prepared, resolve_agent, prepare_runtime, committed,
}
use auto_reign.Preparation.Send.{stored}

abbrev is_parent : ℕ → ℕ → Option ℕ → Subtask → Bool
is_parent user_id task_id none s = false
is_parent user_id task_id (some message_id) s =
    nat_beq s.task_id task_id
    && (nat_beq s.user_id user_id && (not (is_assistant s.role) && nat_beq s.message_id message_id))

abbrev id_ge : Subtask → Subtask → Bool
id_ge a b = leb b.id a.id

-- The user's message that the answer belongs to.
unfoldable pub parent_user : ℕ → ℕ → Option ℕ → List Subtask → Result PrepareError Subtask
parent_user user_id task_id parent_id rows =
    elim (first_row (order_rows id_ge (where_rows (is_parent user_id task_id parent_id) rows))) [
      | none ↦ err subtask_parent_not_found
      | some s ↦ ok s
    ]

unfoldable pub idle_task : Option Task → Result PrepareError Task
idle_task none = err task_not_found
idle_task (some task) = do guard (not (is_active_status task.status)) task_running; ok task

-- From the answer that is reset on. The task's own columns were read before.
unfoldable pub retry_answer :
    Services → ℕ → Task → Subtask → Data → Result PrepareError (Prepared × Data)
retry_answer services user_id task assistant data_ = do
  parent ← parent_user user_id task.id assistant.parent_id data_.db.subtasks
  agent ← resolve_agent services user_id task.agent_id
  override ← services.read_override task.model_override_json
  model ← services.resolve_model agent override
  prepare_runtime services user_id task.id assistant.message_id parent.id agent model data_
  let execution : PreparedTaskExecution = record {
    user_id = user_id;
    task_id = task.id;
    assistant_subtask_id = assistant.id;
    provider = model.0;
    model = model.1;
  }
  let prepared : Prepared = record {
    execution = execution;
    user_subtask_id = none;
    user_message_id = none;
  }
  ok (prepared, data_)

unfoldable pub retry_session :
    Services → Moment → ℕ → ℕ → ℕ → Data → Result PrepareError (Prepared × Data)
retry_session services moment user_id task_id subtask_id data_ = do
  task ← idle_task (Tasks.get user_id task_id data_.db)
  (assistant, after) ←
      stored (reset_failed_assistant moment.now user_id task_id subtask_id data_.db)
  retry_answer services user_id task assistant (record data_ { db = after })

unfoldable pub prepare_retry :
    Services → Moment → ℕ → ℕ → ℕ → Service → Result PrepareError Prepared × Service
prepare_retry services moment user_id task_id subtask_id service =
    committed moment.outcome
      (retry_session services moment user_id task_id subtask_id service.data_) service
