-- ===== src/Preparation/Service.antt =====
-- What a preparation reads and writes, and what it takes of the other services.
use auto_reign.Prelude.{ℕ, Option, none, some, List, Text, Result, ok, err, ◌>>=◌, map_err}
use auto_reign.Json.{Value}
use auto_reign.Tasks.{Tables, RepositoryError}
use auto_reign.Contexts.{SubtaskContext, ContextError}
use auto_reign.Cancellation.{TaskExecutionCancellationRegistry, prepare}
use auto_reign.History.{RuntimeTaskTurn, TurnError, Base64, runtime_turns}
use auto_reign.TaskExecution.{PreparedTaskExecution, Commit, takes_effect, rolled_back, answer_lost}

-- The codes of the HTTP errors, and what the services that are called raise.
pub data PrepareError : Type 0 where
  task_not_found task_running agent_locked model_override_not_allowed : PrepareError
  subtask_parent_not_found database_error : PrepareError
  retry_error : RepositoryError → PrepareError
  context_error : ContextError → PrepareError
  turn_error : TurnError → PrepareError
  service_error : Text → PrepareError

-- The agent service and the runtime: an agent is known here by its id; a model is a provider with a
-- name; a stored override may not be readable.
pub record Services : Type 0 where
  pub resolve_agent : ℕ → Text → Result PrepareError Text
  pub resolve_model : Option Text → Option Value → Result PrepareError (Text × Text)
  pub read_override : Option Value → Result PrepareError (Option Value)
  pub prepare_turn :
      ℕ → Option Text → Text × Text → List RuntimeTaskTurn → Result PrepareError (Unit {0})
  pub base64 : Base64
  pub loads : Text → Option Value

-- What a session may change.
pub record Data : Type 0 where
  pub db : Tables
  pub contexts : List SubtaskContext

-- The service with its data and its registry.
pub record Service : Type 0 where
  pub data_ : Data
  pub registry : TaskExecutionCancellationRegistry

-- The ids that the database gives to new rows, the clock, and what the database makes of the session.
pub record Moment : Type 0 where
  pub task_id : ℕ
  pub user_row_id : ℕ
  pub assistant_row_id : ℕ
  pub now : ℕ
  pub outcome : Commit

pub record Prepared : Type 0 where
  pub execution : PreparedTaskExecution
  pub user_subtask_id : Option ℕ
  pub user_message_id : Option ℕ

-- `_resolve_agent`
abbrev pub resolve_agent : Services → ℕ → Option Text → Result PrepareError (Option Text)
resolve_agent services user_id none = ok none
resolve_agent services user_id (some agent_id) =
    services.resolve_agent user_id agent_id >>= λ agent. ok (some agent)

-- `_prepare_runtime`
unfoldable pub prepare_runtime :
    Services → ℕ → ℕ → ℕ → ℕ → Option Text → Text × Text → Data → Result PrepareError (Unit {0})
prepare_runtime services user_id task_id cutoff current agent model data_ = do
  turns ← map_err turn_error (
      runtime_turns services.base64 services.loads user_id task_id cutoff current data_.db
        data_.contexts)
  services.prepare_turn user_id agent model turns

-- A session that returned is committed, and its execution is made known. Where it raised, or was rolled
-- back, nothing is changed; where the answer of its commit is lost, the rows are written, and the
-- error leaves the execution unknown.
unfoldable pub committed :
    Commit
    → Result PrepareError (Prepared × Data)
    → Service
    → Result PrepareError Prepared × Service
committed outcome (err e) service = (err e, service)
committed rolled_back (ok (p, data_)) service = (err database_error, service)
committed answer_lost (ok (p, data_)) service =
    (err database_error, record service { data_ = data_ })
committed takes_effect (ok (p, data_)) service = (
  ok p,
  record {
    data_ = data_;
    registry =
        (prepare p.execution.user_id p.execution.task_id p.execution.assistant_subtask_id
          service.registry).1;
  },
)
