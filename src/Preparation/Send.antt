-- ===== src/Preparation/Send.antt =====
-- `prepare_send`
use auto_reign.Prelude.{
  ℕ, Bool, true, false, not, Option, none, some, List, [], ◌∷◌, ◌++◌, Text, codes, Result, ok, err,
  ◌>>=◌, ◌>>◌, guard, take, is_space, if◌then◌else◌, text_key, ◌==◌,
}
use auto_reign.Json.{Value}
use auto_reign.Tasks
use auto_reign.Tasks.{
  Tables, Task, Subtask, RepositoryError, is_active_status, create_task, create_turn,
}
use auto_reign.Contexts.{SubtaskContext, ContextError, bind_drafts}
use auto_reign.TaskExecution.{PreparedTaskExecution}
use auto_reign.Preparation.Service.{
  PrepareError, task_not_found, task_running, agent_locked, model_override_not_allowed, retry_error,
  context_error, Services, Data, Service, Moment, Prepared, resolve_agent, prepare_runtime,
  committed,
}

pub record ChatSendRequest : Type 0 where
  pub task_id : Option ℕ
  pub agent_id : Option Text
  pub model_override : Option Value
  pub message : Text
  pub context_ids : List ℕ

abbrev max_resource_name_length : ℕ
max_resource_name_length = 120

abbrev before_first : ℕ → List Text → List Text
before_first c [] = (c ∷ []) ∷ []
before_first c (word ∷ words) = (c ∷ word) ∷ words

split_spaces : Text → List Text
split_spaces [] = [] ∷ []
split_spaces (c ∷ s) =
    let rest = split_spaces s in if is_space c then [] ∷ rest else before_first c rest

-- The words one after another, with a space between them; the empty ones are none.
join_words : List Text → Text
join_words [] = []
join_words ([] ∷ words) = join_words words
join_words ((c ∷ word) ∷ words) =
    let rest = join_words words in (c ∷ word) ++ elim rest [ [] ↦ [] | d ∷ later ↦ 32 ∷ d ∷ later ]

abbrev or_new : Text → Text
or_new [] = codes "New task"
or_new (c ∷ title) = c ∷ title

-- `_task_title`: `split` without an argument drops the spaces at both ends too.
unfoldable pub task_title : Text → Text
unfolding split_spaces join_words
task_title message = or_new (take max_resource_name_length (join_words (split_spaces message)))

-- What a call of the repository returned, and the rows behind it.
unfoldable pub stored :
    {A : Type 0} → Result RepositoryError A × Tables → Result PrepareError (A × Tables)
stored (ok a, db) = ok (a, db)
stored (err e, db) = err (retry_error e)

unfoldable pub bound_contexts :
    Result ContextError (List SubtaskContext) × List SubtaskContext
    → Result PrepareError (List SubtaskContext)
bound_contexts (ok ordered, contexts) = ok contexts
bound_contexts (err e, contexts) = err (context_error e)

-- The task of the message with its agent and its model, and the rows behind its making.
pub record Target : Type 0 where
  pub task : Task
  pub agent : Option Text
  pub model : Text × Text
  pub db : Tables

unfoldable pub new_target :
    Services → Moment → ℕ → ChatSendRequest → Tables → Result PrepareError Target
new_target services moment user_id request db = do
  agent ← resolve_agent services user_id request.agent_id
  model ← services.resolve_model agent request.model_override
  (task, after) ← stored (
      create_task moment.task_id moment.now user_id agent (task_title request.message)
        request.model_override db)
  ok (record { task = task; agent = agent; model = model; db = after })

abbrev pub is_none {ℓ} : {A : Type ℓ} → Option A → Bool
is_none none = true
is_none (some a) = false

abbrev pub same_agent : Option Text → Option Text → Bool
same_agent none agent = true
same_agent (some a) none = false
same_agent (some a) (some b) = a == b

unfoldable pub old_target :
    Services → ℕ → ChatSendRequest → Tables → Option Task → Result PrepareError Target
old_target services user_id request db none = err task_not_found
old_target services user_id request db (some task) = do
  guard (not (is_active_status task.status)) task_running
  guard (same_agent request.agent_id task.agent_id) agent_locked
  guard (is_none request.model_override) model_override_not_allowed
  agent ← resolve_agent services user_id task.agent_id
  override ← services.read_override task.model_override_json
  model ← services.resolve_model agent override
  ok (record { task = task; agent = agent; model = model; db = db })

unfoldable pub target :
    Services → Moment → ℕ → ChatSendRequest → Option ℕ → Tables → Result PrepareError Target
target services moment user_id request none db = new_target services moment user_id request db
target services moment user_id request (some task_id) db =
    old_target services user_id request db (Tasks.get user_id task_id db)

-- From the runtime's turns on.
unfoldable pub with_runtime :
    Services → ℕ → Target → Subtask → Subtask → Data → Result PrepareError (Prepared × Data)
with_runtime services user_id t user assistant data_ = do
  prepare_runtime services user_id t.task.id user.message_id user.id t.agent t.model data_
  let execution : PreparedTaskExecution = record {
    user_id = user_id;
    task_id = t.task.id;
    assistant_subtask_id = assistant.id;
    provider = t.model.0;
    model = t.model.1;
  }
  let prepared : Prepared = record {
    execution = execution;
    user_subtask_id = some user.id;
    user_message_id = some user.message_id;
  }
  ok (prepared, data_)

-- From the turn on.
unfoldable pub send_turn :
    Services
    → Moment
    → ℕ
    → ChatSendRequest
    → List SubtaskContext
    → Target
    → Result PrepareError (Prepared × Data)
send_turn services moment user_id request contexts t = do
  ((user, assistant), after) ← stored (
      create_turn moment.user_row_id moment.assistant_row_id moment.now t.task request.message t.db)
  bound ← bound_contexts (bind_drafts user_id request.context_ids user.id contexts)
  with_runtime services user_id t user assistant (record { db = after; contexts = bound })

unfoldable pub send_session :
    Services → Moment → ℕ → ChatSendRequest → Data → Result PrepareError (Prepared × Data)
send_session services moment user_id request data_ = do
  t ← target services moment user_id request request.task_id data_.db
  send_turn services moment user_id request data_.contexts t

unfoldable pub prepare_send :
    Services → Moment → ℕ → ChatSendRequest → Service → Result PrepareError Prepared × Service
prepare_send services moment user_id request service =
    committed moment.outcome (send_session services moment user_id request service.data_) service
