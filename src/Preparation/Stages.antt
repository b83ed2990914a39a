-- ===== src/Preparation/Stages.antt =====
-- The stages of a message that is sent.
use auto_reign.Prelude.{
  ℕ, ◌≡◌, sym, ◌∙◌, ap, inl, inr, Option, none, some, List, Text, Result, ok, err, arith,
  Result-cases,
}
use auto_reign.Tasks.{
  Tables, Task, Subtask, create_task, create_turn, user_row, assistant_row, max_message_id,
}
use auto_reign.Contexts.{SubtaskContext, ContextError, bind_drafts}
use auto_reign.Preparation.Service.{
  PrepareError, Services, Data, Service, Moment, Prepared, resolve_agent, prepare_runtime,
}
use auto_reign.Preparation.Send.{
  ChatSendRequest, task_title, stored, bound_contexts, Target, new_target, old_target, with_runtime,
  send_turn,
}

-- The call raised, and changed nothing.
abbrev pub Refused : Service → Result PrepareError Prepared × Service → Type 0
Refused service outcome = (e : PrepareError) × (outcome ≡ (err e, service))

-- From the task on, what the session has written.
pub record Turned (services : Services) (moment : Moment) (user_id : ℕ) (request : ChatSendRequest)
    (data_ : Data) (t : Target) (p : Prepared) (after : Data) : Type 0 where
  pub db :
      after.db
      ≡ (create_turn moment.user_row_id moment.assistant_row_id moment.now t.task request.message
          t.db).1
  pub contexts :
      (ordered : List SubtaskContext) × (bind_drafts user_id request.context_ids moment.user_row_id
          data_.contexts
        ≡ (ok ordered, after.contexts))
  pub task_id : p.execution.task_id ≡ t.task.id
  pub owner : p.execution.user_id ≡ user_id
  pub answer : p.execution.assistant_subtask_id ≡ moment.assistant_row_id

bound_contexts-ok :
    (m : Result ContextError (List SubtaskContext) × List SubtaskContext)
    (contexts : List SubtaskContext)
    → bound_contexts m ≡ ok contexts
    → (ordered : List SubtaskContext) × (m ≡ (ok ordered, contexts))
unfolding bound_contexts
bound_contexts-ok (ok ordered, rows) contexts h =
    let same : rows ≡ contexts = ground arith in (ordered, ap (λ r. (ok ordered, r)) same)
bound_contexts-ok (err e, rows) contexts h = ground arith

pub with_runtime-ok :
    (services : Services) (user_id : ℕ) (t : Target) (user assistant : Subtask) (data_ after : Data)
    (p : Prepared)
    → with_runtime services user_id t user assistant data_ ≡ ok (p, after)
    → (after ≡ data_)
      × (p.execution.task_id ≡ t.task.id)
      × (p.execution.user_id ≡ user_id)
      × (p.execution.assistant_subtask_id ≡ assistant.id)
unfolding with_runtime
with_runtime-ok services user_id t user assistant data_ after p h =
    elim (Result-cases
      (prepare_runtime services user_id t.task.id user.message_id user.id t.agent t.model data_)) [
        | inr (e, raised) ↦ ground arith
        | inl (_, returned) ↦ (ground arith, ground arith, ground arith, ground arith)
      ]

pub send_turn-Turned :
    (services : Services) (moment : Moment) (user_id : ℕ) (request : ChatSendRequest) (data_ : Data)
    (t : Target) (p : Prepared) (after : Data)
    → send_turn services moment user_id request data_.contexts t ≡ ok (p, after)
    → Turned services moment user_id request data_ t p after
unfolding send_turn create_turn stored
send_turn-Turned services moment user_id request data_ t p after h =
    let previous = max_message_id t.task.id t.db.subtasks in
    let user = user_row moment.user_row_id moment.now t.task previous request.message in
    let assistant = assistant_row moment.assistant_row_id t.task previous in
    let db =
      (create_turn moment.user_row_id moment.assistant_row_id moment.now t.task request.message
        t.db).1 in
    elim (Result-cases (
      bound_contexts (bind_drafts user_id request.context_ids moment.user_row_id data_.contexts))) [
        | inr (e, raised) ↦ ground arith
        | inl (bound, returned) ↦
            let (ordered, binds) =
              bound_contexts-ok
                (bind_drafts user_id request.context_ids moment.user_row_id data_.contexts) bound
                returned in
            let ends : with_runtime services user_id t user assistant
                  (record { db = db; contexts = bound })
                ≡ ok (p, after) =
              rw returned at h in
            let (same, task, owner, answer) =
              with_runtime-ok services user_id t user assistant
                (record { db = db; contexts = bound }) after p ends in
            record {
              db = ap (λ (d : Data). d.db) same;
              contexts = (ordered, binds ∙ ap (λ (d : Data). (ok ordered, d.contexts)) (sym same));
              task_id = task;
              owner = owner;
              answer = answer;
            }
      ]

-- Where the rows of the target come from: from the making of its task, or unchanged.
pub old_target-db :
    (services : Services) (user_id : ℕ) (request : ChatSendRequest) (db : Tables)
    (found : Option Task) (t : Target)
    → old_target services user_id request db found ≡ ok t
    → t.db ≡ db
unfolding old_target
old_target-db services user_id request db none t h = ground arith
old_target-db services user_id request db (some task) t h =
    elim (Result-cases (resolve_agent services user_id task.agent_id)) [
      | inr (e, raised) ↦ ground arith
      | inl (agent, resolved) ↦
          elim (Result-cases (services.read_override task.model_override_json)) [
            | inr (e, raised) ↦ ground arith
            | inl (override, read) ↦ elim (Result-cases (services.resolve_model agent override)) [
              | inr (e, raised) ↦ ground arith
              | inl (model, chosen) ↦ ground arith
            ]
          ]
    ]

pub new_target-db :
    (services : Services) (moment : Moment) (user_id : ℕ) (request : ChatSendRequest) (db : Tables)
    (t : Target)
    → new_target services moment user_id request db ≡ ok t
    → (agent : Option Text) × (t.db
        ≡ (create_task moment.task_id moment.now user_id agent
            (task_title request.message)
            request.model_override
            db).1)
unfolding new_target create_task stored
new_target-db services moment user_id request db t h =
    elim (Result-cases (resolve_agent services user_id request.agent_id)) [
      | inr (e, raised) ↦ ground arith
      | inl (agent, resolved) ↦
          elim (Result-cases (services.resolve_model agent request.model_override)) [
            | inr (e, raised) ↦ ground arith
            | inl (model, chosen) ↦ (agent, ground arith)
          ]
    ]
