-- ===== src/History/Examples.antt =====
-- A question and an answer that failed.
use auto_reign.Prelude.{◌≡◌, refl, true, none, some, List, [], ◌∷◌, map, codes, ok}
use auto_reign.Json.{Value, str, object, end, field}
use auto_reign.Tasks.{Status, Task, Tables, user_row, assistant_row, list_subtasks}
use auto_reign.Contexts.{list_runtime_for_subtasks}
use auto_reign.History.Projector.{project_assistant}
use auto_reign.History.Projection.{Base64}
use auto_reign.History.Turns.{
  RuntimeTaskTurn, user_turn, runtime_turns, turns_of, contexts_by_subtask, answers_from,
  with_answers, up_to,
}
use auto_reign.History.Replay.{IsReplayed, project_assistant-IsReplayed}
use auto_reign.History.Order.{asked_in, asked_by, runtime_turns-asked}

abbrev stored : Value
stored = object (field (some (codes "value")) (str (codes "Half")) end)

project_assistant-IsReplayed_example :
    IsReplayed Status.failed
      (some stored)
      (project_assistant (λ s. none) Status.failed (some stored))
project_assistant-IsReplayed_example =
    project_assistant-IsReplayed (λ s. none) Status.failed (some stored)

abbrev task : Task
task = record {
  id = 7;
  user_id = 3;
  agent_id = none;
  name = codes "Notes";
  status = Status.failed;
  model_override_json = none;
  is_active = true;
  created_at = 100;
  updated_at = 100;
}

abbrev db : Tables
db = record {
  tasks = task ∷ [];
  subtasks = user_row 1 110 task none (codes "What is new?") ∷ assistant_row 2 task none ∷ [];
}

abbrev base64 : Base64
base64 s = true

abbrev turns : List RuntimeTaskTurn
turns = user_turn [] (user_row 1 110 task none (codes "What is new?")) ∷ []

turns_ok : runtime_turns base64 (λ s. none) 3 7 5 1 db [] ≡ ok turns
unfolding runtime_turns list_subtasks contexts_by_subtask turns_of project_assistant answers_from
    with_answers list_runtime_for_subtasks
turns_ok = refl

runtime_turns-asked_example : map asked_in turns ≡ asked_by (up_to 5 (list_subtasks 3 7 none db))
runtime_turns-asked_example = runtime_turns-asked base64 (λ s. none) 3 7 5 1 db [] turns turns_ok
