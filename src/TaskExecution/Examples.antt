-- ===== src/TaskExecution/Examples.antt =====
-- An execution whose runtime stream ends without an answer, while its reader stays.
use auto_reign.Prelude.{refl, true, false, none, [], ◌∷◌, codes, ok}
use auto_reign.Reducer.{Python, new}
use auto_reign.Tasks.{Task, Status, Tables, create_turn}
use auto_reign.Cancellation.{new_state}
use auto_reign.TaskExecution.World.{PreparedTaskExecution, World, takes_effect, answer_lost}
use auto_reign.TaskExecution.Execute.{Stream, execute}
use auto_reign.TaskExecution.Ends.{Holds, Ended}
use auto_reign.TaskExecution.Outcomes.{Over, execute-Over}
use auto_reign.Prelude.{◌≡◌, map, Result}
use auto_reign.Json.{
  null, canonical_json, serialize, sized, scan, round, visit, count_keys, key_bytes, string_bytes,
  utf8_size, add_node, add_bytes, dumps, dump_items, dump_fields,
}
use auto_reign.Tasks.{
  Subtask, finish_assistant, end_assistant, get_owned_assistant, found_or_error, owned_or_error,
  max_message_id, fail_active_assistant, fail_task,
}
use auto_reign.Reducer.{
  partial_result, partial_value, terminal_partial_blocks, shrink, validate_envelope,
}
use auto_reign.TaskExecution.Failures.{Exit}
use auto_reign.TaskExecution.World.{Payload, failed, in_session, commit}
use auto_reign.TaskExecution.Finish.{
  persistence_failed, handle, partial_envelope, terminal_persistence_failed, store_completed,
  persist_completed,
}

abbrev python : Python
python = record { loads = λ s. none; same_arguments = λ a b. true }

abbrev prepared : PreparedTaskExecution
prepared = record {
  user_id = 3;
  task_id = 7;
  assistant_subtask_id = 2;
  provider = codes "openai";
  model = codes "small";
}

abbrev task : Task
task = record {
  id = 7;
  user_id = 3;
  agent_id = none;
  name = codes "Notes";
  status = Status.pending;
  model_override_json = none;
  is_active = true;
  created_at = 100;
  updated_at = 100;
}

abbrev db : Tables
db =
    (create_turn 1 2 110 task (codes "What is new?")
      (record { tasks = task ∷ []; subtasks = [] })).1

abbrev world : World
world = record {
  state = new_state 3 7 2;
  db = db;
  reducer = new (codes "openai") (codes "small");
  started = false;
  runtime_stream = none;
  closed_streams = [];
  sent = [];
  arrivals = false ∷ true ∷ [];
  sessions =
      record { now = 120; outcome = takes_effect }
      ∷ record { now = 130; outcome = answer_lost }
      ∷ [];
  leaves = false ∷ true ∷ [];
}

abbrev stream : Stream
stream = ok (5, [])

execute-Over_example :
    Holds (λ _. Ended prepared) (λ raised. Over prepared) (execute python prepared stream world)
execute-Over_example = execute-Over python prepared stream world refl refl

-- A commit of the completed answer takes effect and raises all the same: the fallback finds the answer
-- no longer in progress, so that the rows stay COMPLETED beside the error that is told.
abbrev unsure : World
unsure = record world {
  sessions =
      record { now = 120; outcome = answer_lost }
      ∷ record { now = 130; outcome = takes_effect }
      ∷ [];
}

abbrev after_unsure : Result Exit Payload × World
after_unsure = persist_completed prepared null unsure

unsure_ok :
    (map (λ (s : Subtask). s.status) after_unsure.1.db.subtasks
      ≡ Status.completed ∷ Status.completed ∷ [])
    × (after_unsure.0
        ≡ ok (failed persistence_failed (partial_value (record { value = []; blocks = [] }))))
unfolding persist_completed store_completed terminal_persistence_failed handle in_session commit
    finish_assistant end_assistant get_owned_assistant found_or_error owned_or_error create_turn
    max_message_id fail_active_assistant fail_task partial_envelope partial_result
    terminal_partial_blocks shrink validate_envelope partial_value canonical_json serialize sized
    scan round visit count_keys key_bytes string_bytes utf8_size add_node add_bytes dumps dump_items
    dump_fields
unsure_ok = (refl, refl)
