-- ===== src/Tasks/Examples.antt =====
-- A task with a turn, and what happens to it.
use auto_reign.Prelude.{ℕ, ◌≡◌, refl, ◌⊎◌, true, none, [], ◌∷◌, codes, ok, length}
use auto_reign.Tasks.Rows.{
  get_owned_assistant, found_or_error, owned_or_error, Status, Task, Tables,
}
use auto_reign.Tasks.Writes.{
  end_assistant, max_message_id, create_turn, mark_running, finish_assistant, cancel_assistant,
}
use auto_reign.Tasks.Edits.{interrupted, recover_interrupted}
use auto_reign.Tasks.Evolution.{IsKeyed, EvolvedRows}
use auto_reign.Tasks.Turns.{IsFresh}
use auto_reign.Tasks.Runs.{
  Step, marked_running, turn_created, was_cancelled, rest, go_on, LastingRows, Step-IsKeyed,
  Step-EvolvedRows, Run-LastingRows,
}
use auto_reign.Tasks.Recovery.{recover_interrupted-cleared}
use auto_reign.Tasks.Endings.{Cancelled, Refused, cancel_assistant-Ended, cancel_assistant-once}

abbrev task : Task
task = record {
  id = 7;
  user_id = 3;
  agent_id = none;
  name = codes "Notes";
  status = Status.pending;
  model_override_json = none;
  is_active = true;
  created_at = 100;
  updated_at = 100;
}

abbrev empty : Tables
empty = record { tasks = task ∷ []; subtasks = [] }

empty-IsKeyed : IsKeyed empty.subtasks
empty-IsKeyed = record {
  primary = λ x y x_in y_in same_id. absurd x_in;
  messages = λ x y x_in y_in same_task same_message. absurd x_in;
}

abbrev asked : Tables
asked = (create_turn 1 2 110 task (codes "What is new?") empty).1

no_ids : (id : ℕ) → IsFresh id empty.subtasks
no_ids id x member same_id = member

one_two : ¬ (◌≡◌ {A = ℕ} 1 2)
one_two e = cc

first_turn : Step empty asked
first_turn = turn_created 1 2 110 task (codes "What is new?") empty (no_ids 1) (no_ids 2) one_two

asked-IsKeyed : IsKeyed asked.subtasks
asked-IsKeyed = Step-IsKeyed empty asked empty-IsKeyed first_turn

abbrev answering : Tables
answering = (mark_running 120 3 2 asked).1

abbrev stopped : Tables
stopped = (cancel_assistant 130 3 2 none answering).1

Step-EvolvedRows_example : EvolvedRows asked.subtasks answering.subtasks
Step-EvolvedRows_example =
    Step-EvolvedRows asked answering asked-IsKeyed (marked_running 120 3 2 asked)

Run-LastingRows_example : IsKeyed stopped.subtasks × LastingRows asked.subtasks stopped.subtasks
Run-LastingRows_example = Run-LastingRows asked stopped asked-IsKeyed (
    go_on asked answering stopped (marked_running 120 3 2 asked)
      (go_on answering stopped stopped (was_cancelled 130 3 2 none answering) (rest stopped)))

recover_interrupted-cleared_example :
    ((recover_interrupted 140 answering).0 ≡ ok (length (interrupted answering)))
    × (interrupted (recover_interrupted 140 answering).1 ≡ [])
recover_interrupted-cleared_example = recover_interrupted-cleared 140 answering

cancel_assistant-Ended_example :
    ((after : Tables) × (cancel_assistant 130 3 2 none answering ≡ (ok tt, after))
      × Cancelled 130 3 2 none answering after)
    ⊎ Refused answering (cancel_assistant 130 3 2 none answering)
cancel_assistant-Ended_example = cancel_assistant-Ended 130 3 2 none answering

cancelled_ok : cancel_assistant 130 3 2 none answering ≡ (ok tt, stopped)
unfolding create_turn max_message_id mark_running cancel_assistant end_assistant get_owned_assistant
    found_or_error owned_or_error
cancelled_ok = refl

cancel_assistant-once_example :
    Refused stopped (cancel_assistant 150 3 2 none stopped)
    × Refused stopped (finish_assistant 150 3 2 Status.completed none none stopped)
cancel_assistant-once_example =
    cancel_assistant-once 130 150 3 3 2 Status.completed none none none answering stopped
      cancelled_ok

interrupted_once : length (interrupted answering) ≡ 1
unfolding create_turn max_message_id mark_running get_owned_assistant found_or_error owned_or_error
interrupted_once = refl
