-- ===== src/Cancellation/State.antt =====
-- One execution. Each method holds the lock of its object from the first line to the last, so that
-- each is one step; a stream stands for its iterator by a number of its own.
use auto_reign.Prelude.{ℕ, Bool, true, false, not, ◌||◌, Option, none, some, if◌then◌else◌}

pub data TerminalOutcome : Type 0 where
  completed failed cancelled : TerminalOutcome

pub record TaskExecutionState : Type 0 where
  pub user_id : ℕ
  pub task_id : ℕ
  pub assistant_subtask_id : ℕ
  pub cancel_flag : Bool
  pub terminal : Option TerminalOutcome
  pub runtime_stream : Option ℕ

abbrev pub new_state : ℕ → ℕ → ℕ → TaskExecutionState
new_state user_id task_id assistant_subtask_id = record {
  user_id = user_id;
  task_id = task_id;
  assistant_subtask_id = assistant_subtask_id;
  cancel_flag = false;
  terminal = none;
  runtime_stream = none;
}

abbrev pub is_some {ℓ} : {A : Type ℓ} → Option A → Bool
is_some none = false
is_some (some _) = true

unfoldable pub request_cancel : TaskExecutionState → (Bool × Option ℕ) × TaskExecutionState
request_cancel s =
    if is_some s.terminal || s.cancel_flag
    then ((false, none), s)
    else ((true, s.runtime_stream), record s { cancel_flag = true })

unfoldable pub cancel_requested : TaskExecutionState → Bool
cancel_requested s = s.cancel_flag

unfoldable pub attach_stream : ℕ → TaskExecutionState → Bool × TaskExecutionState
attach_stream stream s =
    if is_some s.terminal
    then (false, s)
    else (not s.cancel_flag, record s { runtime_stream = some stream })

unfoldable pub claim_terminal :
    TerminalOutcome → TaskExecutionState → Option TerminalOutcome × TaskExecutionState
claim_terminal desired s =
    if is_some s.terminal
    then (none, s)
    else (let outcome = if s.cancel_flag then cancelled else desired in
        (some outcome, record s { terminal = some outcome }))
