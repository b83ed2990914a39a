-- ===== src/TaskExecution/World.antt =====
-- What an execution reads and writes, with the other threads, the database and the reader of its events
-- as lists of what they do at each moment that concerns it.
use auto_reign.Prelude.{
  ℕ, Bool, true, false, Option, List, [], ◌∷◌, ◌++◌, Text, Result, ok, err, if◌then◌else◌,
}
use auto_reign.Prelude.Exec.{Exec}
use auto_reign.Json.{Value}
use auto_reign.Reducer.{Reducer, Emission}
use auto_reign.Tasks
use auto_reign.Tasks.{Tables, RepositoryError}
use auto_reign.Cancellation.{
  TerminalOutcome, TaskExecutionState, request_cancel, attach_stream, claim_terminal,
}
use auto_reign.TaskExecution.Failures.{repository_failure, database_failure, Exit, failure, closed}

pub record PreparedTaskExecution : Type 0 where
  pub user_id : ℕ
  pub task_id : ℕ
  pub assistant_subtask_id : ℕ
  pub provider : Text
  pub model : Text

pub data Payload : Type 0 where
  start : Payload
  emitted : Emission → Payload
  done cancelled : Value → Payload
  failed : Text → Value → Payload

pub record TaskExecutionEvent : Type 0 where
  pub task_id : ℕ
  pub subtask_id : ℕ
  pub payload : Payload

-- What the database makes of a session: its commit takes effect; something fails and it is rolled
-- back; or its commit takes effect, and an error is raised all the same.
pub data Commit : Type 0 where
  takes_effect rolled_back answer_lost : Commit

-- A session: what the clock says in it, and what the database makes of it.
pub record Session : Type 0 where
  pub now : ℕ
  pub outcome : Commit

-- `arrivals` says, for each time that the execution asks its state something, whether another thread's
-- request to cancel comes just before; `leaves`, for each event, whether the reader goes away at it.
pub record World : Type 0 where
  pub state : TaskExecutionState
  pub db : Tables
  pub reducer : Reducer
  pub started : Bool
  pub runtime_stream : Option ℕ
  pub closed_streams : List ℕ
  pub sent : List TaskExecutionEvent
  pub arrivals : List Bool
  pub sessions : List Session
  pub leaves : List Bool

abbrev pub Method : Type 0 → Type 0
Method A = Exec World Exit A

abbrev pub head_or {ℓ} : {A : Type ℓ} → A → List A → A
head_or a [] = a
head_or a (x ∷ xs) = x

abbrev pub tail_of {ℓ} : {A : Type ℓ} → List A → List A
tail_of [] = []
tail_of (x ∷ xs) = xs

abbrev pub arrived : Bool → TaskExecutionState → TaskExecutionState
arrived true s = (request_cancel s).1
arrived false s = s

-- The state when the execution gets to it.
abbrev pub arrive : World → World
arrive w = record w {
  state = arrived (head_or false w.arrivals) w.state;
  arrivals = tail_of w.arrivals;
}

-- state.cancel_requested()
unfoldable pub check_cancel : Method Bool
check_cancel w = (ok (arrive w).state.cancel_flag, arrive w)

-- state.attach_stream(stream)
unfoldable pub attach : ℕ → Method Bool
attach stream w =
    let (goes_on, s) = attach_stream stream (arrive w).state in
    (ok goes_on, record (arrive w) { state = s })

-- state.claim_terminal(desired)
unfoldable pub claim_outcome : TerminalOutcome → Method (Option TerminalOutcome)
claim_outcome desired w =
    let (outcome, s) = claim_terminal desired (arrive w).state in
    (ok outcome, record (arrive w) { state = s })

-- `yield`
unfoldable pub yield_event : PreparedTaskExecution → Payload → Method (Unit {0})
yield_event prepared payload w =
    let event : TaskExecutionEvent = record {
      task_id = prepared.task_id;
      subtask_id = prepared.assistant_subtask_id;
      payload = payload;
    } in
    let after : World = record w { sent = w.sent ++ (event ∷ []); leaves = tail_of w.leaves } in
    if head_or false w.leaves then (err closed, after) else (ok tt, after)

-- `session_scope`: what it returned is committed, and what raised is rolled back. Where the answer of
-- the commit is lost, the rows are written, and the error is raised.
unfoldable pub commit {ℓ} :
    {A : Type ℓ} → Commit → Result RepositoryError A × Tables → World → Result Exit A × World
commit rolled_back (r, db) w = (err (failure database_failure), w)
commit takes_effect (err e, db) w = (err (failure (repository_failure e)), w)
commit takes_effect (ok a, db) w = (ok a, record w { db = db })
commit answer_lost (err e, db) w = (err (failure (repository_failure e)), w)
commit answer_lost (ok a, db) w = (err (failure database_failure), record w { db = db })

unfoldable pub in_session : {A : Type 0} → (ℕ → Tasks.Method A) → Exec World Exit A
in_session call w =
    let session = head_or (record { now = 0; outcome = takes_effect }) w.sessions in
    commit session.outcome (call session.now w.db) (record w { sessions = tail_of w.sessions })
