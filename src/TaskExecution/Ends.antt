-- ===== src/TaskExecution/Ends.antt =====
-- What is promised of the world while an execution goes on, and when it has ended.
use auto_reign.Prelude.{
  ℕ, ◌≡◌, refl, ◌∙◌, ap, ◌⊎◌, inl, inr, Bool, true, false, ◌&&◌, none, some, List, [], ◌∷◌, ◌++◌,
  Result, ok, err, arith, Result-cases,
}
use auto_reign.Prelude.Exec.{Exec, continue}
use auto_reign.Reducer.{ReducerError, partial_result}
use auto_reign.Tasks
use auto_reign.Tasks.{
  Tables, Status, RepositoryError, finish_assistant, cancel_assistant, fail_active_assistant,
  row_count, is_active_assistant,
}
use auto_reign.Cancellation.{TerminalOutcome, TaskExecutionState, is_some, request_cancel}
use auto_reign.TaskExecution.Failures.{Failure, repository_failure, database_failure, Exit, failure}
use auto_reign.TaskExecution.World.{
  PreparedTaskExecution, Payload, start, emitted, done, cancelled, failed, TaskExecutionEvent,
  World, head_or, tail_of, Commit, takes_effect, rolled_back, answer_lost, arrived, arrive, commit,
  in_session,
}
use auto_reign.TaskExecution.Finish.{persistence_failed}

-- What a call leaves, if it returned and if it raised.
abbrev pub Holds :
    {A : Type 0} → (A → World → Type 0) → (Exit → World → Type 0) → Result Exit A × World → Type 0
Holds Q E (ok a, w) = Q a w
Holds Q E (err e, w) = E e w

pub Holds-bind :
    {A B : Type 0} (Q : A → World → Type 0) (R : B → World → Type 0) (D E : Exit → World → Type 0)
    (m : Result Exit A × World) (f : A → Exec World Exit B)
    → Holds Q D m
    → ((a : A) (w : World) → Q a w → Holds R E (f a w))
    → ((e : Exit) (w : World) → D e w → E e w)
    → Holds R E (continue m.0 f m.1)
Holds-bind Q R D E (ok a, w) f h next raised = next a w h
Holds-bind Q R D E (err e, w) f h next raised = raised e w h

pub Holds-weaken :
    {A : Type 0} (Q R : A → World → Type 0) (D E : Exit → World → Type 0)
    (m : Result Exit A × World)
    → Holds Q D m
    → ((a : A) (w : World) → Q a w → R a w)
    → ((e : Exit) (w : World) → D e w → E e w)
    → Holds R E m
Holds-weaken Q R D E (ok a, w) h returned raised = returned a w h
Holds-weaken Q R D E (err e, w) h returned raised = raised e w h

abbrev pub is_open : Payload → Bool
is_open start = true
is_open (emitted _) = true
is_open _ = false

-- No event of them ends an execution.
abbrev pub all_open : List TaskExecutionEvent → Bool
all_open [] = true
all_open (e ∷ events) = is_open e.payload && all_open events

-- The outcome is not claimed yet.
pub record Going (begun : Bool) (w : World) : Type 0 where
  pub sent_open : all_open w.sent ≡ true
  pub unclaimed : w.state.terminal ≡ none
  pub flag : w.started ≡ begun

-- The outcome is claimed, and no event has said so.
pub record Silent (w : World) : Type 0 where
  pub sent_open : all_open w.sent ≡ true
  pub claimed : is_some w.state.terminal ≡ true

pub record Claimed (outcome : TerminalOutcome) (w : World) : Type 0 where
  pub sent_open : all_open w.sent ≡ true
  pub terminal : w.state.terminal ≡ some outcome
  pub fair : outcome ≡ TerminalOutcome.completed → w.state.cancel_flag ≡ false

-- The blocks of the answer cannot be closed, so that nothing can be stored.
abbrev pub Broken : World → Type 0
Broken w = (e : ReducerError) × (partial_result w.reducer ≡ err e)

-- No row of the answer is pending or running.
abbrev pub NotActive : PreparedTaskExecution → Tables → Type 0
NotActive p db =
    row_count (is_active_assistant p.user_id p.task_id p.assistant_subtask_id) db.subtasks ≡ 0

-- What an event that ends an execution says of the database and of the claim.
abbrev pub ToldOf : PreparedTaskExecution → Payload → TaskExecutionState → Tables → Type 0
ToldOf p (done result) state now_db =
    ((now : ℕ) × (db : Tables) × (finish_assistant now p.user_id p.assistant_subtask_id
          Status.completed (some result) none db
        ≡ (ok tt, now_db)))
    × ((state.terminal ≡ some TerminalOutcome.completed) × (state.cancel_flag ≡ false))
ToldOf p (cancelled result) state now_db =
    ((now : ℕ) × (db : Tables) × (cancel_assistant now p.user_id p.assistant_subtask_id
          (some result) db
        ≡ (ok tt, now_db)))
    × (state.terminal ≡ some TerminalOutcome.cancelled)
ToldOf p (failed code result) state now_db =
    (((now : ℕ) × (db : Tables) × (finish_assistant now p.user_id p.assistant_subtask_id
            Status.failed (some result) (some code) db
          ≡ (ok tt, now_db)))
      ⊎ ((code ≡ persistence_failed)
          × (((now : ℕ) × (db : Tables) × (fail_active_assistant now p.user_id p.task_id
                    p.assistant_subtask_id (some result) code db
                  ≡ (ok true, now_db)))
              ⊎ NotActive p now_db)))
    × (is_some state.terminal ≡ true)
ToldOf p _ state now_db = ⊥

abbrev pub Told : PreparedTaskExecution → Payload → World → Type 0
Told p payload w = ToldOf p payload w.state w.db

abbrev pub event_of : PreparedTaskExecution → Payload → TaskExecutionEvent
event_of p payload = record {
  task_id = p.task_id;
  subtask_id = p.assistant_subtask_id;
  payload = payload;
}

-- The last event, and no other, ends the execution, as `ToldOf` has it.
pub record Ended (p : PreparedTaskExecution) (w : World) : Type 0 where
  pub earlier : List TaskExecutionEvent
  pub last : Payload
  pub sent : w.sent ≡ earlier ++ (event_of p last ∷ [])
  pub earlier_open : all_open earlier ≡ true
  pub told : Told p last w

pub Told-claimed :
    (p : PreparedTaskExecution) (payload : Payload) (w : World)
    → Told p payload w
    → is_some w.state.terminal ≡ true
Told-claimed p (done result) w told = rw told.1.0 refl
Told-claimed p (cancelled result) w told = rw told.1 refl
Told-claimed p (failed code result) w told = told.1
Told-claimed p start w told = elim told [ ]
Told-claimed p (emitted e) w told = elim told [ ]

arrived-terminal : (b : Bool) (s : TaskExecutionState) → (arrived b s).terminal ≡ s.terminal
unfolding request_cancel
arrived-terminal true s = ground arith
arrived-terminal false s = refl

pub arrive-Going : (begun : Bool) (w : World) → Going begun w → Going begun (arrive w)
arrive-Going begun w g = record {
  sent_open = g.sent_open;
  unclaimed = arrived-terminal (head_or false w.arrivals) w.state ∙ g.unclaimed;
  flag = g.flag;
}

-- A claimed state is not changed any more.
pub arrived-claimed :
    (b : Bool) (s : TaskExecutionState) → is_some s.terminal ≡ true → arrived b s ≡ s
unfolding request_cancel
arrived-claimed true s h = ground arith
arrived-claimed false s h = refl

commit-cases :
    {A : Type 0} (outcome : Commit) (now : ℕ) (call : ℕ → Tasks.Method A) (w : World)
    → ((f : Failure) × (db : Tables) × (commit outcome
            (call now w.db)
            (record w { sessions = tail_of w.sessions })
          ≡ (err (failure f), record w { sessions = tail_of w.sessions; db = db })))
      ⊎ ((at : ℕ) × (a : A) × (db : Tables) × (call at w.db ≡ (ok a, db))
          × (commit outcome (call now w.db) (record w { sessions = tail_of w.sessions })
              ≡ (ok a, record w { sessions = tail_of w.sessions; db = db })))
unfolding commit
commit-cases rolled_back now call w = inl (database_failure, w.db, refl)
commit-cases takes_effect now call w = elim (Result-cases (call now w.db).0) [
  | inr (e, raised) ↦ inl (repository_failure e, w.db, rw raised refl)
  | inl (a, returned) ↦
      inr (now, a, (call now w.db).1, ap (λ r. (r, (call now w.db).1)) returned, rw returned refl)
]
commit-cases answer_lost now call w = elim (Result-cases (call now w.db).0) [
  | inr (e, raised) ↦ inl (repository_failure e, w.db, rw raised refl)
  | inl (a, returned) ↦ inl (database_failure, (call now w.db).1, rw returned refl)
]

-- What a call in a session leaves.
pub in_session-cases :
    {A : Type 0} (call : ℕ → Tasks.Method A) (w : World)
    → ((f : Failure) × (db : Tables) × (in_session call w
          ≡ (err (failure f), record w { sessions = tail_of w.sessions; db = db })))
      ⊎ ((now : ℕ) × (a : A) × (db : Tables) × (call now w.db ≡ (ok a, db))
          × (in_session call w ≡ (ok a, record w { sessions = tail_of w.sessions; db = db })))
unfolding in_session commit
in_session-cases call w =
    let session = head_or (record { now = 0; outcome = takes_effect }) w.sessions in
    commit-cases session.outcome session.now call w
