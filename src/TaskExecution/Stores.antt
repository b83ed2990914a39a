-- ===== src/TaskExecution/Stores.antt =====
-- What the end of an execution stores, for a claimed outcome (`_finish_execution`).
use auto_reign.Prelude.{
  ◌≡◌, refl, sym, subst, ◌⊎◌, inl, inr, Bool, true, false, Option, none, some, List, Text, Result,
  ok, err, Result-cases,
}
use auto_reign.Json.{Value}
use auto_reign.Reducer.{partial_value, partial_result}
use auto_reign.Tasks.{Tables, Status, finish_assistant, cancel_assistant, fail_active_assistant}
use auto_reign.Tasks.Settled.{fail_active_assistant-none}
use auto_reign.Cancellation.{TerminalOutcome}
use auto_reign.TaskExecution.Failures.{Failure, Exit, failure, closed}
use auto_reign.TaskExecution.World.{PreparedTaskExecution, Payload, Session, World, tail_of}
use auto_reign.TaskExecution.Finish.{
  persistence_failed, handle, partial_envelope, terminal_persistence_failed, store_completed,
  store_cancelled, store_failed, settled_envelope, persist_completed, persist_cancelled, persist,
}
use auto_reign.TaskExecution.Ends.{
  Holds, Holds-bind, Holds-weaken, all_open, Going, Silent, Claimed, Broken, Told, in_session-cases,
  NotActive,
}

-- What `_finish_execution` leaves where the outcome was not claimed before.
abbrev pub Finished : PreparedTaskExecution → Option Payload → World → Type 0
Finished p none w = ⊥
Finished p (some payload) w = (all_open w.sent ≡ true) × Told p payload w

-- And what is left where it raised: it was about to store a success that is none, or a partial result
-- that cannot be made, or had claimed the outcome.
abbrev pub Unfinished : Bool → TerminalOutcome → Exit → World → Type 0
Unfinished begun desired closed w = ⊥
Unfinished begun desired (failure f) w =
    (Going begun w × (Broken w ⊎ (desired ≡ TerminalOutcome.completed))) ⊎ Silent w

abbrev pub Stored : PreparedTaskExecution → Payload → World → Type 0
Stored p payload w = (all_open w.sent ≡ true) × Told p payload w

-- An exception that leaves what `P` says.
abbrev pub Raised : (World → Type 0) → Exit → World → Type 0
Raised P closed w = ⊥
Raised P (failure f) w = P w

Claimed-Silent : (outcome : TerminalOutcome) (w : World) → Claimed outcome w → Silent w
Claimed-Silent outcome w c = record { sent_open = c.sent_open; claimed = rw c.terminal refl }

Claimed-with :
    (outcome : TerminalOutcome) (w : World) (db : Tables) (sessions : List Session)
    → Claimed outcome w
    → Claimed outcome (record w { db = db; sessions = sessions })
Claimed-with outcome w db sessions c = record {
  sent_open = c.sent_open;
  terminal = c.terminal;
  fair = c.fair;
}

pub partial_envelope-Holds :
    (w : World) → Holds (λ result v. v ≡ w) (Raised (λ v. (v ≡ w) × Broken w)) (partial_envelope w)
unfolding partial_envelope
partial_envelope-Holds w = elim (Result-cases (partial_result w.reducer)) [
  | inl (r, returned) ↦ rw returned refl
  | inr (e, raised) ↦ rw raised (refl, (e, refl))
]

pub Raised-map :
    (P Q : World → Type 0)
    → ((w : World) → P w → Q w)
    → (e : Exit) (w : World) → Raised P e w
    → Raised Q e w
Raised-map P Q f (failure _) w h = f w h
Raised-map P Q f closed w h = h

pub Raised-Unfinished :
    (begun : Bool) (desired : TerminalOutcome) (e : Exit) (w : World)
    → Raised Silent e w
    → Unfinished begun desired e w
Raised-Unfinished begun desired (failure _) w h = inr h
Raised-Unfinished begun desired closed w h = h

pub early_failure :
    (begun : Bool) (desired : TerminalOutcome) (w : World)
    → Going begun w
    → (e : Exit) (v : World)
    → Raised (λ v. (v ≡ w) × (Broken w ⊎ (desired ≡ TerminalOutcome.completed))) e v
    → Unfinished begun desired e v
early_failure begun desired w g (failure _) v (same, why) = rw same (inl (g, why))
early_failure begun desired w g closed v h = h

module _ (p : PreparedTaskExecution) where
  store_completed-Holds :
      (result : Value) (w : World)
      → Claimed TerminalOutcome.completed w
      → Holds (Stored p) (Raised (Claimed TerminalOutcome.completed)) (store_completed p result w)
  unfolding store_completed
  store_completed-Holds result w c =
      elim (in_session-cases
        (λ now.
          finish_assistant now p.user_id p.assistant_subtask_id Status.completed (some result) none)
        w) [
          | inl (f, db, e) ↦
              rw e (Claimed-with TerminalOutcome.completed w db (tail_of w.sessions) c)
          | inr (now, a, db, called, e) ↦
              rw e (c.sent_open, ((now, w.db, called), (c.terminal, c.fair refl)))
        ]

  store_cancelled-Holds :
      (result : Value) (w : World)
      → Claimed TerminalOutcome.cancelled w
      → Holds (Stored p) (Raised (Claimed TerminalOutcome.cancelled)) (store_cancelled p result w)
  unfolding store_cancelled
  store_cancelled-Holds result w c =
      elim (in_session-cases
        (λ now. cancel_assistant now p.user_id p.assistant_subtask_id (some result)) w) [
          | inl (f, db, e) ↦
              rw e (Claimed-with TerminalOutcome.cancelled w db (tail_of w.sessions) c)
          | inr (now, a, db, called, e) ↦ rw e (c.sent_open, ((now, w.db, called), c.terminal))
        ]

  store_failed-Holds :
      (code : Text) (result : Value) (w : World)
      → Claimed TerminalOutcome.failed w
      → Holds (Stored p) (Raised Silent) (store_failed p code result w)
  unfolding store_failed
  store_failed-Holds code result w c =
      let silent = Claimed-Silent TerminalOutcome.failed w c in
      elim (in_session-cases
        (λ now.
          finish_assistant now p.user_id p.assistant_subtask_id Status.failed (some result)
            (some code))
        w) [
          | inl (f, db, e) ↦
              rw e (record { sent_open = silent.sent_open; claimed = silent.claimed })
          | inr (now, a, db, called, e) ↦
              rw e (c.sent_open, (inl (now, w.db, called), silent.claimed))
        ]

  fallback-Holds :
      (original : Failure) (w : World)
      → Silent w
      → Holds (Stored p) (Raised Silent) (terminal_persistence_failed p original w)
  unfolding terminal_persistence_failed handle partial_envelope
  fallback-Holds original w s = elim (Result-cases (partial_result w.reducer)) [
    | inr (e, raised) ↦ rw raised s
    | inl (r, returned) ↦
        elim (in_session-cases
          (λ now.
            fail_active_assistant now p.user_id p.task_id p.assistant_subtask_id
              (some (partial_value r)) persistence_failed)
          w) [
            | inl (f, db, e) ↦
                rw (returned, e) (record { sent_open = s.sent_open; claimed = s.claimed })
            | inr (now, true, db, called, e) ↦
                rw (returned, e) (s.sent_open, (inr (refl, inl (now, w.db, called)), s.claimed))
            | inr (now, false, db, called, e) ↦
                let settled : NotActive p db =
                  fail_active_assistant-none now p.user_id p.task_id p.assistant_subtask_id
                    (some (partial_value r)) persistence_failed w.db db called in
                rw (returned, e) (s.sent_open, (inr (refl, inr settled), s.claimed))
          ]
  ]

  -- A failure to store gives way to the fallback.
  handle-Holds :
      (outcome : TerminalOutcome) (m : Result Exit Payload × World)
      → Holds (Stored p) (Raised (Claimed outcome)) m
      → Holds (Stored p) (Raised Silent) (handle m (terminal_persistence_failed p))
  unfolding handle
  handle-Holds outcome (ok payload, w) h = h
  handle-Holds outcome (err (failure f), w) h = fallback-Holds f w (Claimed-Silent outcome w h)
  handle-Holds outcome (err closed, w) h = elim h [ ]

  persist_completed-Holds :
      (result : Value) (w : World)
      → Claimed TerminalOutcome.completed w
      → Holds (Stored p) (Raised Silent) (persist_completed p result w)
  unfolding persist_completed
  persist_completed-Holds result w c =
      handle-Holds TerminalOutcome.completed (store_completed p result w)
        (store_completed-Holds result w c)

  persist_cancelled-Holds :
      (result : Value) (w : World)
      → Claimed TerminalOutcome.cancelled w
      → Holds (Stored p) (Raised Silent) (persist_cancelled p result w)
  unfolding persist_cancelled
  persist_cancelled-Holds result w c =
      handle-Holds TerminalOutcome.cancelled (store_cancelled p result w)
        (store_cancelled-Holds result w c)

  remade :
      (w : World)
      → Claimed TerminalOutcome.cancelled w
      → Holds (λ kept v. v ≡ w) (Raised Silent) (partial_envelope w)
  remade w c =
      Holds-weaken (λ kept v. v ≡ w) (λ kept v. v ≡ w) (Raised (λ v. (v ≡ w) × Broken w))
        (Raised Silent) (partial_envelope w) (partial_envelope-Holds w) (λ kept v same. same)
        (Raised-map (λ v. (v ≡ w) × Broken w) Silent
          (λ v h. subst Silent (sym h.0) (Claimed-Silent TerminalOutcome.cancelled w c)))

  settled_envelope-Holds :
      (desired : TerminalOutcome) (result : Value) (w : World)
      → Claimed TerminalOutcome.cancelled w
      → Holds (λ kept v. v ≡ w) (Raised Silent) (settled_envelope desired result w)
  unfolding settled_envelope
  settled_envelope-Holds TerminalOutcome.cancelled result w c = refl
  settled_envelope-Holds TerminalOutcome.completed result w c = remade w c
  settled_envelope-Holds TerminalOutcome.failed result w c = remade w c

  pub persist-Holds :
      (desired outcome : TerminalOutcome) (code : Text) (result : Value) (w : World)
      → Claimed outcome w
      → Holds (Stored p) (Raised Silent) (persist p desired code result outcome w)
  unfolding persist
  persist-Holds desired TerminalOutcome.completed code result w c =
      persist_completed-Holds result w c
  persist-Holds desired TerminalOutcome.failed code result w c = store_failed-Holds code result w c
  persist-Holds desired TerminalOutcome.cancelled code result w c =
      Holds-bind (λ kept v. v ≡ w) (Stored p) (Raised Silent) (Raised Silent)
        (settled_envelope desired result w) (persist_cancelled p)
        (settled_envelope-Holds desired result w c)
        (λ kept v same. rw same (persist_cancelled-Holds kept w c)) (λ e v h. h)
