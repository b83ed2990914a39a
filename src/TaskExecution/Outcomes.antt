-- ===== src/TaskExecution/Outcomes.antt =====
-- How `execute` of task_execution_service.py ends, as a whole.
use auto_reign.Prelude.{
  ℕ, ◌≡◌, refl, sym, subst, ◌⊎◌, inl, inr, Bool, true, false, Option, none, some, List, Text, codes,
  Result, ok, err,
}
use auto_reign.Reducer.{Python}
use auto_reign.Cancellation.{TerminalOutcome, is_some, claim_terminal}
use auto_reign.TaskExecution.Failures.{Failure, Exit, failure, closed, safe_execution_error_code}
use auto_reign.TaskExecution.World.{
  PreparedTaskExecution, Payload, World, head_or, tail_of, claim_outcome,
}
use auto_reign.TaskExecution.Finish.{finish_execution, envelope, end_with}
use auto_reign.TaskExecution.Execute.{
  Stream, attempt, yield_or_raise, fail, leaving, leave, excepted, close_stream, execute,
}
use auto_reign.TaskExecution.Ends.{
  Holds, Holds-bind, Holds-weaken, all_open, Going, Silent, Broken, Ended, Told-claimed,
  arrived-claimed,
}
use auto_reign.TaskExecution.Claims.{envelope-Holds, finish_execution-Finished}
use auto_reign.TaskExecution.Stores.{Finished, Unfinished, Raised, Raised-map}
use auto_reign.TaskExecution.Loop.{Attempted, Left}
use auto_reign.TaskExecution.Attempts.{attempt-Ended, yield_or_raise-Ended}

-- Where it may be at the end.
abbrev pub Over : PreparedTaskExecution → World → Type 0
Over p w = Ended p w ⊎ (Silent w ⊎ ((begun : Bool) × Going begun w × Broken w))

-- What does not depend on the requests to come.
abbrev Lasting : (World → Type 0) → Type 0
Lasting P = (w : World) (arrivals : List Bool) → P w → P (record w { arrivals = arrivals })

Silent-Lasting : Lasting Silent
Silent-Lasting w arrivals s = record { sent_open = s.sent_open; claimed = s.claimed }

Ended-Lasting : (p : PreparedTaskExecution) → Lasting (Ended p)
Ended-Lasting p w arrivals e = record {
  earlier = e.earlier;
  last = e.last;
  sent = e.sent;
  earlier_open = e.earlier_open;
  told = e.told;
}

claim_outcome-lost :
    (desired : TerminalOutcome) (w : World)
    → is_some w.state.terminal ≡ true
    → claim_outcome desired w ≡ (ok none, record w { arrivals = tail_of w.arrivals })
unfolding claim_outcome claim_terminal
claim_outcome-lost desired w h = rw (arrived-claimed (head_or false w.arrivals) w.state h, h) refl

-- A second end changes nothing.
finish_execution-lost :
    (P : World → Type 0)
    → Lasting P
    → (python : Python) (p : PreparedTaskExecution) (desired : TerminalOutcome) (code : Text)
      (w : World)
    → is_some w.state.terminal ≡ true
    → P w
    → Holds (λ end v. (end ≡ none) × P v) (Raised P) (finish_execution python p desired code w)
unfolding finish_execution end_with
finish_execution-lost P lasting python p desired code w h holds =
    Holds-bind (λ result v. v ≡ w) (λ end v. (end ≡ none) × P v)
      (Raised (λ v. (v ≡ w) × (Broken w ⊎ (desired ≡ TerminalOutcome.completed)))) (Raised P)
      (envelope python desired w) _ (envelope-Holds p python desired w)
      (λ result v same.
        rw (same, claim_outcome-lost desired w h) (refl, lasting w (tail_of w.arrivals) holds))
      (Raised-map (λ v. (v ≡ w) × (Broken w ⊎ (desired ≡ TerminalOutcome.completed))) P
        (λ v e. subst P (sym e.0) holds))

-- What is left where the handlers raise.
abbrev Raising : PreparedTaskExecution → Exit → World → Type 0
Raising p e w = Over p w

module _ (python : Python) (p : PreparedTaskExecution) where
  Unfinished-Over :
      (begun : Bool) (e : Exit) (w : World) → Unfinished begun TerminalOutcome.failed e w → Over p w
  Unfinished-Over begun (failure f) w (inl (g, inl why)) = inr (inr (begun, g, why))
  Unfinished-Over begun (failure f) w (inl (g, inr other)) = cc
  Unfinished-Over begun (failure f) w (inr silent) = inr (inl silent)
  Unfinished-Over begun closed w h = absurd h

  Left-Over : (e : Exit) (w : World) → Left p e w → Over p w
  Left-Over (failure f) w h = absurd h
  Left-Over closed w h = inl h

  Raised-Over : (e : Exit) (w : World) → Raised Silent e w → Over p w
  Raised-Over (failure f) w h = inr (inl h)
  Raised-Over closed w h = absurd h

  lost-Over :
      (f : Failure) (end : Option Payload) (w : World)
      → (end ≡ none) × Silent w
      → Holds (λ _. Ended p) (Raising p) (yield_or_raise p f end w)
  unfolding yield_or_raise
  lost-Over f none w h = inr (inl h.1)
  lost-Over f (some payload) w h = cc h.0

  fail-Ended :
      (f : Failure) (w : World)
      → ((begun : Bool) × Going begun w) ⊎ Silent w
      → Holds (λ _. Ended p) (Raising p) (fail python p f w)
  unfolding fail
  fail-Ended f w (inl (begun, g)) =
      Holds-bind (Finished p) (λ _. Ended p) (Unfinished begun TerminalOutcome.failed) (Raising p)
        (finish_execution python p TerminalOutcome.failed (safe_execution_error_code f) w)
        (yield_or_raise p f)
        (finish_execution-Finished p python begun TerminalOutcome.failed
          (safe_execution_error_code f) w g)
        (λ end v h.
          Holds-weaken (λ _. Ended p) (λ _. Ended p) (Left p) (Raising p) (yield_or_raise p f end v)
            (yield_or_raise-Ended p f end v h) (λ _ u e. e) Left-Over)
        (Unfinished-Over begun)
  fail-Ended f w (inr s) =
      Holds-bind (λ end v. (end ≡ none) × Silent v) (λ _. Ended p) (Raised Silent) (Raising p)
        (finish_execution python p TerminalOutcome.failed (safe_execution_error_code f) w)
        (yield_or_raise p f)
        (finish_execution-lost Silent Silent-Lasting python p TerminalOutcome.failed
          (safe_execution_error_code f) w s.claimed s)
        (lost-Over f) Raised-Over

  -- What `_finish_execution` leaves, whether it returned or not.
  either-Over :
      {A : Type 0} (Q : A → World → Type 0) (D : Exit → World → Type 0) (m : Result Exit A × World)
      → Holds Q D m
      → ((a : A) (w : World) → Q a w → Over p w)
      → ((e : Exit) (w : World) → D e w → Over p w)
      → Over p m.1
  either-Over Q D (ok a, w) h returned raised = returned a w h
  either-Over Q D (err e, w) h returned raised = raised e w h

  Finished-Over : (end : Option Payload) (w : World) → Finished p end w → Over p w
  Finished-Over none w h = absurd h
  Finished-Over (some payload) w h =
      inr (inl (record { sent_open = h.0; claimed = Told-claimed p payload w h.1 }))

  Raised-Ended-Over : (e : Exit) (w : World) → Raised (Ended p) e w → Over p w
  Raised-Ended-Over (failure f) w h = inl h
  Raised-Ended-Over closed w h = absurd h

  closed_after :
      (w : World)
      → Ended p w ⊎ Going true w
      → Over p (finish_execution python p TerminalOutcome.failed (codes "generation_closed") w).1
  closed_after w (inl e) =
      either-Over (λ end v. (end ≡ none) × Ended p v) (Raised (Ended p))
        (finish_execution python p TerminalOutcome.failed (codes "generation_closed") w)
        (finish_execution-lost (Ended p) (Ended-Lasting p) python p TerminalOutcome.failed
          (codes "generation_closed") w (Told-claimed p e.last w e.told) e)
        (λ end v h. inl h.1) Raised-Ended-Over
  closed_after w (inr g) =
      either-Over (Finished p) (Unfinished true TerminalOutcome.failed)
        (finish_execution python p TerminalOutcome.failed (codes "generation_closed") w)
        (finish_execution-Finished p python true TerminalOutcome.failed (codes "generation_closed")
          w g)
        Finished-Over (Unfinished-Over true)

  leaving-Over :
      (begun : Bool) (w : World)
      → begun ≡ w.started
      → Ended p w ⊎ Going true w
      → Holds (λ _. Ended p) (Raising p) (leaving python p begun w)
  unfolding leaving
  leaving-Over true w same h = closed_after w h
  leaving-Over false w same (inl e) = inl e
  leaving-Over false w same (inr g) = cc (g.flag, same)

  excepted-Over :
      (m : Result Exit (Unit {0}) × World)
      → Holds (λ _. Ended p) (Attempted p) m
      → Holds (λ _. Ended p) (Raising p) (excepted python p m)
  unfolding excepted leave
  excepted-Over (ok a, w) h = h
  excepted-Over (err (failure f), w) h = fail-Ended f w h
  excepted-Over (err closed, w) h = leaving-Over w.started w refl h

  close_stream-Ended : (stream : Option ℕ) (w : World) → Ended p w → Ended p (close_stream stream w)
  unfolding close_stream
  close_stream-Ended none w e = e
  close_stream-Ended (some stream) w e = record {
    earlier = e.earlier;
    last = e.last;
    sent = e.sent;
    earlier_open = e.earlier_open;
    told = e.told;
  }

  close_stream-Over : (stream : Option ℕ) (w : World) → Over p w → Over p (close_stream stream w)
  unfolding close_stream
  close_stream-Over none w h = h
  close_stream-Over (some stream) w (inl e) = inl (close_stream-Ended (some stream) w e)
  close_stream-Over (some stream) w (inr (inl s)) =
      inr (inl (record { sent_open = s.sent_open; claimed = s.claimed }))
  close_stream-Over (some stream) w (inr (inr (begun, g, why))) =
      inr (
        inr
          (begun, record { sent_open = g.sent_open; unclaimed = g.unclaimed; flag = g.flag }, why))

  closed-Over :
      (m : Result Exit (Unit {0}) × World)
      → Holds (λ _. Ended p) (Raising p) m
      → Holds (λ _. Ended p) (Raising p) (m.0, close_stream m.1.runtime_stream m.1)
  closed-Over (ok a, w) h = close_stream-Ended w.runtime_stream w h
  closed-Over (err e, w) h = close_stream-Over w.runtime_stream w h

  -- An execution whose outcome is not claimed and that has sent no last event, whatever the runtime
  -- streams or raises, whichever sessions fail or lose the answer of their commit, whenever requests to
  -- cancel arrive and the reader leaves: if it returns, exactly one event ends it, as the last one that
  -- is sent. It is `done` only where completion was claimed and no request to cancel was accepted, and
  -- `cancelled` only where that was claimed; then the last write to the database was that status with
  -- that result. Where it is an error, an outcome was claimed, and the last write was FAILED with its
  -- code and result, or its code is that of a failure to store and no row of the answer is in progress:
  -- a commit whose answer was lost may have written another end. If it raises, then either this holds
  -- too, or no such event was sent and the outcome is claimed, or the outcome is still open and no
  -- partial result could be made of the answer.
  pub execute-Over :
      (stream : Stream) (w : World)
      → all_open w.sent ≡ true
      → w.state.terminal ≡ none
      → Holds (λ _. Ended p) (λ raised. Over p) (execute python p stream w)
  unfolding execute
  execute-Over stream w sent_open unclaimed =
      closed-Over (excepted python p (attempt python p stream w)) (
        excepted-Over (attempt python p stream w) (
          attempt-Ended p python stream w.started w
            (record { sent_open = sent_open; unclaimed = unclaimed; flag = refl })))
