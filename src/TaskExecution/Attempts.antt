-- ===== src/TaskExecution/Attempts.antt =====
-- What the `try` block of `execute` leaves.
use auto_reign.Prelude.{
  ℕ, ◌≡◌, refl, inl, inr, Bool, true, false, Option, none, some, List, ok, err, if◌then◌else◌,
}
use auto_reign.Prelude.Exec.{Exec, ◌>>◌}
use auto_reign.Reducer.{Python}
use auto_reign.Tasks.{mark_running}
use auto_reign.Cancellation.{TerminalOutcome, is_some, attach_stream}
use auto_reign.TaskExecution.Failures.{Failure, Exit, failure, closed, provider_failed}
use auto_reign.TaskExecution.World.{
  PreparedTaskExecution, Payload, start, World, tail_of, arrive, check_cancel, attach, yield_event,
}
use auto_reign.TaskExecution.Finish.{finish_execution}
use auto_reign.TaskExecution.Execute.{
  Item, Stream, yield_if, run_stream, end_cancelled, yield_end, complete, stream_or_failure, answer,
  begin, attempt, yield_or_raise,
}
use auto_reign.TaskExecution.Ends.{
  Holds, Holds-bind, Holds-weaken, Going, Ended, arrive-Going, in_session-cases,
}
use auto_reign.TaskExecution.Claims.{finish_execution-Finished}
use auto_reign.TaskExecution.Stores.{Finished, Unfinished}
use auto_reign.TaskExecution.Loop.{
  Attempted, Left, check_cancel-Going, yield_open-Going, yield_last-Ended, run_stream-Going,
}

module _ (p : PreparedTaskExecution) where
  Left-Attempted : (e : Exit) (w : World) → Left p e w → Attempted p e w
  Left-Attempted (failure f) w h = absurd h
  Left-Attempted closed w h = inl h

  Unfinished-Attempted :
      (begun : Bool) (desired : TerminalOutcome) (e : Exit) (w : World)
      → Unfinished begun desired e w
      → Attempted p e w
  Unfinished-Attempted begun desired (failure f) w (inl (g, why)) = inl (begun, g)
  Unfinished-Attempted begun desired (failure f) w (inr silent) = inr silent
  Unfinished-Attempted begun desired closed w h = absurd h

  yield_if-Ended :
      (end : Option Payload) (w : World)
      → Finished p end w
      → Holds (λ _. Ended p) (Left p) (yield_if p end w)
  unfolding yield_if
  yield_if-Ended none w h = absurd h
  yield_if-Ended (some payload) w h = yield_last-Ended p payload w h.0 h.1

  yield_end-Ended :
      (end : Option Payload) (w : World)
      → Finished p end w
      → Holds (λ _. Ended p) (Left p) (yield_end p end w)
  unfolding yield_end
  yield_end-Ended none w h = absurd h
  yield_end-Ended (some payload) w h = yield_last-Ended p payload w h.0 h.1

  pub yield_or_raise-Ended :
      (f : Failure) (end : Option Payload) (w : World)
      → Finished p end w
      → Holds (λ _. Ended p) (Left p) (yield_or_raise p f end w)
  unfolding yield_or_raise
  yield_or_raise-Ended f none w h = absurd h
  yield_or_raise-Ended f (some payload) w h = yield_last-Ended p payload w h.0 h.1

  end_cancelled-Ended :
      (python : Python) (begun : Bool) (w : World)
      → Going begun w
      → Holds (λ _. Ended p) (Attempted p) (end_cancelled python p w)
  unfolding end_cancelled
  end_cancelled-Ended python begun w g =
      Holds-bind (Finished p) (λ _. Ended p) (Unfinished begun TerminalOutcome.cancelled)
        (Attempted p) (finish_execution python p TerminalOutcome.cancelled provider_failed w)
        (yield_if p)
        (finish_execution-Finished p python begun TerminalOutcome.cancelled provider_failed w g)
        (λ end v h.
          Holds-weaken (λ _. Ended p) (λ _. Ended p) (Left p) (Attempted p) (yield_if p end v)
            (yield_if-Ended end v h) (λ _ u e. e) Left-Attempted)
        (Unfinished-Attempted begun TerminalOutcome.cancelled)

  complete-Ended :
      (python : Python) (w : World)
      → Going true w
      → Holds (λ _. Ended p) (Attempted p) (complete python p w)
  unfolding complete
  complete-Ended python w g =
      Holds-bind (λ stops. Going true) (λ _. Ended p) (Attempted p) (Attempted p) (check_cancel w) _
        (check_cancel-Going p true w g)
        (λ stops v k.
          let desired = if stops then TerminalOutcome.cancelled else TerminalOutcome.completed in
          Holds-bind (Finished p) (λ _. Ended p) (Unfinished true desired) (Attempted p)
            (finish_execution python p desired provider_failed v) (yield_end p)
            (finish_execution-Finished p python true desired provider_failed v k)
            (λ end u h.
              Holds-weaken (λ _. Ended p) (λ _. Ended p) (Left p) (Attempted p) (yield_end p end u)
                (yield_end-Ended end u h) (λ _ x e. e) Left-Attempted)
            (Unfinished-Attempted true desired))
        (λ e v h. h)

  attach-Going :
      (stream : ℕ) (begun : Bool) (w : World)
      → Going begun w
      → Holds (λ goes_on. Going begun) (Attempted p) (attach stream w)
  unfolding attach attach_stream
  attach-Going stream begun w g =
      let later = arrive-Going begun w g in
      let none_yet : is_some (arrive w).state.terminal ≡ false = rw later.unclaimed refl in
      rw none_yet (record { sent_open = g.sent_open; unclaimed = later.unclaimed; flag = g.flag })

  stream_or_failure-Going :
      (stream : Stream) (w : World)
      → Going true w
      → Holds (λ _. Going true) (Attempted p) (stream_or_failure stream w)
  unfolding stream_or_failure
  stream_or_failure-Going (err f) w g = inl (true, g)
  stream_or_failure-Going (ok stream) w g = g

  attached-Ended :
      (python : Python) (goes_on : Bool) (items : List Item) (w : World)
      → Going true w
      → Holds
          (λ _. Ended p)
          (Attempted p)
          ((if goes_on
              then (run_stream python p items >> complete python p)
              else end_cancelled python p)
            w)
  attached-Ended python true items w g =
      Holds-bind (λ _. Going true) (λ _. Ended p) (Attempted p) (Attempted p)
        (run_stream python p items w) _ (run_stream-Going p python items w g)
        (λ _ v k. complete-Ended python v k) (λ e v h. h)
  attached-Ended python false items w g = end_cancelled-Ended python true w g

  answer-Ended :
      (python : Python) (stream : Stream) (w : World)
      → Going true w
      → Holds (λ _. Ended p) (Attempted p) (answer python p stream w)
  unfolding answer
  answer-Ended python stream w g =
      Holds-bind (λ _. Going true) (λ _. Ended p) (Attempted p) (Attempted p)
        (stream_or_failure stream w) _ (stream_or_failure-Going stream w g)
        (λ begun v k.
          let with_stream : Going true (record v { runtime_stream = some begun.0 }) = record {
            sent_open = k.sent_open;
            unclaimed = k.unclaimed;
            flag = k.flag;
          } in
          Holds-bind (λ goes_on. Going true) (λ _. Ended p) (Attempted p) (Attempted p)
            (attach begun.0 (record v { runtime_stream = some begun.0 })) _
            (attach-Going begun.0 true (record v { runtime_stream = some begun.0 }) with_stream)
            (λ goes_on u l. attached-Ended python goes_on begun.1 u l) (λ e u h. h))
        (λ e v h. h)

  either-Ended :
      (python : Python) (stops begun : Bool) (rest : Exec World Exit (Unit {0})) (w : World)
      → Going begun w
      → Holds (λ _. Ended p) (Attempted p) (rest w)
      → Holds (λ _. Ended p) (Attempted p) ((if stops then end_cancelled python p else rest) w)
  either-Ended python true begun rest w g h = end_cancelled-Ended python begun w g
  either-Ended python false begun rest w g h = h

  begin-Ended :
      (python : Python) (stream : Stream) (begun : Bool) (w : World)
      → Going begun w
      → Holds (λ _. Ended p) (Attempted p) (begin python p stream w)
  unfolding begin
  begin-Ended python stream begun w g =
      elim (in_session-cases (λ now. mark_running now p.user_id p.assistant_subtask_id) w) [
        | inl (f, _, e) ↦ rw e (
            inl (begun, record { sent_open = g.sent_open; unclaimed = g.unclaimed; flag = g.flag }))
        | inr (now, a, db, called, e) ↦
            let running : World = record w {
              sessions = tail_of w.sessions;
              db = db;
              started = true;
            } in
            let k : Going true running = record {
              sent_open = g.sent_open;
              unclaimed = g.unclaimed;
              flag = refl;
            } in
            rw e (
              Holds-bind (λ _. Going true) (λ _. Ended p) (Attempted p) (Attempted p)
                (yield_event p start running) _ (yield_open-Going p start running refl k)
                (λ _ v l.
                  Holds-bind (λ stops. Going true) (λ _. Ended p) (Attempted p) (Attempted p)
                    (check_cancel v) _ (check_cancel-Going p true v l)
                    (λ stops u m.
                      either-Ended python stops true (answer python p stream) u m
                        (answer-Ended python stream u m))
                    (λ e u h. h))
                (λ e v h. h))
      ]

  pub attempt-Ended :
      (python : Python) (stream : Stream) (begun : Bool) (w : World)
      → Going begun w
      → Holds (λ _. Ended p) (Attempted p) (attempt python p stream w)
  unfolding attempt
  attempt-Ended python stream begun w g =
      Holds-bind (λ stops. Going begun) (λ _. Ended p) (Attempted p) (Attempted p) (check_cancel w)
        _ (check_cancel-Going p begun w g)
        (λ stops v k.
          either-Ended python stops begun (begin python p stream) v k
            (begin-Ended python stream begun v k))
        (λ e v h. h)
