-- ===== src/TaskExecution/Execute.antt =====
-- `execute`, with its loop over the events of the runtime.
use auto_reign.Prelude.{
  ℕ, Bool, true, false, Option, none, some, List, [], ◌∷◌, ◌++◌, codes, Result, ok, err, map_err,
  if◌then◌else◌,
}
use auto_reign.Prelude.Exec.{pure, raise, modify, ◌>>=◌, ◌>>◌}
use auto_reign.RuntimeTypes.{RuntimeEvent}
use auto_reign.ChatBlocks.{Fresh}
use auto_reign.Reducer.{Emission, Python, accept}
use auto_reign.Tasks.{mark_running}
use auto_reign.Cancellation.{TerminalOutcome}
use auto_reign.TaskExecution.Failures.{
  Failure, claim_lost, Exit, failure, closed, provider_failed, safe_execution_error_code,
}
use auto_reign.TaskExecution.World.{
  PreparedTaskExecution, Payload, start, emitted, World, Method, check_cancel, attach, yield_event,
  in_session,
}
use auto_reign.TaskExecution.Finish.{reducer_exit, finish_execution}

-- What `next` meets: an event, with the id and the time of its moment, or an exception.
pub data Item : Type 0 where
  event : Fresh → RuntimeEvent → Item
  raises : Failure → Item

-- The stream of the runtime and what its iterator gives, or the failure to begin it.
abbrev pub Stream : Type 0
Stream = Result Failure (ℕ × List Item)

-- `if state.cancel_requested(): break`
abbrev pub unless : Bool → Method (Unit {0}) → Method (Unit {0})
unless true rest = pure tt
unless false rest = rest

-- if event is not None: yield event
unfoldable pub yield_if : PreparedTaskExecution → Option Payload → Method (Unit {0})
yield_if prepared none = pure tt
yield_if prepared (some payload) = yield_event prepared payload

unfoldable pub send_all : PreparedTaskExecution → List Emission → Method (Unit {0})
send_all prepared [] = pure tt
send_all prepared (e ∷ emissions) = do
  yield_event prepared (emitted e)
  stops ← check_cancel
  unless stops (send_all prepared emissions)

-- reducer.accept(runtime_event)
unfoldable pub reduce : Python → Fresh → RuntimeEvent → Method (List Emission)
reduce python fresh e w =
    let (emissions, reducer) = accept python fresh e w.reducer in
    (map_err reducer_exit emissions, record w { reducer = reducer })

unfoldable pub next_event : Item → Method (Fresh × RuntimeEvent)
next_event (event fresh e) = pure (fresh, e)
next_event (raises f) = raise (failure f)

-- The `while` loop.
unfoldable pub run_stream : Python → PreparedTaskExecution → List Item → Method (Unit {0})
unfolding next_event
run_stream python prepared [] = do _ ← check_cancel; pure tt
run_stream python prepared (item ∷ items) = do
  stops ← check_cancel
  unless stops (do
    (fresh, e) ← next_event item
    stops ← check_cancel
    unless stops (do
      emissions ← reduce python fresh e
      stops ← check_cancel
      unless stops (do
        send_all prepared emissions
        stops ← check_cancel
        unless stops (run_stream python prepared items))))

-- The three places where a cancellation ends the execution before its loop.
unfoldable pub end_cancelled : Python → PreparedTaskExecution → Method (Unit {0})
end_cancelled python prepared = do
  end ← finish_execution python prepared TerminalOutcome.cancelled provider_failed
  yield_if prepared end

unfoldable pub yield_end : PreparedTaskExecution → Option Payload → Method (Unit {0})
yield_end prepared none = raise (failure claim_lost)
yield_end prepared (some payload) = yield_event prepared payload

unfoldable pub complete : Python → PreparedTaskExecution → Method (Unit {0})
unfolding yield_end
complete python prepared = do
  stops ← check_cancel
  end ←
      finish_execution python prepared
        (if stops then TerminalOutcome.cancelled else TerminalOutcome.completed) provider_failed
  yield_end prepared end

unfoldable pub stream_or_failure : Stream → Method (ℕ × List Item)
stream_or_failure (err f) = raise (failure f)
stream_or_failure (ok stream) = pure stream

-- From the call of the runtime on.
unfoldable pub answer : Python → PreparedTaskExecution → Stream → Method (Unit {0})
unfolding stream_or_failure
answer python prepared stream = do
  (number, items) ← stream_or_failure stream
  modify (λ w. record w { runtime_stream = some number })
  goes_on ← attach number
  if goes_on
      then (run_stream python prepared items >> complete python prepared)
      else end_cancelled python prepared

unfoldable pub begin : Python → PreparedTaskExecution → Stream → Method (Unit {0})
begin python prepared stream = do
  in_session (λ now. mark_running now prepared.user_id prepared.assistant_subtask_id)
  modify (λ w. record w { started = true })
  yield_event prepared start
  stops ← check_cancel
  if stops then end_cancelled python prepared else answer python prepared stream

-- The `try` block.
unfoldable pub attempt : Python → PreparedTaskExecution → Stream → Method (Unit {0})
attempt python prepared stream = do
  stops ← check_cancel
  if stops then end_cancelled python prepared else begin python prepared stream

unfoldable pub yield_or_raise : PreparedTaskExecution → Failure → Option Payload → Method (Unit {0})
yield_or_raise prepared f none = raise (failure f)
yield_or_raise prepared f (some payload) = yield_event prepared payload

-- `except Exception`
unfoldable pub fail : Python → PreparedTaskExecution → Failure → Method (Unit {0})
unfolding yield_or_raise
fail python prepared f = do
  end ← finish_execution python prepared TerminalOutcome.failed (safe_execution_error_code f)
  yield_or_raise prepared f end

-- `_finish_closed_safely` before the exception goes on.
unfoldable pub leaving :
    Python → PreparedTaskExecution → Bool → World → Result Exit (Unit {0}) × World
leaving python prepared false w = (err closed, w)
leaving python prepared true w = (
  err closed,
  (finish_execution python prepared TerminalOutcome.failed (codes "generation_closed") w).1,
)

unfoldable pub leave : Python → PreparedTaskExecution → World → Result Exit (Unit {0}) × World
unfolding leaving
leave python prepared w = leaving python prepared w.started w

unfoldable pub excepted :
    Python → PreparedTaskExecution → Result Exit (Unit {0}) × World → Result Exit (Unit {0}) × World
excepted python prepared (ok _, w) = (ok tt, w)
excepted python prepared (err (failure f), w) = fail python prepared f w
excepted python prepared (err closed, w) = leave python prepared w

-- `_close_stream_safely`
unfoldable pub close_stream : Option ℕ → World → World
close_stream none w = w
close_stream (some stream) w = record w { closed_streams = w.closed_streams ++ (stream ∷ []) }

-- `execute` on the state that it has claimed.
unfoldable pub execute : Python → PreparedTaskExecution → Stream → Method (Unit {0})
execute python prepared stream w =
    let (result, after) = excepted python prepared (attempt python prepared stream w) in
    (result, close_stream after.runtime_stream after)
