-- ===== src/TaskExecution/Finish.antt =====
-- How an execution ends: the claim of the outcome, and its way into the database.
use auto_reign.Prelude.{Option, none, some, Text, codes, Result, ok, err, map_err}
use auto_reign.Prelude.Exec.{Exec, pure, raise, ◌>>=◌, ◌>>◌}
use auto_reign.Json.{Value}
use auto_reign.Reducer.{
  Python, ReducerError, Success, success_value, finish_success, Partial, partial_value,
  partial_result,
}
use auto_reign.Tasks.{Status, finish_assistant, cancel_assistant, fail_active_assistant}
use auto_reign.Cancellation.{TerminalOutcome}
use auto_reign.TaskExecution.Failures.{Failure, reducer_failure, Exit, failure, closed}
use auto_reign.TaskExecution.World.{
  PreparedTaskExecution, Payload, done, failed, cancelled, World, Method, claim_outcome, in_session,
}

-- `except Exception`: what was done before the exception stays done.
unfoldable pub handle {ℓ} :
    {A : Type ℓ} → Result Exit A × World → (Failure → Exec World Exit A) → Result Exit A × World
handle (err (failure f), w) handler = handler f w
handle (err closed, w) handler = (err closed, w)
handle (ok a, w) handler = (ok a, w)

abbrev pub reducer_exit : ReducerError → Exit
reducer_exit e = failure (reducer_failure e)

value_of_success : Result ReducerError Success → Result ReducerError Value
value_of_success (ok r) = ok (success_value r)
value_of_success (err e) = err e

abbrev pub value_of_partial : Result ReducerError Partial → Result ReducerError Value
value_of_partial (ok r) = ok (partial_value r)
value_of_partial (err e) = err e

unfoldable pub partial_envelope : Method Value
partial_envelope w = (map_err reducer_exit (value_of_partial (partial_result w.reducer)), w)

unfoldable pub success_envelope : Python → Method Value
unfolding value_of_success
success_envelope python w =
    (map_err reducer_exit (value_of_success (finish_success python w.reducer)), w)

unfoldable pub envelope : Python → TerminalOutcome → Method Value
envelope python TerminalOutcome.completed = success_envelope python
envelope python _ = partial_envelope

abbrev pub persistence_failed : Text
persistence_failed = codes "generation_persistence_failed"

-- `_terminal_persistence_failed`: the result of the fallback's call is not read; its own failure gives
-- way to the first one.
unfoldable pub terminal_persistence_failed : PreparedTaskExecution → Failure → Method Payload
unfolding partial_envelope handle
terminal_persistence_failed prepared original = do
  result ← partial_envelope
  _ ← λ w.
      handle
        (in_session
          (λ now.
            fail_active_assistant now prepared.user_id prepared.task_id
              prepared.assistant_subtask_id (some result) persistence_failed)
          w)
        (λ fallback. raise (failure original))
  pure (failed persistence_failed result)

unfoldable pub store_completed : PreparedTaskExecution → Value → Method Payload
store_completed prepared result = do
  in_session (λ now.
      finish_assistant now prepared.user_id prepared.assistant_subtask_id Status.completed
        (some result) none)
  pure (done result)

unfoldable pub store_cancelled : PreparedTaskExecution → Value → Method Payload
store_cancelled prepared result = do
  in_session
      (λ now. cancel_assistant now prepared.user_id prepared.assistant_subtask_id (some result))
  pure (cancelled result)

unfoldable pub store_failed : PreparedTaskExecution → Text → Value → Method Payload
store_failed prepared error_code result = do
  in_session (λ now.
      finish_assistant now prepared.user_id prepared.assistant_subtask_id Status.failed
        (some result) (some error_code))
  pure (failed error_code result)

-- `partial_result` again, where a cancellation came in between.
unfoldable pub settled_envelope : TerminalOutcome → Value → Method Value
settled_envelope TerminalOutcome.cancelled result = pure result
settled_envelope _ result = partial_envelope

-- What follows the claim.
-- The two outcomes whose failure to be stored has a fallback.
unfoldable pub persist_completed : PreparedTaskExecution → Value → Method Payload
persist_completed prepared result w =
    handle (store_completed prepared result w) (terminal_persistence_failed prepared)

unfoldable pub persist_cancelled : PreparedTaskExecution → Value → Method Payload
persist_cancelled prepared result w =
    handle (store_cancelled prepared result w) (terminal_persistence_failed prepared)

unfoldable pub persist :
    PreparedTaskExecution → TerminalOutcome → Text → Value → TerminalOutcome → Method Payload
persist prepared desired error_code result TerminalOutcome.completed =
    persist_completed prepared result
persist prepared desired error_code result TerminalOutcome.cancelled =
    settled_envelope desired result >>= persist_cancelled prepared
persist prepared desired error_code result TerminalOutcome.failed =
    store_failed prepared error_code result

unfoldable pub end_with :
    PreparedTaskExecution
    → TerminalOutcome
    → Text
    → Value
    → Option TerminalOutcome
    → Method (Option Payload)
end_with prepared desired error_code result none = pure none
end_with prepared desired error_code result (some outcome) = do
  payload ← persist prepared desired error_code result outcome
  pure (some payload)

-- `_finish_execution`
unfoldable pub finish_execution :
    Python → PreparedTaskExecution → TerminalOutcome → Text → Method (Option Payload)
finish_execution python prepared desired error_code = do
  result ← envelope python desired
  outcome ← claim_outcome desired
  end_with prepared desired error_code result outcome
