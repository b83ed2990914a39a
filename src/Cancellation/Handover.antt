-- ===== src/Cancellation/Handover.antt =====
-- Which stream a request to cancel is given (task_execution_cancellation.py).
use auto_reign.Prelude.{
  ℕ, ◌≡◌, refl, ◌∙◌, sym, inl, inr, true, false, ◌||◌, Option, none, some, List, [], ◌∷◌, arith,
  Bool-cases,
}
use auto_reign.Cancellation.State.{
  TaskExecutionState, new_state, is_some, request_cancel, attach_stream, claim_terminal,
}
use auto_reign.Cancellation.Interleavings.{Call, cancel, look, attach, claim, call, calls}

-- The stream of the last call of `attach_stream`, before which there was `first`.
abbrev pub last_attached : Option ℕ → List Call → Option ℕ
last_attached first [] = first
last_attached first (attach stream ∷ cs) = last_attached (some stream) cs
last_attached first (_ ∷ cs) = last_attached first cs

-- A finished execution stays finished, and a request that was accepted stays accepted.
closed-call :
    (c : Call) (s : TaskExecutionState)
    → is_some s.terminal || s.cancel_flag ≡ true
    → is_some (call c s).1.terminal || (call c s).1.cancel_flag ≡ true
unfolding call request_cancel attach_stream claim_terminal
closed-call cancel s h = ground arith
closed-call look s h = ground arith
closed-call (attach stream) s h = ground arith
closed-call (claim desired) s h = ground arith

closed-calls :
    (cs : List Call) (s : TaskExecutionState)
    → is_some s.terminal || s.cancel_flag ≡ true
    → is_some (calls cs s).terminal || (calls cs s).cancel_flag ≡ true
unfolding calls
closed-calls [] s h = h
closed-calls (c ∷ cs) s h = closed-calls cs (call c s).1 (closed-call c s h)

-- A call that leaves the execution open.
open-call :
    (c : Call) (s : TaskExecutionState) (cs : List Call)
    → is_some s.terminal || s.cancel_flag ≡ false
    → is_some (call c s).1.terminal || (call c s).1.cancel_flag ≡ false
    → last_attached s.runtime_stream (c ∷ cs) ≡ last_attached (call c s).1.runtime_stream cs
unfolding call request_cancel attach_stream claim_terminal
open-call cancel s cs h k = ground arith
open-call look s cs h k = refl
open-call (attach stream) s cs h k = ground arith
open-call (claim desired) s cs h k = ground arith

open-calls :
    (cs : List Call) (s : TaskExecutionState)
    → is_some s.terminal || s.cancel_flag ≡ false
    → is_some (calls cs s).terminal || (calls cs s).cancel_flag ≡ false
    → (calls cs s).runtime_stream ≡ last_attached s.runtime_stream cs
unfolding calls
open-calls [] s h k = refl
open-calls (c ∷ cs) s h k =
    elim (Bool-cases (is_some (call c s).1.terminal || (call c s).1.cancel_flag)) [
      | inl closed ↦ cc (closed-calls cs (call c s).1 closed)
      | inr still ↦ open-calls cs (call c s).1 still k ∙ sym (open-call c s cs h still)
    ]

accepted-open :
    (s : TaskExecutionState) (stream : Option ℕ)
    → (request_cancel s).0 ≡ (true, stream)
    → (is_some s.terminal || s.cancel_flag ≡ false) × (stream ≡ s.runtime_stream)
unfolding request_cancel
accepted-open s stream h = ground arith

-- Whoever has a request accepted, after whatever calls on a new execution, is given the stream that
-- was attached last, or none where none was.
pub request_cancel-last_attached :
    (user_id task_id subtask_id : ℕ) (cs : List Call) (stream : Option ℕ)
    → (request_cancel (calls cs (new_state user_id task_id subtask_id))).0 ≡ (true, stream)
    → stream ≡ last_attached none cs
request_cancel-last_attached user_id task_id subtask_id cs stream h =
    let s = new_state user_id task_id subtask_id in
    let (still, is_stream) = accepted-open (calls cs s) stream h in
    is_stream ∙ open-calls cs s refl still
