-- ===== src/Cancellation/Interleavings.antt =====
-- The thread of the execution and those that ask to cancel it, in any order of their calls.
use auto_reign.Prelude.{
  ℕ, ◌+◌, ◌≤◌, ◌≡◌, Bool, true, false, Option, none, some, List, [], ◌∷◌, arith,
}
use auto_reign.Cancellation.State.{
  TerminalOutcome, TaskExecutionState, new_state, request_cancel, cancel_requested, attach_stream,
  claim_terminal,
}

pub data Call : Type 0 where
  cancel look : Call
  attach : ℕ → Call
  claim : TerminalOutcome → Call

-- What a call returned.
pub data Reply : Type 0 where
  accepted : Bool → Option ℕ → Reply
  seen : Bool → Reply
  attached : Bool → Reply
  claimed : Option TerminalOutcome → Reply

unfoldable pub call : Call → TaskExecutionState → Reply × TaskExecutionState
unfolding request_cancel cancel_requested attach_stream claim_terminal
call cancel s =
    let ((accepts, stream), after) = request_cancel s in (accepted accepts stream, after)
call look s = (seen (cancel_requested s), s)
call (attach stream) s = let (goes_on, after) = attach_stream stream s in (attached goes_on, after)
call (claim desired) s = let (outcome, after) = claim_terminal desired s in (claimed outcome, after)

unfoldable pub calls : List Call → TaskExecutionState → TaskExecutionState
unfolding call
calls [] s = s
calls (c ∷ cs) s = calls cs (call c s).1

unfoldable pub replies : List Call → TaskExecutionState → List Reply
unfolding call
replies [] s = []
replies (c ∷ cs) s = (call c s).0 ∷ replies cs (call c s).1

-- The claims that were given an outcome, and the requests that were accepted.
abbrev pub claim_of : Reply → ℕ
claim_of (claimed (some _)) = 1
claim_of _ = 0

abbrev pub claims : List Reply → ℕ
claims [] = 0
claims (r ∷ rs) = claim_of r + claims rs

abbrev pub acceptance_of : Reply → ℕ
acceptance_of (accepted true _) = 1
acceptance_of _ = 0

abbrev pub acceptances : List Reply → ℕ
acceptances [] = 0
acceptances (r ∷ rs) = acceptance_of r + acceptances rs

-- The claims that may still succeed.
abbrev room : Option TerminalOutcome → ℕ
room none = 1
room (some _) = 0

abbrev cancel_room : Bool → ℕ
cancel_room true = 0
cancel_room false = 1

call-room :
    (c : Call) (s : TaskExecutionState)
    → (claim_of (call c s).0 + room (call c s).1.terminal ≤ room s.terminal)
      × (acceptance_of (call c s).0 + cancel_room (call c s).1.cancel_flag
          ≤ cancel_room s.cancel_flag)
unfolding call request_cancel cancel_requested attach_stream claim_terminal
call-room cancel s = ground arith
call-room look s = ground arith
call-room (attach stream) s = ground arith
call-room (claim desired) s = ground arith

calls-room :
    (cs : List Call) (s : TaskExecutionState)
    → (claims (replies cs s) ≤ room s.terminal)
      × (acceptances (replies cs s) ≤ cancel_room s.cancel_flag)
unfolding replies
calls-room [] s = (omega arith, omega arith)
calls-room (c ∷ cs) s =
    let one = call-room c s in let more = calls-room cs (call c s).1 in (omega arith, omega arith)

-- In any interleaving of calls on a new execution at most one claim is given an outcome, and at most
-- one request to cancel is accepted.
pub replies-once :
    (user_id task_id subtask_id : ℕ) (cs : List Call)
    → (claims (replies cs (new_state user_id task_id subtask_id)) ≤ 1)
      × (acceptances (replies cs (new_state user_id task_id subtask_id)) ≤ 1)
replies-once user_id task_id subtask_id cs = calls-room cs (new_state user_id task_id subtask_id)

-- What the replies after an accepted request look like.
abbrev pub IsCancelledReply : Reply → Type 0
IsCancelledReply (accepted accepts stream) = (accepts ≡ false) × (stream ≡ none)
IsCancelledReply (seen flag) = flag ≡ true
IsCancelledReply (attached goes_on) = goes_on ≡ false
IsCancelledReply (claimed none) = Unit
IsCancelledReply (claimed (some outcome)) = outcome ≡ TerminalOutcome.cancelled

abbrev pub All {ℓ} : {A : Type ℓ} → (A → Type 0) → List A → Type 0
All P [] = Unit
All P (x ∷ xs) = P x × All P xs

call-after_cancel :
    (c : Call) (s : TaskExecutionState)
    → s.cancel_flag ≡ true
    → IsCancelledReply (call c s).0 × ((call c s).1.cancel_flag ≡ true)
unfolding call request_cancel cancel_requested attach_stream claim_terminal
call-after_cancel cancel s h = ground arith
call-after_cancel look s h = ground arith
call-after_cancel (attach stream) s h = ground arith
call-after_cancel (claim desired) s h = ground arith

replies-after_cancel :
    (cs : List Call) (s : TaskExecutionState)
    → s.cancel_flag ≡ true
    → All IsCancelledReply (replies cs s)
unfolding replies
replies-after_cancel [] s h = tt
replies-after_cancel (c ∷ cs) s h =
    let (one, flag) = call-after_cancel c s h in (one, replies-after_cancel cs (call c s).1 flag)

-- A request that was accepted decides the execution: whatever calls follow, every claim that is
-- given an outcome is given CANCELLED, no stream that is attached may go on, the flag is seen, and
-- no second request is accepted.
pub replies-cancelled :
    (s : TaskExecutionState) (stream : Option ℕ) (cs : List Call)
    → (request_cancel s).0 ≡ (true, stream)
    → All IsCancelledReply (replies cs (request_cancel s).1)
unfolding request_cancel
replies-cancelled s stream cs h = replies-after_cancel cs (request_cancel s).1 (ground arith)
