-- ===== src/Cancellation/Examples.antt =====
-- A user who stops an answer, at each point of its way.
use auto_reign.Prelude.{◌≡◌, refl, ◌≤◌, true, none, some, List, [], ◌∷◌}
use auto_reign.Cancellation.State.{TerminalOutcome, new_state, request_cancel, attach_stream}
use auto_reign.Cancellation.Registry.{
  TaskExecutionCancellationRegistry, new_registry, prepare, claim, request_cancel_of,
}
use auto_reign.Cancellation.Interleavings.{
  Call, cancel, look, attach, All, IsCancelledReply, claims, acceptances, call, calls, replies,
  replies-once, replies-cancelled,
}
use auto_reign.Cancellation.Handover.{last_attached, request_cancel-last_attached}
use auto_reign.Cancellation.Filed.{
  IsFiled, made, prepared, cancel_asked, was_claimed, Reached-IsFiled,
}
use auto_reign.Cancellation.Early.{IsCancelledEarly, prepare-request_cancel-claim}

abbrev race : List Call
race =
    look
    ∷ attach 5
    ∷ cancel
    ∷ Call.claim TerminalOutcome.completed
    ∷ cancel
    ∷ Call.claim TerminalOutcome.failed
    ∷ []

replies-once_example :
    (claims (replies race (new_state 3 7 2)) ≤ 1)
    × (acceptances (replies race (new_state 3 7 2)) ≤ 1)
replies-once_example = replies-once 3 7 2 race

first_reply : (request_cancel (new_state 3 7 2)).0 ≡ (true, none)
unfolding request_cancel
first_reply = refl

replies-cancelled_example : All IsCancelledReply (replies race (request_cancel (new_state 3 7 2)).1)
replies-cancelled_example = replies-cancelled (new_state 3 7 2) none race first_reply

abbrev attached_twice : List Call
attached_twice = attach 5 ∷ look ∷ attach 6 ∷ []

later_reply : (request_cancel (calls attached_twice (new_state 3 7 2))).0 ≡ (true, some 6)
unfolding calls call attach_stream request_cancel
later_reply = refl

request_cancel-last_attached_example : some 6 ≡ last_attached none attached_twice
request_cancel-last_attached_example =
    request_cancel-last_attached 3 7 2 attached_twice (some 6) later_reply

abbrev stopped : TaskExecutionCancellationRegistry
stopped = (claim 3 7 2 (request_cancel_of 3 7 (prepare 3 7 2 new_registry).1).1).1

Reached-IsFiled_example : IsFiled stopped
Reached-IsFiled_example = Reached-IsFiled stopped (
    was_claimed (request_cancel_of 3 7 (prepare 3 7 2 new_registry).1).1 3 7 2
      (cancel_asked (prepare 3 7 2 new_registry).1 3 7 (prepared new_registry 3 7 2 made)))

prepare-request_cancel-claim_example :
    IsCancelledEarly
      (prepare 3 7 2 new_registry).0
      (request_cancel_of 3 7 (prepare 3 7 2 new_registry).1)
      (claim 3 7 2 (request_cancel_of 3 7 (prepare 3 7 2 new_registry).1).1)
prepare-request_cancel-claim_example = prepare-request_cancel-claim 3 7 2 new_registry
