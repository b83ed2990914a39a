-- ===== src/Cancellation/Early.antt =====
-- A cancellation that comes before the execution has begun.
use auto_reign.Prelude.{
  ℕ, ◌≡◌, refl, sym, ◌∙◌, ap, Bool, true, Option, none, some, length, get_elem?, set, nat_beq_iff,
  nat_key, arith, get_elem?-append_last, get_elem?-lt_length, get_elem?-set_self,
}
use auto_reign.Prelude.Dict
use auto_reign.Prelude.Dict.{Dict, get-put, get-pop}
use auto_reign.Cancellation.State.{
  TerminalOutcome, TaskExecutionState, new_state, request_cancel, claim_terminal,
}
use auto_reign.Cancellation.Registry.{
  TaskExecutionCancellationRegistry, prepare, found_object, filed, claim_found, claim, cancel_found,
  request_cancel_of,
}
use auto_reign.Cancellation.Filed.{HasObject, found_object-some}

-- What the execution finds: the object that was prepared, which ends as cancelled whatever it wants.
abbrev pub IsCancelledEarly :
    ℕ
    → (Bool × Option ℕ) × TaskExecutionCancellationRegistry
    → ℕ × TaskExecutionCancellationRegistry
    → Type 0
IsCancelledEarly i (reply, asked) (j, claimed) =
    (reply ≡ (true, none))
    × (j ≡ i)
    × HasObject claimed j (λ s.
      (desired : TerminalOutcome) → (claim_terminal desired s).0 ≡ some TerminalOutcome.cancelled)

pub prepared-by_task :
    (user_id task_id subtask_id : ℕ) (r : TaskExecutionCancellationRegistry)
    → Dict.get task_id (prepare user_id task_id subtask_id r).1.by_task ≡ some (length r.objects)
unfolding prepare
prepared-by_task user_id task_id subtask_id r =
    get-put task_id task_id (length r.objects) r.by_task ∙ ground arith

pub prepared-objects :
    (user_id task_id subtask_id : ℕ) (r : TaskExecutionCancellationRegistry)
    → get_elem? (prepare user_id task_id subtask_id r).1.objects (length r.objects)
      ≡ some (new_state user_id task_id subtask_id)
unfolding prepare
prepared-objects user_id task_id subtask_id r =
    get_elem?-append_last r.objects (new_state user_id task_id subtask_id)

prepared-number :
    (user_id task_id subtask_id : ℕ) (r : TaskExecutionCancellationRegistry)
    → (prepare user_id task_id subtask_id r).0 ≡ length r.objects
unfolding prepare
prepared-number user_id task_id subtask_id r = refl

filed-some :
    (r : TaskExecutionCancellationRegistry) (task_id i : ℕ) (s : TaskExecutionState)
    → Dict.get task_id r.by_task ≡ some i
    → get_elem? r.objects i ≡ some s
    → filed task_id r ≡ some (i, s)
unfolding filed
filed-some r task_id i s here there = ap (found_object r) here ∙ found_object-some r i s there

-- The request of the owner, where an object is filed that is not asked or ended yet.
asked-object :
    (user_id task_id subtask_id i : ℕ) (r : TaskExecutionCancellationRegistry)
    → filed task_id r ≡ some (i, new_state user_id task_id subtask_id)
    → request_cancel_of user_id task_id r ≡ (
      (true, none),
      record r {
        objects =
            set r.objects i (record (new_state user_id task_id subtask_id) { cancel_flag = true });
      },
    )
unfolding request_cancel_of cancel_found request_cancel
asked-object user_id task_id subtask_id i r found = rw found (ground arith)

claimed-object :
    (user_id task_id subtask_id i : ℕ) (s : TaskExecutionState)
    (r : TaskExecutionCancellationRegistry)
    → filed task_id r ≡ some (i, s)
    → s.user_id ≡ user_id
    → s.assistant_subtask_id ≡ subtask_id
    → claim user_id task_id subtask_id r ≡ (i, r)
unfolding claim claim_found
claimed-object user_id task_id subtask_id i s r found same_user same_subtask =
    rw found
      (ground (arith, nat_beq_iff s.user_id user_id, nat_beq_iff s.assistant_subtask_id subtask_id))

asked_ends :
    (user_id task_id subtask_id : ℕ) (desired : TerminalOutcome)
    → (claim_terminal desired
        (record (new_state user_id task_id subtask_id) { cancel_flag = true })).0
      ≡ some TerminalOutcome.cancelled
unfolding claim_terminal
asked_ends user_id task_id subtask_id desired = refl

-- A user who cancels between the preparation of an execution and its begin succeeds, without a
-- stream to close; the execution then claims the very object that was cancelled, and whatever
-- outcome it wants it is given CANCELLED.
pub prepare-request_cancel-claim :
    (user_id task_id subtask_id : ℕ) (r : TaskExecutionCancellationRegistry)
    → IsCancelledEarly
        (prepare user_id task_id subtask_id r).0
        (request_cancel_of user_id task_id (prepare user_id task_id subtask_id r).1)
        (claim user_id task_id subtask_id
          (request_cancel_of user_id task_id (prepare user_id task_id subtask_id r).1).1)
prepare-request_cancel-claim user_id task_id subtask_id r =
    let i = length r.objects in
    let first = (prepare user_id task_id subtask_id r).1 in
    let s : TaskExecutionState = record (new_state user_id task_id subtask_id) {
      cancel_flag = true;
    } in
    let here = prepared-by_task user_id task_id subtask_id r in
    let there = prepared-objects user_id task_id subtask_id r in
    let asked =
      asked-object user_id task_id subtask_id i first
        (filed-some first task_id i (new_state user_id task_id subtask_id) here there) in
    let second : TaskExecutionCancellationRegistry = record first {
      objects = set first.objects i s;
    } in
    let written : get_elem? second.objects i ≡ some s =
      get_elem?-set_self first.objects i s (get_elem?-lt_length first.objects i there) in
    let claims =
      claimed-object user_id task_id subtask_id i s second
        (filed-some second task_id i s here written) refl refl in
    rw (asked, claims)
      (
        refl,
        sym (prepared-number user_id task_id subtask_id r),
        (s, written, λ desired. asked_ends user_id task_id subtask_id desired),
      )
