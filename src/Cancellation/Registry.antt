-- ===== src/Cancellation/Registry.antt =====
-- The executions by their tasks. An object is known by its number among those that were made, so that
-- what one thread does to it the other sees.
use auto_reign.Prelude.{
  ℕ, Bool, false, not, ◌||◌, Option, none, some, List, [], ◌∷◌, ◌++◌, length, get_elem?, set,
  nat_beq, nat_key, if◌then◌else◌,
}
use auto_reign.Prelude.Dict
use auto_reign.Prelude.Dict.{Dict}
use auto_reign.Cancellation.State.{TaskExecutionState, new_state, request_cancel}

pub record TaskExecutionCancellationRegistry : Type 0 where
  pub objects : List TaskExecutionState
  pub by_task : Dict ℕ ℕ

abbrev pub new_registry : TaskExecutionCancellationRegistry
new_registry = record { objects = []; by_task = [] }

-- A new object, filed under its task.
unfoldable pub prepare :
    ℕ → ℕ → ℕ → TaskExecutionCancellationRegistry → ℕ × TaskExecutionCancellationRegistry
prepare user_id task_id assistant_subtask_id r = (
  length r.objects,
  record {
    objects = r.objects ++ (new_state user_id task_id assistant_subtask_id ∷ []);
    by_task = Dict.put task_id (length r.objects) r.by_task;
  },
)

abbrev pub with_number {ℓ} : {A : Type ℓ} → ℕ → Option A → Option (ℕ × A)
with_number i none = none
with_number i (some a) = some (i, a)

unfoldable pub found_object :
    TaskExecutionCancellationRegistry → Option ℕ → Option (ℕ × TaskExecutionState)
found_object r none = none
found_object r (some i) = with_number i (get_elem? r.objects i)

-- self._by_task.get(task_id)
unfoldable pub filed : ℕ → TaskExecutionCancellationRegistry → Option (ℕ × TaskExecutionState)
unfolding found_object
filed task_id r = found_object r (Dict.get task_id r.by_task)

unfoldable pub claim_found :
    ℕ
    → ℕ
    → ℕ
    → Option (ℕ × TaskExecutionState)
    → TaskExecutionCancellationRegistry
    → ℕ × TaskExecutionCancellationRegistry
claim_found user_id task_id assistant_subtask_id none r =
    prepare user_id task_id assistant_subtask_id r
claim_found user_id task_id assistant_subtask_id (some (i, s)) r =
    if not (nat_beq s.user_id user_id) || not (nat_beq s.assistant_subtask_id assistant_subtask_id)
    then prepare user_id task_id assistant_subtask_id r
    else (i, r)

unfoldable pub claim :
    ℕ → ℕ → ℕ → TaskExecutionCancellationRegistry → ℕ × TaskExecutionCancellationRegistry
unfolding claim_found
claim user_id task_id assistant_subtask_id r =
    claim_found user_id task_id assistant_subtask_id (filed task_id r) r

-- `request_cancel` of the registry, once it has looked the object up. The object is asked after the
-- lock of the registry is given back; it is the same object whatever is filed meanwhile.
unfoldable pub cancel_found :
    ℕ
    → Option (ℕ × TaskExecutionState)
    → TaskExecutionCancellationRegistry
    → (Bool × Option ℕ) × TaskExecutionCancellationRegistry
cancel_found user_id none r = ((false, none), r)
cancel_found user_id (some (i, s)) r =
    let (reply, after) = request_cancel s in
    if not (nat_beq s.user_id user_id)
    then ((false, none), r)
    else (reply, record r { objects = set r.objects i after })

unfoldable pub request_cancel_of :
    ℕ
    → ℕ
    → TaskExecutionCancellationRegistry
    → (Bool × Option ℕ) × TaskExecutionCancellationRegistry
unfolding cancel_found
request_cancel_of user_id task_id r = cancel_found user_id (filed task_id r) r

abbrev pub is_object : ℕ → Option ℕ → Bool
is_object i none = false
is_object i (some j) = nat_beq j i

unfoldable pub discard_found :
    ℕ
    → Option TaskExecutionState
    → TaskExecutionCancellationRegistry
    → TaskExecutionCancellationRegistry
discard_found i none r = r
discard_found i (some s) r =
    if is_object i (Dict.get s.task_id r.by_task)
    then record r { by_task = Dict.pop s.task_id r.by_task }
    else r

unfoldable pub discard : ℕ → TaskExecutionCancellationRegistry → TaskExecutionCancellationRegistry
unfolding discard_found
discard i r = discard_found i (get_elem? r.objects i) r
