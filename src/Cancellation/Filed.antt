-- ===== src/Cancellation/Filed.antt =====
-- Which object the registry has for a task.
use auto_reign.Prelude.{
  ℕ, ◌≡◌, refl, sym, ◌∙◌, ap, subst, inl, inr, not, ◌||◌, Option, none, some, [], ◌∷◌, ◌++◌, length,
  get_elem?, set, nat_beq, nat_beq_iff, nat_key, if◌then◌else◌, arith, Bool-cases,
  get_elem?-append_last, get_elem?-append_left, get_elem?-lt_length, get_elem?-set_self,
  get_elem?-set_ne,
}
use auto_reign.Prelude.Options.{Option-cases}
use auto_reign.Prelude.Dict
use auto_reign.Prelude.Dict.{Dict, get-put, get-pop}
use auto_reign.Cancellation.State.{
  TaskExecutionState, new_state, request_cancel, attach_stream, claim_terminal,
}
use auto_reign.Cancellation.Registry.{
  TaskExecutionCancellationRegistry, new_registry, prepare, found_object, filed, claim_found, claim,
  cancel_found, request_cancel_of, is_object, discard_found, discard,
}
use auto_reign.Cancellation.Interleavings.{Call, cancel, look, attach, call}

-- What an object keeps of whom it is for.
pub record SameExecution (s t : TaskExecutionState) : Type 0 where
  pub user_id : t.user_id ≡ s.user_id
  pub task_id : t.task_id ≡ s.task_id
  pub assistant_subtask_id : t.assistant_subtask_id ≡ s.assistant_subtask_id

-- An object and the one in the same place of a later registry.
abbrev pub HasObject :
    TaskExecutionCancellationRegistry → ℕ → (TaskExecutionState → Type 0) → Type 0
HasObject r i P = (s : TaskExecutionState) × (get_elem? r.objects i ≡ some s) × P s

-- Each object is filed under the task that it is for.
abbrev pub IsFiled : TaskExecutionCancellationRegistry → Type 0
IsFiled r =
    (task_id i : ℕ) → Dict.get task_id r.by_task ≡ some i → HasObject r i (λ s. s.task_id ≡ task_id)

request_cancel-SameExecution : (s : TaskExecutionState) → SameExecution s (request_cancel s).1
unfolding request_cancel
request_cancel-SameExecution s = record {
  user_id = ground arith;
  task_id = ground arith;
  assistant_subtask_id = ground arith;
}

pub call-SameExecution : (c : Call) (s : TaskExecutionState) → SameExecution s (call c s).1
unfolding call attach_stream claim_terminal
call-SameExecution cancel s = request_cancel-SameExecution s
call-SameExecution look s = record { user_id = refl; task_id = refl; assistant_subtask_id = refl }
call-SameExecution (attach stream) s = record {
  user_id = ground arith;
  task_id = ground arith;
  assistant_subtask_id = ground arith;
}
call-SameExecution (Call.claim desired) s = record {
  user_id = ground arith;
  task_id = ground arith;
  assistant_subtask_id = ground arith;
}

-- A call of the object with the number `i`.
abbrev pub call_found :
    ℕ
    → Call
    → Option TaskExecutionState
    → TaskExecutionCancellationRegistry
    → TaskExecutionCancellationRegistry
call_found i c none r = r
call_found i c (some s) r = record r { objects = set r.objects i (call c s).1 }

unfoldable pub call_object :
    ℕ → Call → TaskExecutionCancellationRegistry → TaskExecutionCancellationRegistry
call_object i c r = call_found i c (get_elem? r.objects i) r

-- A change of one object that leaves whom it is for.
set-IsFiled :
    (i : ℕ) (s t : TaskExecutionState) (r : TaskExecutionCancellationRegistry)
    → get_elem? r.objects i ≡ some s
    → SameExecution s t
    → IsFiled r
    → IsFiled (record r { objects = set r.objects i t })
set-IsFiled i s t r there same is_filed task_id j found =
    let (u, u_there, for_task) = is_filed task_id j found in
    elim (Bool-cases (nat_beq i j)) [
      | inl here ↦
          let one : i ≡ j = (nat_beq_iff i j).0 here in
          let written : get_elem? (set r.objects i t) j ≡ some t =
            subst (λ (k : ℕ). get_elem? (set r.objects i t) k ≡ some t) one
              (get_elem?-set_self r.objects i t (get_elem?-lt_length r.objects i there)) in
          let s_there : get_elem? r.objects j ≡ some s =
            subst (λ (k : ℕ). get_elem? r.objects k ≡ some s) one there in
          let same_object : some u ≡ some s = sym u_there ∙ s_there in
          (t, written, same.task_id ∙ (ground arith ∙ for_task))
      | inr other ↦ (
        u,
        get_elem?-set_ne r.objects i j t (λ one. cc ((nat_beq_iff i j).1 one)) ∙ u_there,
        for_task,
      )
    ]

prepare-IsFiled :
    (user_id task_id subtask_id : ℕ) (r : TaskExecutionCancellationRegistry)
    → IsFiled r
    → IsFiled (prepare user_id task_id subtask_id r).1
unfolding prepare
prepare-IsFiled user_id task_id subtask_id r is_filed other i found =
    let made = new_state user_id task_id subtask_id in
    let looked : (if nat_beq other task_id
          then some (length r.objects)
          else Dict.get other r.by_task)
        ≡ some i =
      sym (get-put task_id other (length r.objects) r.by_task) ∙ found in
    elim (Bool-cases (nat_beq other task_id)) [
      | inl same ↦
          let last : some (length r.objects) ≡ some i = rw same at looked in
          let number : length r.objects ≡ i = ground arith in
          (
            made,
            subst (λ (j : ℕ). get_elem? (r.objects ++ (made ∷ [])) j ≡ some made) number
                (get_elem?-append_last r.objects made),
            sym ((nat_beq_iff other task_id).0 same),
          )
      | inr apart ↦
          let before : Dict.get other r.by_task ≡ some i = rw apart at looked in
          let (s, there, for_task) = is_filed other i before in
          (
            s,
            get_elem?-append_left r.objects (made ∷ []) i (get_elem?-lt_length r.objects i there)
                ∙ there,
            for_task,
          )
    ]

found_object-there :
    (r : TaskExecutionCancellationRegistry) (o : Option ℕ) (i : ℕ) (s : TaskExecutionState)
    → found_object r o ≡ some (i, s)
    → (o ≡ some i) × (get_elem? r.objects i ≡ some s)
unfolding found_object
found_object-there r none i s h = ground arith
found_object-there r (some j) i s h = elim (Option-cases (get_elem? r.objects j)) [
  | inl nothing ↦
      let gone : ◌≡◌ {A = Option (ℕ × TaskExecutionState)} none (some (i, s)) = rw nothing at h in
      cc
  | inr (t, there) ↦
      let same : ◌≡◌ {A = Option (ℕ × TaskExecutionState)} (some (j, t)) (some (i, s)) =
        rw there at h in
      let number : j ≡ i = ground arith in
      let object : t ≡ s = ground arith in
      (
        ap some number,
        subst (λ (k : ℕ). get_elem? r.objects k ≡ some s) number (there ∙ ap some object),
      )
]

pub found_object-some :
    (r : TaskExecutionCancellationRegistry) (i : ℕ) (s : TaskExecutionState)
    → get_elem? r.objects i ≡ some s
    → found_object r (some i) ≡ some (i, s)
unfolding found_object
found_object-some r i s there = rw there refl

pub filed-there :
    (r : TaskExecutionCancellationRegistry) (task_id i : ℕ) (s : TaskExecutionState)
    → filed task_id r ≡ some (i, s)
    → (Dict.get task_id r.by_task ≡ some i) × (get_elem? r.objects i ≡ some s)
unfolding filed
filed-there r task_id i s h = found_object-there r (Dict.get task_id r.by_task) i s h

cancel_found-IsFiled :
    (user_id task_id : ℕ) (r : TaskExecutionCancellationRegistry)
    → IsFiled r
    → IsFiled (request_cancel_of user_id task_id r).1
unfolding request_cancel_of cancel_found
cancel_found-IsFiled user_id task_id r is_filed = elim (Option-cases (filed task_id r)) [
  | inl nothing ↦ rw nothing is_filed
  | inr ((i, s), found) ↦ elim (Bool-cases (nat_beq s.user_id user_id)) [
    | inr stranger ↦ rw (found, stranger) is_filed
    | inl owner ↦
        rw (found, owner)
          (set-IsFiled i s (request_cancel s).1 r (filed-there r task_id i s found).1
            (request_cancel-SameExecution s) is_filed)
  ]
]

claim-IsFiled :
    (user_id task_id subtask_id : ℕ) (r : TaskExecutionCancellationRegistry)
    → IsFiled r
    → IsFiled (claim user_id task_id subtask_id r).1
unfolding claim claim_found
claim-IsFiled user_id task_id subtask_id r is_filed = elim (Option-cases (filed task_id r)) [
  | inl nothing ↦ rw nothing (prepare-IsFiled user_id task_id subtask_id r is_filed)
  | inr ((i, s), found) ↦
      elim (Bool-cases
        (not (nat_beq s.user_id user_id) || not (nat_beq s.assistant_subtask_id subtask_id))) [
          | inl other ↦ rw (found, other) (prepare-IsFiled user_id task_id subtask_id r is_filed)
          | inr same ↦ rw (found, same) is_filed
        ]
]

pop-IsFiled :
    (task_id : ℕ) (r : TaskExecutionCancellationRegistry)
    → IsFiled r
    → IsFiled (record r { by_task = Dict.pop task_id r.by_task })
pop-IsFiled task_id r is_filed other i found =
    let looked : (if nat_beq other task_id then none else Dict.get other r.by_task) ≡ some i =
      sym (get-pop task_id other r.by_task) ∙ found in
    is_filed other i (ground arith)

discard-IsFiled :
    (i : ℕ) (r : TaskExecutionCancellationRegistry) → IsFiled r → IsFiled (discard i r)
unfolding discard discard_found
discard-IsFiled i r is_filed = elim (Option-cases (get_elem? r.objects i)) [
  | inl nothing ↦ rw nothing is_filed
  | inr (s, there) ↦ elim (Bool-cases (is_object i (Dict.get s.task_id r.by_task))) [
    | inl filed_here ↦ rw (there, filed_here) (pop-IsFiled s.task_id r is_filed)
    | inr other ↦ rw (there, other) is_filed
  ]
]

call_object-IsFiled :
    (i : ℕ) (c : Call) (r : TaskExecutionCancellationRegistry)
    → IsFiled r
    → IsFiled (call_object i c r)
unfolding call_object
call_object-IsFiled i c r is_filed = elim (Option-cases (get_elem? r.objects i)) [
  | inl nothing ↦ rw nothing is_filed
  | inr (s, there) ↦
      rw there (set-IsFiled i s (call c s).1 r there (call-SameExecution c s) is_filed)
]

-- The registries that any order of the calls on it, and on its objects, leads to.
pub data Reached : TaskExecutionCancellationRegistry → Type 0 where
  made : Reached new_registry
  prepared :
      (r : TaskExecutionCancellationRegistry) (user_id task_id subtask_id : ℕ)
      → Reached r
      → Reached (prepare user_id task_id subtask_id r).1
  was_claimed :
      (r : TaskExecutionCancellationRegistry) (user_id task_id subtask_id : ℕ)
      → Reached r
      → Reached (claim user_id task_id subtask_id r).1
  cancel_asked :
      (r : TaskExecutionCancellationRegistry) (user_id task_id : ℕ)
      → Reached r
      → Reached (request_cancel_of user_id task_id r).1
  discarded : (r : TaskExecutionCancellationRegistry) (i : ℕ) → Reached r → Reached (discard i r)
  called :
      (r : TaskExecutionCancellationRegistry) (i : ℕ) (c : Call)
      → Reached r
      → Reached (call_object i c r)

no_entry : (task_id : ℕ) → Dict.get task_id new_registry.by_task ≡ none
unfolding Dict.get
no_entry task_id = refl

-- Whatever calls led to the registry, the object filed under a task exists and is for that task.
pub Reached-IsFiled : (r : TaskExecutionCancellationRegistry) → Reached r → IsFiled r
Reached-IsFiled _ made = λ task_id i found. cc (no_entry task_id)
Reached-IsFiled _ (prepared r user_id task_id subtask_id before) =
    prepare-IsFiled user_id task_id subtask_id r (Reached-IsFiled r before)
Reached-IsFiled _ (was_claimed r user_id task_id subtask_id before) =
    claim-IsFiled user_id task_id subtask_id r (Reached-IsFiled r before)
Reached-IsFiled _ (cancel_asked r user_id task_id before) =
    cancel_found-IsFiled user_id task_id r (Reached-IsFiled r before)
Reached-IsFiled _ (discarded r i before) = discard-IsFiled i r (Reached-IsFiled r before)
Reached-IsFiled _ (called r i c before) = call_object-IsFiled i c r (Reached-IsFiled r before)
