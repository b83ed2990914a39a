-- ===== src/Json/Walk.antt =====
-- The stack loop of `canonical_json` against a plain recursion over the value.
use auto_reign.Prelude.{
  ℕ, zero, suc, ◌+◌, ◌≤◌, ◌<◌, ◌≡◌, refl, sym, List, [], ◌∷◌, ◌++◌, arith, Result, ok, err, ◌>>=◌,
  inl, inr, Result-cases,
}
use auto_reign.Json.Values.{
  Value, Items, Fields, null, bool, int, float, str, array, object, other, nil, cons, end, field,
}
use auto_reign.Json.Canonical.{canonical_json, serialize}
use auto_reign.Json.Scan.{
  JsonSafetyError, Counters, max_json_node_count, key_bytes, count_keys, push_items, push_values,
  round, scan,
}

-- A value first, then its children from the left, with the counters passed along.
mutual
  pub walk : Value → ℕ → Counters → Result JsonSafetyError Counters
  walk (array items) depth counters = do
    (counters, _) ← round (array items) depth counters
    walk_items items (depth + 1) counters
  walk (object fields) depth counters = do
    (counters, _) ← round (object fields) depth counters
    walk_values fields (depth + 1) counters
  walk null depth counters = do (counters, _) ← round null depth counters; ok counters
  walk (bool b) depth counters = do (counters, _) ← round (bool b) depth counters; ok counters
  walk (int i) depth counters = do (counters, _) ← round (int i) depth counters; ok counters
  walk (float x) depth counters = do (counters, _) ← round (float x) depth counters; ok counters
  walk (str s) depth counters = do (counters, _) ← round (str s) depth counters; ok counters
  walk other depth counters = do (counters, _) ← round other depth counters; ok counters

  pub walk_items : Items → ℕ → Counters → Result JsonSafetyError Counters
  walk_items nil depth counters = ok counters
  walk_items (cons v vs) depth counters = walk v depth counters >>= walk_items vs depth

  pub walk_values : Fields → ℕ → Counters → Result JsonSafetyError Counters
  walk_values end depth counters = ok counters
  walk_values (field k v fields) depth counters = walk v depth counters >>= walk_values fields depth

-- The walk over what is left on a stack.
walk_stack : List (Value × ℕ) → Counters → Result JsonSafetyError Counters
unfolding walk
walk_stack [] counters = ok counters
walk_stack ((v, depth) ∷ stack) counters = walk v depth counters >>= walk_stack stack

>>=_assoc {ℓ} :
    {E A B C : Type ℓ} (m : Result E A) (f : A → Result E B) (g : B → Result E C)
    → ((m >>= f) >>= g) ≡ (m >>= λ a. f a >>= g)
>>=_assoc (ok a) f g = refl
>>=_assoc (err e) f g = refl

walk_stack-push_items :
    (items : Items) (depth : ℕ) (stack : List (Value × ℕ)) (counters : Counters)
    → walk_stack (push_items items depth ++ stack) counters
      ≡ (walk_items items depth counters >>= walk_stack stack)
unfolding walk walk_stack
walk_stack-push_items nil depth stack counters = refl
walk_stack-push_items (cons v vs) depth stack counters =
    elim (Result-cases (walk v depth counters)) [
      | inl (after, e) ↦ rw e (walk_stack-push_items vs depth stack after)
      | inr (raised, e) ↦ rw e
    ]

walk_stack-push_values :
    (fields : Fields) (depth : ℕ) (stack : List (Value × ℕ)) (counters : Counters)
    → walk_stack (push_values fields depth ++ stack) counters
      ≡ (walk_values fields depth counters >>= walk_stack stack)
unfolding walk walk_stack
walk_stack-push_values end depth stack counters = refl
walk_stack-push_values (field k v fields) depth stack counters =
    elim (Result-cases (walk v depth counters)) [
      | inl (after, e) ↦ rw e (walk_stack-push_values fields depth stack after)
      | inr (raised, e) ↦ rw e
    ]

round-array :
    (items : Items) (depth : ℕ) (counters : Counters) (r : Counters × List (Value × ℕ))
    → round (array items) depth counters ≡ ok r
    → r.1 ≡ push_items items (depth + 1)
unfolding round
round-array items depth (count, bytes) r h = ground arith

round-object :
    (fields : Fields) (depth : ℕ) (counters : Counters) (r : Counters × List (Value × ℕ))
    → round (object fields) depth counters ≡ ok r
    → r.1 ≡ push_values fields (depth + 1)
unfolding round
round-object fields depth (count, bytes) r h = ground arith

-- A round of the loop is a step of the walk.
abbrev IsStep : Value → ℕ → List (Value × ℕ) → Counters → Type 0
IsStep value depth stack counters =
    walk_stack ((value, depth) ∷ stack) counters
    ≡ (round value depth counters >>= λ r. walk_stack (r.1 ++ stack) r.0)

array-IsStep :
    (items : Items) (depth : ℕ) (stack : List (Value × ℕ)) (counters : Counters)
    → IsStep (array items) depth stack counters
unfolding walk walk_stack
array-IsStep items depth stack counters = elim (Result-cases (round (array items) depth counters)) [
  | inl (r, e) ↦
      rw (e, round-array items depth counters r e)
        (sym (walk_stack-push_items items (depth + 1) stack r.0))
  | inr (raised, e) ↦ rw e
]

object-IsStep :
    (fields : Fields) (depth : ℕ) (stack : List (Value × ℕ)) (counters : Counters)
    → IsStep (object fields) depth stack counters
unfolding walk walk_stack
object-IsStep fields depth stack counters =
    elim (Result-cases (round (object fields) depth counters)) [
      | inl (r, e) ↦
          rw (e, round-object fields depth counters r e)
            (sym (walk_stack-push_values fields (depth + 1) stack r.0))
      | inr (raised, e) ↦ rw e
    ]

walk_stack-round :
    (value : Value) (depth : ℕ) (stack : List (Value × ℕ)) (counters : Counters)
    → IsStep value depth stack counters
unfolding walk walk_stack round
walk_stack-round null depth stack (count, bytes) = ground arith
walk_stack-round (bool b) depth stack (count, bytes) = ground arith
walk_stack-round (int i) depth stack (count, bytes) = ground arith
walk_stack-round (float x) depth stack (count, bytes) = ground arith
walk_stack-round (str s) depth stack (count, bytes) = ground arith
walk_stack-round other depth stack (count, bytes) = ground arith
walk_stack-round (array items) depth stack counters = array-IsStep items depth stack counters
walk_stack-round (object fields) depth stack counters = object-IsStep fields depth stack counters

-- The count that a call leaves lies between `least` and the limit.
abbrev CountOf {ℓ} : {A : Type ℓ} → (A → Counters) → ℕ → Result JsonSafetyError A → Type 0
CountOf counters least (ok a) = (least ≤ (counters a).0) × ((counters a).0 ≤ max_json_node_count)
CountOf counters least (err e) = Unit

count_keys-CountOf :
    (fields : Fields) (count bytes : ℕ)
    → count ≤ max_json_node_count
    → CountOf (λ c. c) count (count_keys fields (count, bytes))
unfolding count_keys
count_keys-CountOf end count bytes h = omega arith
count_keys-CountOf (field key v fields) count bytes h = elim (Result-cases (key_bytes key)) [
  | inl (n, e) ↦ ground (arith, count_keys-CountOf fields (count + 1) (bytes + n))
  | inr (raised, e) ↦ ground arith
]

round-CountOf :
    (value : Value) (depth count bytes : ℕ)
    → CountOf (λ r. r.0) (suc count) (round value depth (count, bytes))
unfolding round
round-CountOf null depth count bytes = ground arith
round-CountOf (object fields) depth count bytes =
    ground (arith, count_keys-CountOf fields (count + 1) bytes)
round-CountOf _ depth count bytes = ground arith

-- The stack loop and the walk agree: with room on the fuel for every node that the limit allows,
-- the loop ends with the same error, or with none.
scan-walk_stack :
    (fuel : ℕ) (stack : List (Value × ℕ)) (count bytes : ℕ)
    → count ≤ max_json_node_count
    → max_json_node_count < fuel + count
    → scan fuel stack (count, bytes) ≡ (walk_stack stack (count, bytes) >>= λ _. ok tt)
unfolding scan
scan-walk_stack fuel [] count bytes h k = unfold walk_stack in refl
scan-walk_stack zero (_ ∷ _) count bytes h k = absurd (omega arith)
scan-walk_stack (suc fuel) ((value, depth) ∷ stack) count bytes h k =
    rw (walk_stack-round value depth stack (count, bytes))
      (elim (Result-cases (round value depth (count, bytes))) [
        | inl (r, e) ↦
            let counted : CountOf (λ r. r.0) (suc count) (ok r) =
              rw e at (round-CountOf value depth count bytes) in
            rw e (scan-walk_stack fuel (r.1 ++ stack) r.0.0 r.0.1 (omega arith) (omega arith))
        | inr (raised, e) ↦ rw e
      ])

-- `canonical_json` is a plain recursion with the same counters, and then the writing: the limit on
-- nodes ends its loop on every value.
pub canonical_json-walk :
    (value : Value) → canonical_json value ≡ (walk value 0 (0, 0) >>= λ _. serialize value)
unfolding canonical_json walk_stack
canonical_json-walk value =
    rw (scan-walk_stack (suc max_json_node_count) ((value, 0) ∷ []) 0 0 (omega arith) (omega arith))
      (elim (Result-cases (walk value 0 (0, 0))) [ inl (after, e) ↦ rw e | inr (raised, e) ↦ rw e ])
