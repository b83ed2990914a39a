-- ===== src/Prelude/Results.antt =====
-- A call that may raise: the exception is a value. A method that mutates its object and may raise
-- returns the object beside the result, with what it had written before the raise.
use mathlib.Core.Path.{◌≡◌, refl}
use mathlib.Core.Logic.{◌⊎◌, inl, inr}
use mathlib.Core.Bool.{Bool, true, false}

pub data Result {ℓ κ} (E : Type ℓ) (A : Type κ) : Type (ℓ ⊔ κ) where
  err : E → Result E A
  ok : A → Result E A

-- `if not test: raise e`
abbrev pub guard {ℓ} : {E : Type ℓ} → Bool → E → Result E (Unit {0})
guard false raised = err raised
guard true _ = ok tt

infixl 5 ◌>>=◌ ◌>>◌
abbrev pub ◌>>=◌ {ℓ κ μ} :
    {E : Type ℓ} {A : Type κ} {B : Type μ} → Result E A → (A → Result E B) → Result E B
err raised >>= next = err raised
ok a >>= next = next a

abbrev pub ◌>>◌ {ℓ κ μ} :
    {E : Type ℓ} {A : Type κ} {B : Type μ} → Result E A → Result E B → Result E B
first >> next = first >>= λ _. next

-- `except`: another error in place of the one raised.
abbrev pub map_err {ℓ κ μ} :
    {E : Type ℓ} {F : Type κ} {A : Type μ} → (E → F) → Result E A → Result F A
map_err f (ok a) = ok a
map_err f (err e) = err (f e)

-- A chain that returned has passed through what its first call returned.
pub >>=-eq-ok {ℓ κ μ} :
    {E : Type ℓ} {A : Type κ} {B : Type μ} {last : B} (first : Result E A) (next : A → Result E B)
    → (first >>= next) ≡ ok last
    → (middle : A) × (next middle ≡ ok last) × (first ≡ ok middle)
>>=-eq-ok (err raised) next h = cc
>>=-eq-ok (ok middle) next returned = (middle, returned, refl)

-- To split on what a call returned and keep the equation.
pub Result-cases {ℓ κ} :
    {E : Type ℓ} {A : Type κ} (r : Result E A) → ((a : A) × (r ≡ ok a)) ⊎ ((e : E) × (r ≡ err e))
Result-cases (ok a) = inl (a, refl)
Result-cases (err e) = inr (e, refl)
