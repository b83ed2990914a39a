-- ===== src/Prelude/Exec.antt =====
-- A method of an object that may raise. What was written before a raise stays written, so the
-- object comes back beside the error too.
use mathlib.Core.Path.{◌≡◌, refl}
use mathlib.Core.Bool.{Bool, true, false}
use auto_reign.Prelude.Results.{Result, ok, err}

abbrev pub Exec {ℓ κ μ} : Type ℓ → Type κ → Type μ → Type (ℓ ⊔ κ ⊔ μ)
Exec S E A = S → Result E A × S

abbrev pub pure {ℓ κ μ} : {S : Type ℓ} {E : Type κ} {A : Type μ} → A → Exec S E A
pure a s = (ok a, s)

abbrev pub raise {ℓ κ μ} : {S : Type ℓ} {E : Type κ} {A : Type μ} → E → Exec S E A
raise e s = (err e, s)

-- The object itself.
abbrev pub self {ℓ κ} : {S : Type ℓ} {E : Type κ} → Exec S E S
self s = (ok s, s)

abbrev pub modify {ℓ κ} : {S : Type ℓ} {E : Type κ} → (S → S) → Exec S E (Unit {0})
modify f s = (ok tt, f s)

abbrev pub ensure {ℓ κ} : {S : Type ℓ} {E : Type κ} → Bool → E → Exec S E (Unit {0})
ensure true e s = (ok tt, s)
ensure false e s = (err e, s)

-- A call of a function that does not touch the object, with its errors put among the method's.
abbrev pub lift {ℓ κ μ ν} :
    {S : Type ℓ} {E : Type κ} {F : Type ν} {A : Type μ} → (F → E) → Result F A → Exec S E A
lift f (ok a) s = (ok a, s)
lift f (err e) s = (err (f e), s)

abbrev pub continue {ℓ κ μ ν} :
    {S : Type ℓ} {E : Type κ} {A : Type μ} {B : Type ν}
    → Result E A
    → (A → Exec S E B)
    → S
    → Result E B × S
continue (ok a) f s = f a s
continue (err e) f s = (err e, s)

infixl 5 ◌>>=◌ ◌>>◌
abbrev pub ◌>>=◌ {ℓ κ μ ν} :
    {S : Type ℓ} {E : Type κ} {A : Type μ} {B : Type ν} → Exec S E A → (A → Exec S E B) → Exec S E B
◌>>=◌ m f s = continue (m s).0 f (m s).1

abbrev pub ◌>>◌ {ℓ κ μ ν} :
    {S : Type ℓ} {E : Type κ} {A : Type μ} {B : Type ν} → Exec S E A → Exec S E B → Exec S E B
m >> k = m >>= λ _. k

-- A sequence that returned: what its first part returned, and from where the rest went on.
pub data Returned {ℓ κ μ ν} {S : Type ℓ} {E : Type κ} {A : Type μ} {B : Type ν} (m : Result E A × S)
    (f : A → Exec S E B) (b : B) (t : S) : Type (ℓ ⊔ κ ⊔ μ ⊔ ν) where
  returned : (a : A) (s : S) → m ≡ (ok a, s) → f a s ≡ (ok b, t) → Returned m f b t

pub >>=-Returned {ℓ κ μ ν} :
    {S : Type ℓ} {E : Type κ} {A : Type μ} {B : Type ν} (m : Result E A × S) (f : A → Exec S E B)
    {b : B} {t : S}
    → continue m.0 f m.1 ≡ (ok b, t)
    → Returned m f b t
>>=-Returned (ok a, s) f h = returned a s refl h
>>=-Returned (err e, s) f h = cc
