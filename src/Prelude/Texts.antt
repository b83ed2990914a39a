-- ===== src/Prelude/Texts.antt =====
-- Python's `str`: a list of code points, lone surrogates included.
use Prim.Native.Nat.{ℕ}
use Prim.Native.Char.{code}
use Prim.Native.String.{String}
use mathlib.Core.Path.{◌≡◌, refl}
use mathlib.Core.Logic.{◌↔◌}
use mathlib.Core.Bool.{Bool, true, false, ◌&&◌, ◌||◌}
use mathlib.Core.List.{List, [], ◌∷◌}
use native.Mathlib.Omega.{arith}
use auto_reign.Prelude.Tests.{leb, nat_beq, Key}
use auto_reign.Prelude.Lists.{all}

abbrev pub Text : Type 0
Text = List ℕ

-- A text literal of the source.
abbrev pub codes : String → Text
codes String.[] = []
codes (String.◌∷◌ c s) = code c ∷ codes s

abbrev pub text_beq : Text → Text → Bool
text_beq [] [] = true
text_beq (x ∷ xs) (y ∷ ys) = nat_beq x y && text_beq xs ys
text_beq _ _ = false

text_beq-eq : (s t : Text) → text_beq s t ≡ true → s ≡ t
text_beq-eq [] [] h = refl
text_beq-eq [] (y ∷ t) h = cc
text_beq-eq (x ∷ s) [] h = cc
text_beq-eq (x ∷ s) (y ∷ t) h = ground (arith, text_beq-eq s t)

text_beq_refl : (s : Text) → text_beq s s ≡ true
text_beq_refl [] = refl
text_beq_refl (x ∷ s) = ground (arith, text_beq_refl s)

pub text_beq_iff : (s t : Text) → (text_beq s t ≡ true) ↔ (s ≡ t)
text_beq_iff s t = (text_beq-eq s t, λ e. rw e (text_beq_refl t))

instance abbrev pub text_key : Key Text
text_key = record { same = text_beq; same_iff = text_beq_iff }

between : ℕ → ℕ → ℕ → Bool
between lo hi c = leb lo c && leb c hi

-- The white space of `str.strip`.
unfoldable pub is_space : ℕ → Bool
unfolding between
is_space c =
    between 9 13 c
    || between 28 32 c
    || nat_beq c 0x85
    || nat_beq c 0xa0
    || nat_beq c 0x1680
    || between 0x2000 0x200a c
    || between 0x2028 0x2029 c
    || nat_beq c 0x202f
    || nat_beq c 0x205f
    || nat_beq c 0x3000

-- `not s.strip()`
unfoldable pub is_blank : Text → Bool
unfolding is_space
is_blank s = all is_space s

-- The code points that no strict encoding accepts.
unfoldable pub is_surrogate : ℕ → Bool
unfolding between
is_surrogate c = between 0xd800 0xdfff c
