-- ===== src/AgentHome/Segments.antt =====
-- Splitting a path at its slashes, and joining it again.
use auto_reign.Prelude.{
  ℕ, zero, suc, ◌+◌, ◌%◌, ◌/◌, ltb, ◌≡◌, refl, sym, ◌∙◌, ap, inl, inr, false, List, [], ◌∷◌, ◌++◌,
  Text, nat_beq, nat_beq_iff, nat_key, contains, arith, Bool-cases, pos,
}
use auto_reign.Json.{decimal, digits_before}
use auto_reign.AgentHome.Paths.{slash, before_first, split_path, join_path}

pub split-append :
    (part rest : Text)
    → contains part slash ≡ false
    → split_path (part ++ (slash ∷ rest)) ≡ part ∷ split_path rest
unfolding split_path
split-append [] rest h = refl
split-append (c ∷ part) rest h =
    let other : nat_beq c slash ≡ false =
      ground (arith, nat_beq_iff c slash, nat_beq_iff slash c) in
    rw (other, split-append part rest (ground arith)) refl

abbrev pub IsParts : List Text → Type 0
IsParts [] = ⊥
IsParts (part ∷ parts) = Unit

before_first-IsParts : (c : ℕ) (parts : List Text) → IsParts (before_first c parts)
before_first-IsParts c [] = tt
before_first-IsParts c (part ∷ parts) = tt

split-IsParts : (s : Text) → IsParts (split_path s)
unfolding split_path
split-IsParts [] = tt
split-IsParts (c ∷ s) = elim (Bool-cases (nat_beq c slash)) [
  | inl cut ↦ rw cut tt
  | inr kept ↦ rw kept (before_first-IsParts c (split_path s))
]

join-before_first :
    (c : ℕ) (parts : List Text)
    → IsParts parts
    → join_path (before_first c parts) ≡ c ∷ join_path parts
unfolding join_path
join-before_first c [] h = elim h [ ]
join-before_first c (part ∷ []) h = refl
join-before_first c (part ∷ next ∷ parts) h = refl

join-cut : (parts : List Text) → IsParts parts → join_path ([] ∷ parts) ≡ slash ∷ join_path parts
unfolding join_path
join-cut [] h = elim h [ ]
join-cut (part ∷ parts) h = refl

pub join-split : (s : Text) → join_path (split_path s) ≡ s
unfolding split_path join_path
join-split [] = refl
join-split (c ∷ s) = elim (Bool-cases (nat_beq c slash)) [
  | inl cut ↦
      let is_slash : c ≡ slash = (nat_beq_iff c slash).0 cut in
      rw cut (
        join-cut (split_path s) (split-IsParts s)
        ∙ (ap (λ t. slash ∷ t) (join-split s) ∙ ap (λ d. d ∷ s) (sym is_slash)))
  | inr kept ↦
      rw kept
        (join-before_first c (split_path s) (split-IsParts s) ∙ ap (λ t. c ∷ t) (join-split s))
]

digits_before-slash :
    (fuel n : ℕ) (rest : Text)
    → contains rest slash ≡ false
    → contains (digits_before fuel n rest) slash ≡ false
unfolding digits_before
digits_before-slash zero n rest h = h
digits_before-slash (suc fuel) n rest h = elim (Bool-cases (ltb n 10)) [
  | inl small ↦ rw small (ground (arith, nat_beq_iff slash (48 + n)))
  | inr large ↦ rw large (
      digits_before-slash fuel (n / 10) ((48 + n % 10) ∷ rest)
        (ground (arith, nat_beq_iff slash (48 + n % 10))))
]

pub decimal-slash : (n : ℕ) → contains (decimal (pos n)) slash ≡ false
unfolding decimal
decimal-slash n = digits_before-slash (suc n) n [] refl
