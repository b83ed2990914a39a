-- ===== src/Datetime/RoundTrip.antt =====
-- What `isoformat` writes, read by `fromisoformat`.
use auto_reign.Prelude.{
  ℕ, ◌≤◌, ◌<◌, ◌≡◌, refl, true, some, [], ◌∷◌, ◌++◌, Text, arith, eq_refl, nat_beq, if◌then◌else◌,
  codes, text_key, inl, inr, Bool-cases, append-nil,
}
use auto_reign.Datetime.{
  Datetime, days_in_month, in_range, two_digits, four_digits, six_digits, isoformat, number, expect,
  fraction, fromisoformat, timestamp, without_z, is_written, is_canonical_timestamp,
}

number-two_digits : (n : ℕ) (s : Text) → n < 100 → number 2 0 (two_digits n ++ s) ≡ some (n, s)
unfolding number two_digits
number-two_digits n s h = ground arith

number-four_digits : (n : ℕ) (s : Text) → n < 10000 → number 4 0 (four_digits n ++ s) ≡ some (n, s)
unfolding number four_digits
number-four_digits n s h = ground arith

number-six_digits : (n : ℕ) (s : Text) → n < 1000000 → number 6 0 (six_digits n ++ s) ≡ some (n, s)
unfolding number six_digits
number-six_digits n s h = ground arith

expect-cons : (c : ℕ) (s : Text) → expect c (c ∷ s) ≡ some s
unfolding expect
expect-cons c s = ground arith

fraction-isoformat :
    (n : ℕ) → n < 1000000 → fraction (if nat_beq n 0 then [] else 46 ∷ six_digits n) ≡ some n
unfolding fraction
fraction-isoformat n h = elim (Bool-cases (nat_beq n 0)) [
  | inl none_left ↦ let e : n ≡ 0 = ground arith in rw e
  | inr some_left ↦
      let read : number 6 0 (six_digits n) ≡ some (n, []) =
        rw append-nil at (number-six_digits n [] h) in
      rw (some_left, expect-cons 46 (six_digits n), read)
]

days_in_month-le : (y m : ℕ) → days_in_month y m ≤ 31
unfolding days_in_month
days_in_month-le y m = ground arith

-- What the digits of a text have room for.
record Fits (d : Datetime) : Type 0 where
  year : d.year < 10000
  month : d.month < 100
  day : d.day < 100
  hour : d.hour < 100
  minute : d.minute < 100
  second : d.second < 100
  microsecond : d.microsecond < 1000000

in_range-Fits : (d : Datetime) → in_range d ≡ true → Fits d
unfolding in_range
in_range-Fits d h = ground (arith, days_in_month-le d.year d.month)

-- A moment that `datetime` admits comes back from its own text.
pub fromisoformat-isoformat :
    (d : Datetime) → in_range d ≡ true → fromisoformat (isoformat d) ≡ some d
unfolding fromisoformat isoformat
fromisoformat-isoformat d h =
    let fits = in_range-Fits d h in
    rw (
      number-four_digits d.year _ fits.year,
      expect-cons 45,
      number-two_digits d.month _ fits.month,
      expect-cons 45,
      number-two_digits d.day _ fits.day,
      expect-cons 84,
      number-two_digits d.hour _ fits.hour,
      expect-cons 58,
      number-two_digits d.minute _ fits.minute,
      expect-cons 58,
      number-two_digits d.second _ fits.second,
      fraction-isoformat d.microsecond fits.microsecond,
      h,
    )

without_z-append : (s : Text) → without_z (s ++ codes "Z") ≡ some s
unfolding without_z
without_z-append [] = refl
without_z-append (c ∷ []) = refl
without_z-append (c ∷ d ∷ s) = rw (without_z-append (d ∷ s))

-- The timestamp that the program writes passes the test that the program makes of timestamps.
pub timestamp-is_canonical :
    (d : Datetime) → in_range d ≡ true → is_canonical_timestamp (timestamp d) ≡ true
unfolding is_canonical_timestamp is_written timestamp
timestamp-is_canonical d h =
    rw (without_z-append (isoformat d), fromisoformat-isoformat d h)
      (eq_refl (isoformat d ++ codes "Z"))
