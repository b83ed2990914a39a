-- ===== src/Datetime.antt =====
-- What the program uses of Python's `datetime`: a moment in UTC, `isoformat`, and `fromisoformat`
-- as far as `isoformat` can write its result back.
pub mod RoundTrip
mod Examples
use auto_reign.Prelude.{
  ℕ, zero, suc, ◌+◌, ◌-◌, ◌*◌, ◌/◌, ◌%◌, ◌^◌, ◌≤◌, ◌<◌, Bool, true, false, ◌&&◌, ◌||◌, not, Option,
  none, some, List, [], ◌∷◌, ◌++◌, Text, leb, ltb, nat_beq, if◌then◌else◌, codes, text_beq, length,
  ◌==◌, text_key,
}
use auto_reign.Prelude.Options.{◌>>=◌}

pub record Datetime : Type 0 where
  pub year : ℕ
  pub month : ℕ
  pub day : ℕ
  pub hour : ℕ
  pub minute : ℕ
  pub second : ℕ
  pub microsecond : ℕ

unfoldable pub is_leap : ℕ → Bool
is_leap y = nat_beq (y % 4) 0 && (not (nat_beq (y % 100) 0) || nat_beq (y % 400) 0)

unfoldable pub days_in_month : ℕ → ℕ → ℕ
unfolding is_leap
days_in_month y m =
    if nat_beq m 2
    then (if is_leap y then 29 else 28)
    else if nat_beq m 4 || nat_beq m 6 || nat_beq m 9 || nat_beq m 11
    then 30
    else 31

unfoldable pub datetime : ℕ → ℕ → ℕ → ℕ → ℕ → ℕ → ℕ → Datetime
datetime year month day hour minute second microsecond = record {
  year = year;
  month = month;
  day = day;
  hour = hour;
  minute = minute;
  second = second;
  microsecond = microsecond;
}

-- The ranges that the constructor of `datetime` checks.
unfoldable pub in_range : Datetime → Bool
in_range d =
    leb 1 d.year
    && leb d.year 9999
    && leb 1 d.month
    && leb d.month 12
    && leb 1 d.day
    && leb d.day (days_in_month d.year d.month)
    && ltb d.hour 24
    && ltb d.minute 60
    && ltb d.second 60
    && ltb d.microsecond 1000000

abbrev digit : ℕ → ℕ
digit n = 48 + n % 10

unfoldable pub two_digits : ℕ → Text
two_digits n = digit (n / 10) ∷ digit n ∷ []

unfoldable pub four_digits : ℕ → Text
four_digits n = digit (n / 1000) ∷ digit (n / 100) ∷ digit (n / 10) ∷ digit n ∷ []

unfoldable pub six_digits : ℕ → Text
six_digits n =
    digit (n / 100000)
    ∷ digit (n / 10000)
    ∷ digit (n / 1000)
    ∷ digit (n / 100)
    ∷ digit (n / 10)
    ∷ digit n
    ∷ []

-- Of a moment in UTC, without the offset: the microseconds are left out where they are 0.
unfoldable pub isoformat : Datetime → Text
isoformat d =
    four_digits d.year
    ++ (45 ∷ two_digits d.month
        ++ (45 ∷ two_digits d.day
            ++ (84 ∷ two_digits d.hour
                ++ (58 ∷ two_digits d.minute
                    ++ (58 ∷ two_digits d.second
                        ++ (if nat_beq d.microsecond 0
                            then []
                            else 46 ∷ six_digits d.microsecond))))))

-- `count` digits behind the number `n`, and what follows them.
unfoldable pub number : ℕ → ℕ → Text → Option (ℕ × Text)
number zero n s = some (n, s)
number (suc count) n [] = none
number (suc count) n (c ∷ s) =
    let more = number count (n * 10 + (c - 48)) s in if leb 48 c && leb c 57 then more else none

unfoldable pub expect : ℕ → Text → Option Text
expect c [] = none
expect c (x ∷ s) = if nat_beq x c then some s else none

unfoldable pub fraction : Text → Option ℕ
fraction [] = some 0
fraction (c ∷ s) = do
  s ← expect 46 (c ∷ s)
  (microsecond, s) ← number 6 0 s
  if nat_beq (length s) 0 then some microsecond else none

-- `datetime.fromisoformat` of such a text; `none` is a ValueError.
unfoldable pub fromisoformat : Text → Option Datetime
unfolding datetime
fromisoformat s = do
  (year, s) ← number 4 0 s
  s ← expect 45 s
  (month, s) ← number 2 0 s
  s ← expect 45 s
  (day, s) ← number 2 0 s
  s ← expect 84 s
  (hour, s) ← number 2 0 s
  s ← expect 58 s
  (minute, s) ← number 2 0 s
  s ← expect 58 s
  (second, s) ← number 2 0 s
  microsecond ← fraction s
  let moment = datetime year month day hour minute second microsecond
  if in_range moment then some moment else none

-- `_timestamp` of the modules that stamp blocks and streams, at a moment in UTC.
unfoldable pub timestamp : Datetime → Text
timestamp moment = isoformat moment ++ codes "Z"

-- value[:-1], where `value.endswith("Z")`
unfoldable pub without_z : Text → Option Text
without_z [] = none
without_z (c ∷ []) = if nat_beq c 90 then some [] else none
without_z (c ∷ d ∷ s) = elim (without_z (d ∷ s)) [ none ↦ none | some t ↦ some (c ∷ t) ]

unfoldable pub is_written : Text → Option Datetime → Bool
is_written value none = false
is_written value (some moment) = timestamp moment == value

-- The tests of `_validate_canonical_timestamp` and `_validate_timestamp` on a `str`: it is what
-- `_timestamp` writes of the moment that it names. A text that `fromisoformat` reads in another of
-- its forms is not what `isoformat` writes, and is refused here by the reading.
unfoldable pub is_canonical_timestamp : Text → Bool
is_canonical_timestamp value = is_written value (do prefix ← without_z value; fromisoformat prefix)
