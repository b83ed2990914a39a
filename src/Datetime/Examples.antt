-- ===== src/Datetime/Examples.antt =====
-- A moment with microseconds on the last day of a February.
use auto_reign.Prelude.{◌≡◌, refl, true, codes}
use auto_reign.Datetime.{
  Datetime, is_leap, days_in_month, in_range, two_digits, four_digits, six_digits, isoformat,
  timestamp, is_canonical_timestamp,
}
use auto_reign.Datetime.RoundTrip.{timestamp-is_canonical}

abbrev moment : Datetime
moment = record {
  year = 2024;
  month = 2;
  day = 29;
  hour = 23;
  minute = 59;
  second = 58;
  microsecond = 70;
}

timestamp_of_moment : timestamp moment ≡ codes "2024-02-29T23:59:58.000070Z"
unfolding timestamp isoformat two_digits four_digits six_digits
timestamp_of_moment = refl

moment-in_range : in_range moment ≡ true
unfolding in_range days_in_month is_leap
moment-in_range = refl

timestamp-is_canonical_example : is_canonical_timestamp (timestamp moment) ≡ true
timestamp-is_canonical_example = timestamp-is_canonical moment moment-in_range
