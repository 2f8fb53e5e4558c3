-- ===== src/Common/TimeRange/Resolved.antt =====
-- What a range of settings resolves to.
use Prim.Native.Nat.{◌≤◌}
use Prim.Native.String.{String}
use chainer_trader.Prelude.{
  ◌≡◌, refl, Option, none, some, ok, arith, Returns, Returns-bind, Returns-ok, Returns-if,
  Returns-err, Returns-map,
}
use chainer_trader.Prelude.Int.{ℤ, pos}
use chainer_trader.Prelude.Text.{strip, is_empty}
use chainer_trader.Prelude.Text.Digits.{is_digits, int_of}
use chainer_trader.Common.Duration.{Duration, parse_relative_duration}
use chainer_trader.Common.TimeRange.{
  Datetime, Calendar, Value, no_value, a_datetime, a_number, a_text, another_value, TimePoint,
  no_point, at_datetime, relative, days_in_month, parse_time_point, resolve_point,
  resolve_datetime_range, default_start_time, or_formats, parsed_text, iso_text,
}
use chainer_trader.Common.TimeRange.Months.{IsDate}
use chainer_trader.Common.TimeRange.Backward.{time_key, offset_time_backward-IsNotLater}

-- `datetime` makes dates of the calendar only.
pub record CalendarLaws (cal : Calendar) : Type 0 where
  pub from_timestamp-IsDate : (n : ℤ) → Returns IsDate (cal.from_timestamp n)
  pub strptime-IsDate : (s : String) (d : Datetime) → cal.strptime s ≡ some d → IsDate d
  pub from_iso_format-IsDate :
      (s : String) (d : Datetime) → cal.from_iso_format s ≡ some d → IsDate d

abbrev pub IsDateValue : Value → Type 0
IsDateValue (a_datetime d) = IsDate d
IsDateValue _ = Unit

abbrev IsDatePoint : TimePoint → Type 0
IsDatePoint (at_datetime d) = IsDate d
IsDatePoint _ = Unit

default-IsDate : IsDate default_start_time
unfolding days_in_month
default-IsDate = record {
  year_from = omega arith;
  year_to = omega arith;
  month_from = omega arith;
  month_to = omega arith;
  day_from = omega arith;
  day_to = omega arith;
  hour_to = omega arith;
}

iso_text-IsDatePoint :
    (o : Option Datetime)
    → ((d : Datetime) → o ≡ some d → IsDate d)
    → Returns IsDatePoint (iso_text o)
iso_text-IsDatePoint (some d) h = Returns-ok (at_datetime d) (h d refl)
iso_text-IsDatePoint none h = Returns-err _

module _ (cal : Calendar) (laws : CalendarLaws cal) where
  parsed_text-IsDatePoint :
      (s : String) (o : Option Datetime)
      → cal.strptime s ≡ o
      → Returns IsDatePoint (parsed_text cal s o)
  parsed_text-IsDatePoint s (some d) e = Returns-ok (at_datetime d) (laws.strptime-IsDate s d e)
  parsed_text-IsDatePoint s none e =
      iso_text-IsDatePoint (cal.from_iso_format s) (laws.from_iso_format-IsDate s)

  or_formats-IsDatePoint :
      (s : String) (o : Option Duration) → Returns IsDatePoint (or_formats cal s o)
  or_formats-IsDatePoint s (some r) = Returns-ok (relative r) tt
  or_formats-IsDatePoint s none =
      Returns-if (is_digits s)
        (λ _.
          Returns-bind (laws.from_timestamp-IsDate (pos (int_of s)))
            λ d v. Returns-ok (at_datetime d) v)
        λ _. parsed_text-IsDatePoint s (cal.strptime s) refl

  parse_time_point-IsDatePoint :
      (v : Value) → IsDateValue v → Returns IsDatePoint (parse_time_point cal v)
  unfolding parse_time_point
  parse_time_point-IsDatePoint no_value h = Returns-ok no_point tt
  parse_time_point-IsDatePoint (a_datetime d) h = Returns-ok (at_datetime d) h
  parse_time_point-IsDatePoint (a_number n) h =
      Returns-bind (laws.from_timestamp-IsDate n) λ d v. Returns-ok (at_datetime d) v
  parse_time_point-IsDatePoint (a_text s) h =
      Returns-if (is_empty (strip s)) (λ _. Returns-ok no_point tt)
        λ _. or_formats-IsDatePoint (strip s) (parse_relative_duration (strip s))
  parse_time_point-IsDatePoint another_value h = Returns-err _

  resolve_point-IsDate :
      (missing origin : Datetime) (p : TimePoint)
      → IsDate missing
      → IsDate origin
      → IsDatePoint p
      → Returns IsDate (resolve_point missing origin p)
  unfolding resolve_point
  resolve_point-IsDate missing origin no_point m o h = Returns-ok missing m
  resolve_point-IsDate missing origin (at_datetime d) m o h = Returns-ok d h
  resolve_point-IsDate missing origin (relative r) m o h =
      Returns-map (λ e b. b.valid) (offset_time_backward-IsNotLater origin (pos r.amount) r.unit o)

  -- When the start is a duration, and the settings' dates, now, and what the calendar makes are dates
  -- of the calendar, the start of a resolved range is not after its end, to the hour.
  pub resolve_datetime_range_ordered :
      (start_val end_val : Value) (now : Datetime) (r : Duration)
      → parse_time_point cal start_val ≡ ok (relative r)
      → IsDateValue end_val
      → IsDate now
      → Returns
          (λ p. time_key p.0 ≤ time_key p.1)
          (resolve_datetime_range cal start_val end_val now)
  unfolding resolve_datetime_range resolve_point
  resolve_datetime_range_ordered s e now r is he hn =
      Returns-bind (parse_time_point-IsDatePoint e he) λ ep vep.
        Returns-bind (resolve_point-IsDate now now ep hn hn vep) λ ed ved. rw is (
          Returns-bind (offset_time_backward-IsNotLater ed (pos r.amount) r.unit ved)
            λ sd b. Returns-ok (sd, ed) b.not_later)
