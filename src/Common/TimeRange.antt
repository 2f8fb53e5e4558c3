-- ===== src/Common/TimeRange.antt =====
-- common/time_range.py: dates, and the points of time that a task's settings name.
pub mod Months
pub mod Backward
pub mod Resolved
use Prim.Native.Nat.{ℕ, zero, suc, ◌+◌, ◌-◌, ◌*◌, ◌/◌, ◌%◌, ◌≤◌, min}
use Prim.Native.String.{String}
use chainer_trader.Prelude.{
  ◌≡◌, Bool, true, false, not, ◌&&◌, ◌||◌, Option, none, some, Result, ok, err, ◌>>=◌, leb, ◌==◌,
  if◌then◌else◌,
}
use chainer_trader.Prelude.Int.{ℤ, pos, negsuc, ◌+ℤ◌, ◌*ℤ◌, pos_part, floor_div, floor_mod}
use chainer_trader.Prelude.Text.{str_eq, lower, strip, is_empty}
use chainer_trader.Prelude.Text.Digits.{is_digits, int_of}
use chainer_trader.Common.Duration.{Duration, parse_relative_duration}

-- A `datetime` without a zone; the time of the day below the hour, in microseconds.
pub record Datetime : Type 0 where
  pub year : ℕ
  pub month : ℕ
  pub day : ℕ
  pub hour : ℕ
  pub rest : ℕ

pub data TimeError : Type 0 where
  value_error : String → TimeError
  overflow_error : TimeError

abbrev pub max_year : ℕ
max_year = 9999

abbrev is_leap : ℕ → Bool
is_leap y = y % 4 == 0 && (not (y % 100 == 0) || y % 400 == 0)

-- `calendar.monthrange(y, m)[1]`
unfoldable pub days_in_month : ℕ → ℕ → ℕ
days_in_month y m =
    if m == 2
    then if is_leap y then 29 else 28
    else if m == 4 || m == 6 || m == 9 || m == 11
    then 30
    else 31

-- `value.replace(year=year, month=month, day=day)`, which refuses what is no date of the calendar
unfoldable pub replace_date : Datetime → ℤ → ℕ → ℕ → Result TimeError Datetime
unfolding days_in_month
replace_date value (negsuc _) month day = err (value_error "year is out of range")
replace_date value (pos year) month day =
    if not (leb 1 year && leb year max_year)
    then err (value_error "year is out of range")
    else if not (leb 1 month && leb month 12)
    then err (value_error "month must be in 1..12")
    else if not (leb 1 day && leb day (days_in_month year month))
    then err (value_error "day is out of range for month")
    else ok (record value { year = year; month = month; day = day })

unfoldable pub shift_months : Datetime → ℤ → Result TimeError Datetime
unfolding replace_date
shift_months value months =
    let month_index = pos (value.month - 1) +ℤ months in
    let year = pos value.year +ℤ floor_div 12 month_index in
    let month = floor_mod 12 month_index + 1 in
    let day = min value.day (days_in_month (pos_part year) month) in
    replace_date value year month day

-- the day after, and the day before
unfoldable pub next_day : Datetime → Result TimeError Datetime
next_day d =
    if leb (d.day + 1) (days_in_month d.year d.month)
    then ok (record d { day = d.day + 1 })
    else if leb (d.month + 1) 12
    then ok (record d { month = d.month + 1; day = 1 })
    else if leb (d.year + 1) max_year
    then ok (record d { year = d.year + 1; month = 1; day = 1 })
    else err overflow_error

unfoldable pub previous_day : Datetime → Result TimeError Datetime
previous_day d =
    if leb 2 d.day
    then ok (record d { day = d.day - 1 })
    else if leb 2 d.month
    then ok (record d { month = d.month - 1; day = days_in_month d.year (d.month - 1) })
    else if leb 2 d.year
    then ok (record d { year = d.year - 1; month = 12; day = 31 })
    else err overflow_error

unfoldable pub forward : ℕ → Datetime → Result TimeError Datetime
forward zero d = ok d
forward (suc n) d = next_day d >>= forward n

unfoldable pub backward : ℕ → Datetime → Result TimeError Datetime
backward zero d = ok d
backward (suc n) d = previous_day d >>= backward n

-- `value + timedelta(days=n)`
unfoldable pub add_days : Datetime → ℤ → Result TimeError Datetime
add_days d (pos n) = forward n d
add_days d (negsuc n) = backward (suc n) d

-- `value + timedelta(hours=n)`
unfoldable pub add_hours : Datetime → ℤ → Result TimeError Datetime
add_hours d n =
    let total = pos d.hour +ℤ n in
    add_days (record d { hour = floor_mod 24 total }) (floor_div 24 total)

unfoldable pub offset_time : Datetime → ℤ → String → Result TimeError Datetime
offset_time value amount unit =
    let u = lower unit in
    if str_eq u "y"
    then shift_months value (amount *ℤ pos 12)
    else if str_eq u "m"
    then shift_months value amount
    else if str_eq u "w"
    then add_days value (amount *ℤ pos 7)
    else if str_eq u "d"
    then add_days value amount
    else if str_eq u "h"
    then add_hours value amount
    else err (value_error "Unsupported duration unit")

-- `-abs(n)`
abbrev pub neg_abs : ℤ → ℤ
neg_abs (pos zero) = pos 0
neg_abs (pos (suc n)) = negsuc n
neg_abs (negsuc n) = negsuc n

unfoldable pub offset_time_backward : Datetime → ℤ → String → Result TimeError Datetime
unfolding offset_time
offset_time_backward value amount unit = offset_time value (neg_abs amount) unit

-- What a setting may hold.
pub data Value : Type 0 where
  no_value : Value
  a_datetime : Datetime → Value
  -- a number, as `int` of it
  a_number : ℤ → Value
  a_text : String → Value
  another_value : Value

pub data TimePoint : Type 0 where
  no_point : TimePoint
  at_datetime : Datetime → TimePoint
  relative : Duration → TimePoint

-- What depends on the machine's zone and on the formats of `datetime`.
pub record Calendar : Type 0 where
  -- `datetime.fromtimestamp(n)`
  pub from_timestamp : ℤ → Result TimeError Datetime
  -- `datetime.strptime(s, "%Y-%m-%d %H:%M:%S")`, and `none` for its `ValueError`
  pub strptime : String → Option Datetime
  -- `datetime.fromisoformat(s)`
  pub from_iso_format : String → Option Datetime

abbrev at : Result TimeError Datetime → Result TimeError TimePoint
at r = r >>= λ d. ok (at_datetime d)

abbrev pub iso_text : Option Datetime → Result TimeError TimePoint
iso_text (some d) = ok (at_datetime d)
iso_text none = err (value_error "Unsupported time format")

abbrev pub parsed_text : Calendar → String → Option Datetime → Result TimeError TimePoint
parsed_text cal stripped (some d) = ok (at_datetime d)
parsed_text cal stripped none = iso_text (cal.from_iso_format stripped)

abbrev pub or_formats : Calendar → String → Option Duration → Result TimeError TimePoint
or_formats cal stripped (some rel) = ok (relative rel)
or_formats cal stripped none =
    if is_digits stripped
    then at (cal.from_timestamp (pos (int_of stripped)))
    else parsed_text cal stripped (cal.strptime stripped)

unfoldable pub parse_time_point : Calendar → Value → Result TimeError TimePoint
parse_time_point cal no_value = ok no_point
parse_time_point cal (a_datetime d) = ok (at_datetime d)
parse_time_point cal (a_number n) = at (cal.from_timestamp n)
parse_time_point cal (a_text s) =
    let stripped = strip s in
    if is_empty stripped
    then ok no_point
    else or_formats cal stripped (parse_relative_duration stripped)
parse_time_point cal another_value = err (value_error "Unsupported time value type")

-- `DEFAULT_START_TIME`
abbrev pub default_start_time : Datetime
default_start_time = record { year = 2000; month = 1; day = 1; hour = 0; rest = 0 }

-- a point that is relative to a time, with what stands for a missing one
unfoldable pub resolve_point : Datetime → Datetime → TimePoint → Result TimeError Datetime
resolve_point missing origin no_point = ok missing
resolve_point missing origin (at_datetime d) = ok d
resolve_point missing origin (relative r) = offset_time_backward origin (pos r.amount) r.unit

unfoldable pub resolve_datetime_range :
    Calendar → Value → Value → Datetime → Result TimeError (Datetime × Datetime)
resolve_datetime_range cal start_val end_val now = parse_time_point cal end_val >>= λ end_point.
    resolve_point now now end_point >>= λ end_dt. parse_time_point cal start_val >>= λ start_point.
    resolve_point default_start_time end_dt start_point >>= λ start_dt. ok (start_dt, end_dt)
