-- ===== src/Tests/Times.antt =====
-- The theorems on the log, on dates and on the availability of klines at concrete inputs.
use Prim.Native.Nat.{◌≤◌}
use chainer_trader.Prelude.{
  ◌≡◌, refl, true, Option, none, some, List, [], ◌∷◌, ok, Returns, Returns-ok, arith, if◌then◌else◌,
}
use chainer_trader.Prelude.Int.{pos, negsuc, ◌+ℤ◌}
use chainer_trader.Prelude.Text.{strip, lower}
use chainer_trader.Prelude.Text.Digits.{int_of}
use chainer_trader.Common.LogBuffer
use chainer_trader.Common.LogBuffer.{
  Call, call_add, call_clear, log_buffer, last_of, since_clear, get_logs, run_refines,
}
use chainer_trader.Common.Duration.{parse_relative_duration}
use chainer_trader.Common.TimeRange.{
  Datetime, Calendar, a_text, no_value, relative, days_in_month, replace_date, shift_months,
  parse_time_point, resolve_datetime_range,
}
use chainer_trader.Common.TimeRange.Months.{
  IsDate, IsShifted, shift_months-IsShifted, is_ok, in_years, month_count,
}
use chainer_trader.Common.TimeRange.Backward.{time_key}
use chainer_trader.Common.TimeRange.Resolved.{CalendarLaws, resolve_datetime_range_ordered}
use chainer_trader.Database.Availability.{
  Key, Availability, Table, with_earliest, key_eq, get_cached_open_time_range,
  get_earliest_known_open_time,
}
use chainer_trader.Database.Availability.Window
use chainer_trader.Database.Availability.Window.{
  TableLaws, known_from, cached_range, replay, window_of,
}
use chainer_trader.Database.Availability.Replayed.{AreRows, run_refines_window}
use chainer_trader.Task.Dataset.{detect_uncached_ranges}
use chainer_trader.Task.Dataset.Gaps.{two_ranges, gap_is_hidden}

abbrev log_calls : List LogBuffer.Call
log_calls = call_add "a" ∷ call_clear ∷ call_add "b" ∷ call_add "c" ∷ call_add "d" ∷ []

run_refines_example :
    get_logs (LogBuffer.run log_calls (log_buffer 2)) ≡ last_of 2 ("b" ∷ "c" ∷ "d" ∷ [])
run_refines_example = run_refines 2 log_calls

abbrev end_of_january : Datetime
end_of_january = record { year = 2024; month = 1; day = 31; hour = 5; rest = 0 }

end_of_january-IsDate : IsDate end_of_january
unfolding days_in_month
end_of_january-IsDate = record {
  year_from = omega arith;
  year_to = omega arith;
  month_from = omega arith;
  month_to = omega arith;
  day_from = omega arith;
  day_to = omega arith;
  hour_to = omega arith;
}

-- a month on, to the end of a leap year's February
shift_months_examples :
    (shift_months end_of_january (pos 1) ≡ ok (record end_of_january { month = 2; day = 29 }))
    × (shift_months end_of_january (negsuc 1)
        ≡ ok (record end_of_january { year = 2023; month = 11; day = 30 }))
unfolding shift_months replace_date days_in_month ◌+ℤ◌
shift_months_examples = (refl, refl)

shift_months-IsShifted_example :
    Returns (IsShifted end_of_january (pos 1)) (shift_months end_of_january (pos 1))
    × (is_ok (shift_months end_of_january (pos 1))
        ≡ in_years (pos (month_count end_of_january) +ℤ pos 1))
shift_months-IsShifted_example = shift_months-IsShifted end_of_january (pos 1) end_of_january-IsDate

-- a calendar that reads no text
abbrev no_calendar : Calendar
no_calendar = record {
  from_timestamp = λ n. ok end_of_january;
  strptime = λ s. none;
  from_iso_format = λ s. none;
}

no_calendar-CalendarLaws : CalendarLaws no_calendar
no_calendar-CalendarLaws = record {
  from_timestamp-IsDate = λ n. Returns-ok end_of_january end_of_january-IsDate;
  strptime-IsDate = λ s d e. ground arith;
  from_iso_format-IsDate = λ s d e. ground arith;
}

six_months :
    parse_time_point no_calendar (a_text "6m") ≡ ok (relative (record { amount = 6; unit = "m" }))
unfolding parse_time_point parse_relative_duration strip lower int_of
six_months = refl

resolve_datetime_range_ordered_example :
    Returns
      (λ p. time_key p.0 ≤ time_key p.1)
      (resolve_datetime_range no_calendar (a_text "6m") no_value end_of_january)
resolve_datetime_range_ordered_example =
    resolve_datetime_range_ordered no_calendar no_calendar-CalendarLaws (a_text "6m") no_value
      end_of_january (record { amount = 6; unit = "m" }) six_months tt end_of_january-IsDate

-- A table as the list of its writes, the newest first.
abbrev Writes : Type 0
Writes = List (Key × Availability)

abbrev row_in : Key → Writes → Option Availability
row_in j [] = none
row_in j ((k, r) ∷ t) = if key_eq k j then some r else row_in j t

abbrev writes_table : Table Writes
writes_table = record {
  has_cached_fields = true;
  first = λ k t. ok (row_in k t);
  create = λ k r t. ok ((k, r) ∷ t);
  save = λ k r t. ok ((k, r) ∷ t);
  update_or_create = λ k n at s t. ok ((k, with_earliest n at s (row_in k t)) ∷ t);
}

abbrev writes_laws : TableLaws writes_table
writes_laws = record {
  row = row_in;
  created = λ k r t. (k, r) ∷ t;
  upserted = λ k n at s t. (k, with_earliest n at s (row_in k t)) ∷ t;
  migrated = refl;
  first_is = λ k t. refl;
  create_is = λ k r t h. refl;
  save_is = λ k r x t h. refl;
  update_or_create_is = λ k n at s t. refl;
  row-created = λ k j r t. refl;
  row-upserted = λ k j n at s t. refl;
}

abbrev btc : Key
btc = record { exchange = "BINANCE"; symbol = "BTCUSDT"; interval = "1d" }

no_rows : AreRows writes_table writes_laws []
no_rows = record { at = λ j. refl }

abbrev window_calls : List Window.Call
window_calls =
    cached_range btc 5 9 100 "dataset_resolver"
    ∷ known_from btc 3 "backward_fill"
    ∷ cached_range btc 2 6 101 "dataset_resolver"
    ∷ []

run_refines_window_example :
    (get_cached_open_time_range writes_table btc (Window.run writes_table window_calls [])
      ≡ ok (replay btc window_calls (window_of none)).cached)
    × (get_earliest_known_open_time writes_table btc (Window.run writes_table window_calls [])
        ≡ ok (replay btc window_calls (window_of none)).earliest)
run_refines_window_example = run_refines_window writes_table writes_laws btc window_calls [] no_rows

replay_lem :
    (replay btc window_calls (window_of none)) ≡ record { earliest = some 3; cached = some (2, 9) }
replay_lem = refl

gap_is_hidden_example :
    (get_cached_open_time_range writes_table btc
        (Window.run writes_table (two_ranges btc (1, 2) (10, 11) 100 "dataset_resolver") [])
      ≡ ok (some (1, 11)))
    × (detect_uncached_ranges 1 3 9 (some (1, 11)) ≡ [])
gap_is_hidden_example =
    gap_is_hidden writes_table writes_laws btc 1 2 10 11 100 1 3 9 "dataset_resolver" [] no_rows
      refl (omega arith) (omega arith) (omega arith) (omega arith) (omega arith)
