-- ===== src/Task/Dataset.antt =====
-- task/dataset_resolver.py: the klines that a backtest needs, and those that are missing. Times are
-- seconds since the epoch, and a range has both its ends.
pub mod Covered
pub mod Gaps
pub mod Env
pub mod Cover
pub mod Prepare
use Prim.Native.Nat.{ℕ, zero, suc, ◌+◌, ◌-◌, ◌*◌, ◌/◌, ◌%◌, ◌≤◌, min, max}
use chainer_trader.Prelude.{
  ◌≡◌, Bool, true, false, not, ◌&&◌, ◌||◌, Option, none, some, List, [], ◌∷◌, ◌++◌, any, ltb, leb,
  ◌==◌, if◌then◌else◌,
}
use chainer_trader.Prelude.Int.{pos, ◌-ℤ◌, floor_mod}

abbrev pub Range : Type 0
Range = ℕ × ℕ

-- What the resolver reads of a kline.
pub record Kline : Type 0 where
  pub open_time : ℕ
  pub close_time : ℕ

-- `(a - b) % step`
abbrev pub distance : ℕ → ℕ → ℕ → ℕ
distance step a b = floor_mod step (pos a -ℤ pos b)

-- the first and the last expected open time, if the reference is known
abbrev aligned : ℕ → ℕ → ℕ → ℕ → Option Range
aligned start end step reference =
    let start_remainder = distance step start reference in
    let aligned_start = if start_remainder == 0 then start else start + (step - start_remainder) in
    let aligned_end = end - distance step end reference in
    if ltb end aligned_start || ltb aligned_end aligned_start
    then none
    else some (aligned_start, aligned_end)

abbrev aligned_to : ℕ → ℕ → ℕ → Option ℕ → Option Range
aligned_to start end step none = some (start, end)
aligned_to start end step (some reference) =
    if ltb end reference then some (start, end) else aligned start end step reference

unfoldable pub aligned_expected_range : ℕ → ℕ → ℕ → Option ℕ → Option Range
aligned_expected_range start end step reference =
    if ltb end start then none else aligned_to start end step reference

-- `86400`
abbrev day_seconds : ℕ
day_seconds = 86400

abbrev or_day : Range → Option Range → Range
or_day day none = day
or_day day (some r) = r

-- `now` is `int(time.time())`
unfoldable pub cache_range : ℕ → ℕ → ℕ → ℕ → Range
unfolding aligned_expected_range
cache_range now step start end =
    if step == 0 || ltb end start
    then (start, end)
    else let day_start = start - start % day_seconds in
      let day_end = (end / day_seconds + 1) * day_seconds - 1 in
      let cache_end = min day_end now in
      or_day (day_start, cache_end) (aligned_expected_range day_start cache_end step (some 0))

-- `[r]` if a test holds
abbrev when : Bool → Range → List Range
when b r = if b then r ∷ [] else []

-- The parts of a range before and after the cached one. A leading part that would end before time 0
-- is empty.
abbrev uncached_around : ℕ → ℕ → ℕ → Range → List Range
uncached_around step start end (cached_start, cached_end) =
    let leading_end = min end (cached_start - step) in
    let trailing_start = max start (cached_end + step) in
    when (ltb start cached_start && leb step cached_start && leb start leading_end)
      (start, leading_end)
    ++ when (ltb cached_end end && leb trailing_start end) (trailing_start, end)

abbrev positive_step : ℕ → ℕ
positive_step step = if step == 0 then 1 else step

abbrev uncached_by : ℕ → ℕ → ℕ → Option Range → List Range
uncached_by step start end none = (start, end) ∷ []
uncached_by step start end (some (cached_start, cached_end)) =
    if ltb cached_end cached_start
    then (start, end) ∷ []
    else uncached_around (positive_step step) start end (cached_start, cached_end)

unfoldable pub detect_uncached_ranges : ℕ → ℕ → ℕ → Option Range → List Range
detect_uncached_ranges step start end cached =
    if ltb end start then [] else uncached_by step start end cached

-- The loop over the expected times: the ranges found, and the one that is open.
pub record Scan : Type 0 where
  pub missing_ranges : List Range
  pub current_start : Option ℕ
  pub current_end : Option ℕ

abbrev pub no_scan : Scan
no_scan = record { missing_ranges = []; current_start = none; current_end = none }

-- `if current_start is not None and current_end is not None: missing_ranges.append(…)`
abbrev pub appended : List Range → Option ℕ → Option ℕ → List Range
appended rs (some a) (some b) = rs ++ ((a, b) ∷ [])
appended rs (some a) none = rs
appended rs none _ = rs

abbrev pub closed : List Range → Option ℕ → Option ℕ → Scan
closed rs (some a) (some b) = record {
  missing_ranges = rs ++ ((a, b) ∷ []);
  current_start = none;
  current_end = none;
}
closed rs (some a) none = record { missing_ranges = rs; current_start = some a; current_end = none }
closed rs none b = record { missing_ranges = rs; current_start = none; current_end = b }

abbrev pub opened : ℕ → Option ℕ → Option ℕ
opened t none = some t
opened t (some a) = some a

unfoldable pub scan_step : Bool → ℕ → Scan → Scan
scan_step exists t s =
    if exists
    then closed s.missing_ranges s.current_start s.current_end
    else record s { current_start = opened t s.current_start; current_end = some t }

-- `n` turns of the loop, from an expected time
unfoldable pub scan : (ℕ → Bool) → ℕ → ℕ → ℕ → Scan → Scan
scan exists step zero t s = s
scan exists step (suc n) t s = scan exists step n (t + step) (scan_step (exists t) t s)

-- the number of times of `range(start, end + 1, step)`
abbrev pub turns : Range → ℕ → ℕ
turns (start, end) step = if ltb end start then 0 else (end - start) / step + 1

-- whether a kline opens at a time of the range
unfoldable pub opens_at : List Kline → Range → ℕ → Bool
opens_at klines (start, end) t =
    any (λ k. leb start k.open_time && leb k.open_time end && k.open_time == t) klines

unfoldable pub missing_between : List Kline → ℕ → Range → List Range
unfolding opens_at scan scan_step
missing_between klines step (start, end) =
    let s = scan (opens_at klines (start, end)) step (turns (start, end) step) start no_scan in
    appended s.missing_ranges s.current_start s.current_end

abbrev first_open : List Kline → Option ℕ
first_open [] = none
first_open (k ∷ ks) = some k.open_time

unfoldable pub reference_open_time : List Kline → Option ℕ → Option ℕ
reference_open_time klines (some t) = some t
reference_open_time klines none = first_open klines

-- the range from the first available time on
abbrev pub available_from : Option ℕ → Option Range → Option Range
available_from (some first) (some (a, b)) = some (if ltb a first then first else a, b)
available_from _ r = r

abbrev whole : Range → List Range
whole (a, b) = when (leb a b) (a, b)

abbrev pub missing_of : Range → List Kline → ℕ → Option Range → List Range
missing_of requested [] step none = whole requested
missing_of requested [] step (some r) = whole r
missing_of requested (k ∷ ks) step none = []
missing_of requested (k ∷ ks) step (some (a, b)) =
    if ltb b a then [] else missing_between (k ∷ ks) step (a, b)

-- the range whose open times are expected
unfoldable pub expected_range : ℕ → ℕ → ℕ → List Kline → Option ℕ → Option Range
unfolding aligned_expected_range reference_open_time
expected_range step start end klines first =
    available_from first (aligned_expected_range start end step (reference_open_time klines first))

unfoldable pub detect_missing_ranges : ℕ → ℕ → ℕ → List Kline → Option ℕ → List Range
unfolding expected_range missing_between
detect_missing_ranges step start end klines first =
    missing_of (start, end) klines step (expected_range step start end klines first)

-- whether a time lies in a range of a list
abbrev pub inside : ℕ → Range → Bool
inside t (a, b) = leb a t && leb t b

abbrev pub covered : ℕ → List Range → Bool
covered t rs = any (inside t) rs
