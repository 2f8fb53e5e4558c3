-- ===== src/Common/Interval.antt =====
-- utils/symbol_interval.py: the intervals of klines, and symbols.
use Prim.Native.Nat.{ℕ, ◌+◌, ◌*◌, ◌≤◌}
use Prim.Native.Char.{Char, code}
use Prim.Native.String.{String, [] as nil, ◌∷◌ as cons}
use chainer_trader.Prelude.{Bool, ◌||◌, List, [], ◌∷◌, ◌==◌, if◌then◌else◌, arith}
use chainer_trader.Prelude.Text.{join, is_empty}

pub data Interval : Type 0 where
  interval_1s : Interval
  interval_1m : Interval
  interval_3m : Interval
  interval_5m : Interval
  interval_15m : Interval
  interval_30m : Interval
  interval_1h : Interval
  interval_2h : Interval
  interval_4h : Interval
  interval_6h : Interval
  interval_8h : Interval
  interval_12h : Interval
  interval_1d : Interval
  interval_3d : Interval
  interval_1w : Interval
  interval_1_m : Interval

abbrev pub interval_value : Interval → String
interval_value interval_1s = "1s"
interval_value interval_1m = "1m"
interval_value interval_3m = "3m"
interval_value interval_5m = "5m"
interval_value interval_15m = "15m"
interval_value interval_30m = "30m"
interval_value interval_1h = "1h"
interval_value interval_2h = "2h"
interval_value interval_4h = "4h"
interval_value interval_6h = "6h"
interval_value interval_8h = "8h"
interval_value interval_12h = "12h"
interval_value interval_1d = "1d"
interval_value interval_3d = "3d"
interval_value interval_1w = "1w"
interval_value interval_1_m = "1M"

-- `int(timedelta(minutes=m).total_seconds())`, and so on
abbrev minutes : ℕ → ℕ
minutes m = m * 60

abbrev hours : ℕ → ℕ
hours h = h * 3600

abbrev days : ℕ → ℕ
days d = d * 86400

-- in seconds
unfoldable pub get_time_duration : Interval → ℕ
get_time_duration interval_1s = 1
get_time_duration interval_1m = minutes 1
get_time_duration interval_3m = minutes 3
get_time_duration interval_5m = minutes 5
get_time_duration interval_15m = minutes 15
get_time_duration interval_30m = minutes 30
get_time_duration interval_1h = hours 1
get_time_duration interval_2h = hours 2
get_time_duration interval_4h = hours 4
get_time_duration interval_6h = hours 6
get_time_duration interval_8h = hours 8
get_time_duration interval_12h = hours 12
get_time_duration interval_1d = days 1
get_time_duration interval_3d = days 3
get_time_duration interval_1w = days 7
get_time_duration interval_1_m = days 30

unfoldable pub add_time_duration : ℕ → Interval → ℕ → ℕ
add_time_duration cur i num = cur + get_time_duration i * num

pub get_time_duration_pos : (i : Interval) → 1 ≤ get_time_duration i
unfolding get_time_duration
get_time_duration_pos i = ground arith

pub record Symbol : Type 0 where
  pub base : String
  pub quote : String

-- puts a character before the first part of a split text
abbrev before : Char → List String → List String
before c [] = cons c nil ∷ []
before c (p ∷ ps) = cons c p ∷ ps

-- `s.split("-")`
unfoldable split_dash : String → List String
split_dash nil = nil ∷ []
split_dash (cons c s) =
    let parts = split_dash s in if code c == 45 then nil ∷ parts else before c parts

abbrev symbol_of : List String → Symbol
symbol_of (b ∷ q ∷ []) = record { base = b; quote = q }
symbol_of _ = record { base = nil; quote = nil }

unfoldable pub symbol : String → Symbol
unfolding split_dash
symbol s = symbol_of (split_dash s)

abbrev pub symbol_name : Symbol → String
symbol_name sy = join sy.base sy.quote

abbrev symbol_is_empty : Symbol → Bool
symbol_is_empty sy = is_empty (symbol_name sy)

pub record SymbolInterval : Type 0 where
  pub sy : Symbol
  pub interval : Interval

abbrev pub make_symbol_interval : String → Interval → SymbolInterval
unfolding symbol
make_symbol_interval s i = record { sy = symbol s; interval = i }

abbrev pub symbol_interval_name : SymbolInterval → String
symbol_interval_name si = join (symbol_name si.sy) (join "-" (interval_value si.interval))

abbrev symbol_interval_is_empty : SymbolInterval → Bool
symbol_interval_is_empty si = symbol_is_empty si.sy || is_empty (interval_value si.interval)
