-- ===== src/Common/Duration.antt =====
-- Relative durations of common/time_range.py: `1y`, `-30d`, `24h`. A digit is an ASCII digit.
use Prim.Native.Char.{Char, code}
use Prim.Native.String.{String, [] as empty, ◌∷◌ as cons}
use chainer_trader.Prelude.{ℕ, Bool, ◌||◌, ◌&&◌, Option, none, some, ◌==◌, if◌then◌else◌}
use chainer_trader.Prelude.Text.{lower, strip, is_empty}
use chainer_trader.Prelude.Text.Digits.{is_digit, int_of}

pub record Duration : Type 0 where
  pub amount : ℕ
  pub unit : String

-- a member of `hdwmy`, in either case
abbrev is_unit : Char → Bool
is_unit c =
    let n = code c in
    n == 104
    || n == 100
    || n == 119
    || n == 109
    || n == 121
    || n == 72
    || n == 68
    || n == 87
    || n == 77
    || n == 89

abbrev prepend : Char → Option (String × String) → Option (String × String)
prepend c none = none
prepend c (some (ds, u)) = some (cons c ds, u)

-- `\d*[hdwmy]` to the end: the digits, and the unit
unfoldable match_amount : String → Option (String × String)
match_amount empty = none
match_amount (cons c s) =
    let later = match_amount s in
    if is_digit c
    then prepend c later
    else if is_unit c && is_empty s
    then some (empty, cons c empty)
    else none

abbrev duration_of : Option (String × String) → Option Duration
duration_of none = none
duration_of (some (ds, u)) =
    if is_empty ds then none else some (record { amount = int_of ds; unit = lower u })

-- `[+-]?` at the start
abbrev unsigned : String → String
unsigned empty = empty
unsigned (cons c s) = if code c == 43 || code c == 45 then s else cons c s

-- of a text; any other value is no duration
unfoldable pub parse_relative_duration : String → Option Duration
unfolding match_amount
parse_relative_duration value =
    let stripped = strip value in
    if is_empty stripped then none else duration_of (match_amount (unsigned stripped))
