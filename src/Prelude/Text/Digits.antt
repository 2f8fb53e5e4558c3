-- ===== src/Prelude/Text/Digits.antt =====
-- `isdigit` and `int`, on ASCII text.
use Prim.Native.Nat.{ℕ, ◌+◌, ◌-◌, ◌*◌}
use Prim.Native.Char.{Char, code}
use Prim.Native.String.{String, [] as empty, ◌∷◌ as cons}
use mathlib.Core.Bool.{Bool, true, not, ◌&&◌}
use chainer_trader.Prelude.Tests.{leb}
use chainer_trader.Prelude.Text.{is_empty}

abbrev pub is_digit : Char → Bool
is_digit c = leb 48 (code c) && leb (code c) 57

abbrev all_digits : String → Bool
all_digits empty = true
all_digits (cons c s) = is_digit c && all_digits s

-- `s.isdigit()`
unfoldable pub is_digits : String → Bool
is_digits s = not (is_empty s) && all_digits s

abbrev digits_from : ℕ → String → ℕ
digits_from n empty = n
digits_from n (cons c s) = digits_from (n * 10 + (code c - 48)) s

-- `int(s)` on a text of digits
unfoldable pub int_of : String → ℕ
int_of s = digits_from 0 s
