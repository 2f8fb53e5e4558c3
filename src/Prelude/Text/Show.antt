-- ===== src/Prelude/Text/Show.antt =====
-- `str(n)` and `{n}` in an f-string, for an integer.
use Prim.Native.Nat.{ℕ, zero, suc, ◌/◌, ◌%◌}
use Prim.Native.String.{String, ◌++◌}
use mathlib.Core.Path.{◌≡◌, refl}
use chainer_trader.Prelude.Tests.{ltb, ◌==◌, if◌then◌else◌}
use chainer_trader.Prelude.Int.{ℤ, pos, negsuc}

abbrev digit : ℕ → String
digit d =
    if d == 0
    then "0"
    else if d == 1
    then "1"
    else if d == 2
    then "2"
    else if d == 3
    then "3"
    else if d == 4
    then "4"
    else if d == 5
    then "5"
    else if d == 6
    then "6"
    else if d == 7
    then "7"
    else if d == 8
    then "8"
    else "9"

-- A number has at most as many digits as its value and one, so that fuel is never used up.
show_digits : ℕ → ℕ → String
show_digits zero n = digit (n % 10)
show_digits (suc f) n =
    let front = show_digits f (n / 10) in if ltb n 10 then digit n else front ++ digit (n % 10)

unfoldable pub show_nat : ℕ → String
unfolding show_digits
show_nat n = show_digits n n

unfoldable pub show_int : ℤ → String
unfolding show_nat
show_int (pos n) = show_nat n
show_int (negsuc n) = "-" ++ show_nat (suc n)

show_int_examples :
    (show_int (pos 0) ≡ "0") × (show_int (pos 1207) ≡ "1207") × (show_int (negsuc 41) ≡ "-42")
unfolding show_int
show_int_examples = (refl, refl, refl)
