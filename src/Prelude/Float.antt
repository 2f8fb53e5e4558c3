-- ===== src/Prelude/Float.antt =====
-- Python's floats, behind their operations. Nothing is assumed of the rounding: a law that a
-- theorem needs is a hypothesis of it, and each law below holds for IEEE 754 numbers, NaN included.
use mathlib.Core.Path.{◌≡◌}
use mathlib.Core.Bool.{Bool, true, false}
use mathlib.Core.List.{List, [], ◌∷◌}
use native.Mathlib.Omega.{arith}
use chainer_trader.Prelude.Int.{ℤ, pos, ◌+ℤ◌, ◌-ℤ◌, ◌*ℤ◌, ltb_ℤ, leb_ℤ, eqb_ℤ}

pub record Float (F : Type 0) : Type 0 where
  -- 0.0
  pub zero_f : F
  pub add : F → F → F
  pub sub : F → F → F
  pub mul : F → F → F
  pub div : F → F → F
  -- Python's `<`, `<=` and `==`
  pub lt : F → F → Bool
  pub le : F → F → Bool
  pub eqf : F → F → Bool
  -- `math.isfinite`
  pub is_finite : F → Bool
  -- `float(n)` and `math.floor(x)`
  pub of_int : ℤ → F
  pub floor : F → ℤ
  -- `round(x, 4)`
  pub round4 : F → F
  -- `sum`, which from version 3.12 of Python on is not the additions from the left
  pub sum : List F → F

-- The comparisons. `<` fails on NaN, so `a < b` being false does not give `b <= a`.
pub record OrderLaws {F : Type 0} (fl : Float F) : Type 0 where
  pub lt_asym : (a b : F) → fl.lt a b ≡ true → fl.lt b a ≡ false
  pub lt_trans : (a b c : F) → fl.lt a b ≡ true → fl.lt b c ≡ true → fl.lt a c ≡ true
  pub lt-le : (a b : F) → fl.lt a b ≡ true → fl.le a b ≡ true
  pub lt_not_le : (a b : F) → fl.lt a b ≡ true → fl.le b a ≡ false
  pub le_not_lt : (a b : F) → fl.le a b ≡ true → fl.lt b a ≡ false
  pub le_trans : (a b c : F) → fl.le a b ≡ true → fl.le b c ≡ true → fl.le a c ≡ true
  pub lt-le_trans : (a b c : F) → fl.lt a b ≡ true → fl.le b c ≡ true → fl.lt a c ≡ true
  pub le-lt_trans : (a b c : F) → fl.le a b ≡ true → fl.lt b c ≡ true → fl.lt a c ≡ true

abbrev pub sum_ℤ : List ℤ → ℤ
sum_ℤ [] = pos 0
sum_ℤ (n ∷ ns) = n +ℤ sum_ℤ ns

-- The integers as floats: a value of the interface at which the hypotheses of theorems hold.
abbrev pub int_float : Float ℤ
int_float = record {
  zero_f = pos 0;
  add = ◌+ℤ◌;
  sub = ◌-ℤ◌;
  mul = ◌*ℤ◌;
  div = λ a b. a;
  lt = ltb_ℤ;
  le = leb_ℤ;
  eqf = eqb_ℤ;
  is_finite = λ a. true;
  of_int = λ n. n;
  floor = λ a. a;
  round4 = λ a. a;
  sum = sum_ℤ;
}

pub int_float-OrderLaws : OrderLaws int_float
int_float-OrderLaws = record {
  lt_asym = λ a b h. ground arith;
  lt_trans = λ a b c h k. ground arith;
  lt-le = λ a b h. ground arith;
  lt_not_le = λ a b h. ground arith;
  le_not_lt = λ a b h. ground arith;
  le_trans = λ a b c h k. ground arith;
  lt-le_trans = λ a b c h k. ground arith;
  le-lt_trans = λ a b c h k. ground arith;
}
