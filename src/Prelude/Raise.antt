-- ===== src/Prelude/Raise.antt =====
-- A Python call that may raise: its value, or the exception.
use mathlib.Core.Path.{◌≡◌, refl, subst}
use mathlib.Core.Bool.{Bool, true, false}
use chainer_trader.Prelude.Tests.{if◌then◌else◌}

pub data Result {ℓ} (X : Type 0) (A : Type ℓ) : Type ℓ where
  ok : A → Result X A
  err : X → Result X A

-- `if b: raise e`
abbrev pub raise_if : {X : Type 0} → Bool → X → Result X (Unit {0})
raise_if true e = err e
raise_if false e = ok tt

module _ {ℓ κ} {X : Type 0} {A : Type ℓ} {B : Type κ} where
  infixl 5 ◌>>=◌
  abbrev pub ◌>>=◌ : Result X A → (A → Result X B) → Result X B
  (err e) >>= next = err e
  (ok a) >>= next = next a

infixl 5 ◌>>◌
abbrev pub ◌>>◌ {ℓ} : {X : Type 0} {B : Type ℓ} → Result X (Unit {0}) → Result X B → Result X B
checked >> rest = checked >>= λ _. rest

-- `P` holds of the value, if the call returns.
pub record Returns {X A : Type 0} (P : A → Type 0) (m : Result X A) : Type 0 where
  pub at : (a : A) → m ≡ ok a → P a

pub Returns-ok : {X A : Type 0} {P : A → Type 0} (a : A) → P a → Returns {X = X} P (ok a)
Returns-ok {P = P} a h = record { at = λ b e. subst P (cc) h }

pub Returns-err : {X A : Type 0} {P : A → Type 0} (x : X) → Returns {X = X} P (err x)
Returns-err x = record { at = λ b e. cc }

pub Returns-if :
    {X A : Type 0} {P : A → Type 0} (b : Bool) {m n : Result X A}
    → (b ≡ true → Returns P m)
    → (b ≡ false → Returns P n)
    → Returns P (if b then m else n)
Returns-if true h k = h refl
Returns-if false h k = k refl

pub Returns-map :
    {X A : Type 0} {P Q : A → Type 0} {m : Result X A}
    → ((a : A) → P a → Q a)
    → Returns P m
    → Returns Q m
Returns-map f h = record { at = λ a e. f a (h.at a e) }

pub Returns-bind :
    {X A B : Type 0} {Q : A → Type 0} {P : B → Type 0} {m : Result X A} {f : A → Result X B}
    → Returns Q m
    → ((a : A) → Q a → Returns P (f a))
    → Returns P (m >>= f)
Returns-bind {m = ok a} h k = k a (h.at a refl)
Returns-bind {m = err x} h k = record { at = λ b e. cc }

pub Returns-any : {X A : Type 0} (m : Result X A) → Returns (λ _. Unit {0}) m
Returns-any m = record { at = λ a e. tt }
