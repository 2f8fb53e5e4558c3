-- ===== src/Prelude/Exec.antt =====
-- A coroutine that changes a state and may raise. What it wrote before it raised stays written.
use mathlib.Core.Path.{◌≡◌, refl}
use chainer_trader.Prelude.Raise.{Result, ok, err, Returns, Returns-err}
use chainer_trader.Prelude.Tests.{if◌then◌else◌}
use mathlib.Core.Bool.{Bool, true, false}

abbrev pub Exec : Type 0 → Type 0 → Type 0 → Type 0
Exec X S A = S → Result X A × S

module _ {X S A : Type 0} where
  abbrev pub pure : A → Exec X S A
  pure a s = (ok a, s)

  abbrev pub raise : X → Exec X S A
  raise x s = (err x, s)

  abbrev pub lift : Result X A → Exec X S A
  lift r s = (r, s)

  abbrev pub gets : (S → A) → Exec X S A
  gets f s = (ok (f s), s)

module _ {X S A B : Type 0} where
  abbrev pub continue : Result X A → (A → Exec X S B) → Exec X S B
  continue (ok a) f s = f a s
  continue (err x) f s = (err x, s)

  infixl 5 ◌>>=◌ ◌>>◌
  abbrev pub ◌>>=◌ : Exec X S A → (A → Exec X S B) → Exec X S B
  ◌>>=◌ m f s = let (r, s') = m s in continue r f s'

  abbrev pub ◌>>◌ : Exec X S A → Exec X S B → Exec X S B
  m >> n = m >>= λ _. n

module _ {X S A B : Type 0} where
  -- What holds of a state holds after the rest of a block, if the rest keeps it.
  pub keeps_continue :
      (P : S → Type 0) (r : Result X A) (f : A → Exec X S B) (s : S)
      → P s
      → ((a : A) → r ≡ ok a → P (f a s).1)
      → P (continue r f s).1
  keeps_continue P (ok a) f s h k = k a refl
  keeps_continue P (err x) f s h k = h

  -- What a block returns is what its rest returns, whatever came before.
  pub Returns-continue :
      {P : B → Type 0} (r : Result X A) (f : A → Exec X S B) (s : S)
      → ((a : A) → Returns P (f a s).0)
      → Returns P (continue r f s).0
  Returns-continue (ok a) f s h = h a
  Returns-continue (err x) f s h = Returns-err x

  pub Returns-then :
      {P : B → Type 0} (m : Exec X S A) (f : A → Exec X S B) (s : S)
      → ((a : A) (s' : S) → Returns P (f a s').0)
      → Returns P ((m >>= f) s).0
  Returns-then m f s h = Returns-continue (m s).0 f (m s).1 λ a. h a (m s).1

  after :
      {Q : A → Type 0} {P : B → Type 0} (p : Result X A × S) (f : A → Exec X S B)
      → Returns Q p.0
      → ((a : A) (s' : S) → Q a → Returns P (f a s').0)
      → Returns P (continue p.0 f p.1).0
  after (ok a, s) f h k = k a s (h.at a refl)
  after (err x, s) f h k = Returns-err x

  pub Returns-after :
      {Q : A → Type 0} {P : B → Type 0} (m : Exec X S A) (f : A → Exec X S B) (s : S)
      → Returns Q (m s).0
      → ((a : A) (s' : S) → Q a → Returns P (f a s').0)
      → Returns P ((m >>= f) s).0
  Returns-after m f s h k = after (m s) f h k

module _ {X S A : Type 0} {P : A → Type 0} where
  pub Returns-choice :
      (b : Bool) (m n : Exec X S A) (s : S)
      → (b ≡ true → Returns P (m s).0)
      → (b ≡ false → Returns P (n s).0)
      → Returns P ((if b then m else n) s).0
  Returns-choice true m n s h k = h refl
  Returns-choice false m n s h k = k refl

  pub Returns-branch :
      (b : Bool) (p q : Result X A × S)
      → (b ≡ true → Returns P p.0)
      → (b ≡ false → Returns P q.0)
      → Returns P (if b then p else q).0
  Returns-branch true p q h k = h refl
  Returns-branch false p q h k = k refl
