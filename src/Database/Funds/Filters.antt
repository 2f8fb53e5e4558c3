-- ===== src/Database/Funds/Filters.antt =====
-- The rows that the queries of `AccountFundReservationCol` find, count and write.
use chainer_trader.Prelude.{
  ◌≡◌, refl, ap, subst, ℕ, ◌+◌, ◌≤◌, inl, inr, Bool, true, false, none, some, List, [], ◌∷◌, ◌++◌,
  String, arith, Bool-cases, if◌then◌else◌, All,
}
use chainer_trader.Prelude.Int.{ℤ}
use chainer_trader.Database.Funds.{Reservation, is_of_task, first, update_first, release_task}

module _ {F : Type 0} where
  -- the number of active rows of a task and an asset
  unfoldable pub count_of : ℤ → String → List (Reservation F) → ℕ
  count_of task asset [] = 0
  count_of task asset (r ∷ rs) = (if is_of_task task asset r then 1 else 0) + count_of task asset rs

  pub count_of-append :
      (n : ℤ) (a : String) (xs ys : List (Reservation F))
      → count_of n a (xs ++ ys) ≡ count_of n a xs + count_of n a ys
  unfolding count_of
  count_of-append n a [] ys = omega arith
  count_of-append n a (x ∷ xs) ys = omega (arith, count_of-append n a xs ys)

  pub count_of-first :
      (n : ℤ) (a : String) (xs : List (Reservation F))
      → first (is_of_task n a) xs ≡ none
      → count_of n a xs ≡ 0
  unfolding count_of
  count_of-first n a [] h = refl
  count_of-first n a (x ∷ xs) h = ground (arith, count_of-first n a xs)

  pub count_of-release :
      (n : ℤ) (a : String) (m : ℤ) (w : String) (xs : List (Reservation F))
      → count_of n a (release_task m w xs).1 ≤ count_of n a xs
  unfolding count_of release_task
  count_of-release n a m w [] = ground arith
  count_of-release n a m w (x ∷ xs) = ground (arith, count_of-release n a m w xs)

  -- Two rows that every filter by task, asset and ACTIVE takes alike.
  abbrev pub Alike : Reservation F → Reservation F → Type 0
  Alike x y = (n : ℤ) (a : String) → is_of_task n a x ≡ is_of_task n a y

  pub first_head :
      (p : Reservation F → Bool) (y r : Reservation F) (ys : List (Reservation F))
      → first p (y ∷ ys) ≡ some r
      → p y ≡ true
      → y ≡ r
  first_head p y r ys h here = cc

  pub first_tail :
      (p : Reservation F → Bool) (y r : Reservation F) (ys : List (Reservation F))
      → first p (y ∷ ys) ≡ some r
      → p y ≡ false
      → first p ys ≡ some r
  first_tail p y r ys h later = cc

  pub count_of-update :
      (n : ℤ) (a : String) (p : Reservation F → Bool) (x r : Reservation F)
      (xs : List (Reservation F))
      → first p xs ≡ some r
      → Alike x r
      → count_of n a (update_first p x xs) ≡ count_of n a xs
  unfolding count_of
  count_of-update n a p x r [] h e = refl
  count_of-update n a p x r (y ∷ ys) h e = elim (Bool-cases (p y)) [
    | inl here ↦ rw (here, e n a, first_head p y r ys h here) refl
    | inr later ↦ rw later (
        ap (λ k. (if is_of_task n a y then 1 else 0) + k)
          (count_of-update n a p x r ys (first_tail p y r ys h later) e))
  ]

  pub All-first :
      (P : Reservation F → Type 0) (p : Reservation F → Bool) (r : Reservation F)
      (xs : List (Reservation F))
      → first p xs ≡ some r
      → All P xs
      → P r
  All-first P p r [] h k = cc
  All-first P p r (y ∷ ys) h k = elim (Bool-cases (p y)) [
    | inl here ↦ subst P (first_head p y r ys h here) k.0
    | inr later ↦ All-first P p r ys (first_tail p y r ys h later) k.1
  ]

  pub All-update :
      (P : Reservation F → Type 0) (p : Reservation F → Bool) (x : Reservation F)
      (xs : List (Reservation F))
      → P x
      → All P xs
      → All P (update_first p x xs)
  All-update P p x [] h k = tt
  All-update P p x (y ∷ ys) h k = elim (Bool-cases (p y)) [
    | inl here ↦ rw here (h, k.1)
    | inr later ↦ rw later (k.0, All-update P p x ys h k.1)
  ]
