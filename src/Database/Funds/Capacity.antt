-- ===== src/Database/Funds/Capacity.antt =====
-- What a reservation that `reserve` makes gives: it fits, and adds its amount.
use chainer_trader.Prelude.{
  ◌≡◌, refl, ap, inl, inr, Bool, true, false, ◌&&◌, Option, none, some, List, [], ◌∷◌, ◌++◌, String,
  Result, ok, err, arith, keep, Bool-cases,
}
use chainer_trader.Prelude.Float.{Float}
use chainer_trader.Prelude.Text.{str_eq, str_eq_iff, strip}
use chainer_trader.Database.Funds.{
  Reservation, FundReservationError, FundArgs, FundReservationResult, is_of_task, is_of_account,
  first, reserved_on, amounts, normal_asset, check_fund_args, create_within, reserve, row_of_args,
  reserve_checked, reserve_unless,
}

-- whether a call made a reservation
abbrev pub was_created : {F : Type 0} → Result FundReservationError (FundReservationResult F) → Bool
was_created (ok r) = r.created
was_created (err e) = false

own : (a b : String) → str_eq a a && (str_eq b b && true) ≡ true
own a b = rw ((str_eq_iff a a).1 refl, (str_eq_iff b b).1 refl) refl

module _ {F : Type 0} ⦃fl : Float F⦄ where
  amounts-append :
      (p : Reservation F → Bool) (rows : List (Reservation F)) (r : Reservation F)
      → p r ≡ true
      → amounts (keep p (rows ++ (r ∷ []))) ≡ amounts (keep p rows) ++ (r.reserved_amount ∷ [])
  amounts-append p [] r h = rw h refl
  amounts-append p (y ∷ rows) r h = elim (Bool-cases (p y)) [
    | inl kept ↦ rw kept (ap (λ xs. y.reserved_amount ∷ xs) (amounts-append p rows r h))
    | inr left ↦ rw left (amounts-append p rows r h)
  ]

  -- Between the amounts before and after, one is added, which fits with those before.
  abbrev AddsWithin :
      F → String → String → FundArgs F → List (Reservation F) → List (Reservation F) → Type 0
  AddsWithin slack account asset a rows after =
      (fl.lt (fl.add a.capacity slack) (fl.add (reserved_on account asset rows) a.amount) ≡ false)
      × (amounts (keep (is_of_account account asset) after)
          ≡ amounts (keep (is_of_account account asset) rows) ++ (a.amount ∷ []))

  create_within-AddsWithin :
      (slack : F) (account asset : String) (a : FundArgs F) (rows : List (Reservation F))
      → was_created (create_within slack account asset a rows).0 ≡ true
      → AddsWithin slack account asset a rows (create_within slack account asset a rows).1
  unfolding create_within
  create_within-AddsWithin slack account asset a rows h =
      let row = row_of_args fl.zero_f account asset a in
      elim (Bool-cases
        (fl.lt (fl.add a.capacity slack) (fl.add (reserved_on account asset rows) a.amount))) [
          | inl full ↦ ground (arith, h, full)
          | inr fits ↦
              rw fits
                (refl, amounts-append (is_of_account account asset) rows row (own account asset))
        ]

  unless-AddsWithin :
      (slack : F) (account asset : String) (a : FundArgs F) (rows : List (Reservation F))
      (existing : Option (Reservation F))
      → was_created (reserve_unless slack account asset a rows existing).0 ≡ true
      → AddsWithin slack account asset a rows (reserve_unless slack account asset a rows existing).1
  unless-AddsWithin slack account asset a rows (some r) h = cc
  unless-AddsWithin slack account asset a rows none h =
      create_within-AddsWithin slack account asset a rows h

  checked-AddsWithin :
      (slack : F) (account asset : String) (a : FundArgs F) (rows : List (Reservation F))
      (checks : Result FundReservationError (Unit {0}))
      → was_created (reserve_checked slack account asset a rows checks).0 ≡ true
      → AddsWithin slack account asset a rows (reserve_checked slack account asset a rows checks).1
  checked-AddsWithin slack account asset a rows (err e) h = cc
  checked-AddsWithin slack account asset a rows (ok u) h =
      unless-AddsWithin slack account asset a rows (first (is_of_task a.task_id asset) rows) h

  -- When `reserve` makes a reservation, the sum of the account's active reserved amounts of the
  -- asset before it, with the new amount added, does not exceed the capacity that was given with the
  -- slack, and the new amount is the one that it adds to those amounts. Nothing is assumed of the
  -- floats' rounding.
  pub reserve-fits :
      (slack : F) (a : FundArgs F) (rows : List (Reservation F))
      → was_created (reserve slack a rows).0 ≡ true
      → (let account = strip a.account_key in
          let asset = normal_asset a.asset in
          (fl.lt (fl.add a.capacity slack) (fl.add (reserved_on account asset rows) a.amount)
            ≡ false)
          × (amounts (keep (is_of_account account asset) (reserve slack a rows).1)
              ≡ amounts (keep (is_of_account account asset) rows) ++ (a.amount ∷ [])))
  unfolding reserve
  reserve-fits slack a rows h =
      checked-AddsWithin slack (strip a.account_key) (normal_asset a.asset) a rows
        (check_fund_args (strip a.account_key) (normal_asset a.asset) a.amount) h
