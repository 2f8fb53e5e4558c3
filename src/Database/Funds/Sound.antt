-- ===== src/Database/Funds/Sound.antt =====
-- What the methods of `AccountFundReservationCol` keep of the table.
use chainer_trader.Prelude.{
  ◌≡◌, refl, subst, ◌+◌, ◌≤◌, inl, inr, Bool, true, false, ◌&&◌, none, List, [], ◌∷◌, String,
  Result, ok, err, arith, any, keep, Bool-cases, Option-cases, All, All-append, Returns,
}
use chainer_trader.Prelude.Int.{ℤ, eqb_ℤ, eqb_ℤ-eq}
use chainer_trader.Prelude.Float.{Float, OrderLaws}
use chainer_trader.Prelude.Text.{str_eq, str_eq_iff, strip}
use chainer_trader.Database.Funds.{
  Reservation, FundReservationError, FundArgs, is_of_task, first, reserved_on, normal_asset,
  check_fund_args, create_within, reserve, spend, mark_spent, release_task, release_rows,
  release_inactive_tasks, row_of_args, reserve_checked,
}
use chainer_trader.Database.Funds.Filters.{
  count_of, count_of-append, count_of-first, count_of-release, count_of-update, Alike, All-update,
}

and_left : (a b : Bool) → a && b ≡ true → a ≡ true
and_left a b h = ground arith

and_right : (a b : Bool) → a && b ≡ true → b ≡ true
and_right a b h = ground arith

free_for :
    {F : Type 0} (n m : ℤ) (a b : String) (rows : List (Reservation F))
    → n ≡ m
    → a ≡ b
    → first (is_of_task n a) rows ≡ none
    → first (is_of_task m b) rows ≡ none
free_for n m a b rows e f h =
    subst (λ k. first (is_of_task k b) rows ≡ none) e
      (subst (λ c. first (is_of_task n c) rows ≡ none) f h)

module _ {F : Type 0} ⦃fl : Float F⦄ where
  -- nothing is spent beyond the reservation
  abbrev IsWithin : Reservation F → Type 0
  IsWithin r = fl.lt r.reserved_amount r.spent_amount ≡ false

  -- A table that no task has two active rows of one asset in, nor overspent rows.
  pub record IsSound (rows : List (Reservation F)) : Type 0 where
    pub single : (n : ℤ) (a : String) → count_of n a rows ≤ 1
    pub within : All IsWithin rows

  spend-Alike : (x : F) (r : Reservation F) → Alike (spend x r) r
  unfolding spend
  spend-Alike x r n a = refl

  lt_irrefl : (laws : OrderLaws fl) (x : F) → fl.lt x x ≡ false
  lt_irrefl laws x = elim (Bool-cases (fl.lt x x)) [
    | inl less ↦ laws.lt_asym x x less
    | inr not_less ↦ not_less
  ]

  spend-IsWithin : (laws : OrderLaws fl) (x : F) (r : Reservation F) → IsWithin (spend x r)
  unfolding spend
  spend-IsWithin laws x r = elim (Bool-cases (fl.lt (fl.add r.spent_amount x) r.reserved_amount)) [
    | inl less ↦ rw less (laws.lt_asym _ _ less)
    | inr not_less ↦ rw not_less (lt_irrefl laws r.reserved_amount)
  ]

  mark_spent-IsSound :
      (laws : OrderLaws fl) (n : ℤ) (a : String) (x : F) (rows : List (Reservation F))
      → IsSound rows
      → IsSound (mark_spent n a x rows).1
  unfolding mark_spent
  mark_spent-IsSound laws n a x rows h = elim (Bool-cases (fl.le x fl.zero_f)) [
    | inl nothing ↦ rw nothing h
    | inr amount ↦ elim (Option-cases (first (is_of_task n (normal_asset a)) rows)) [
      | inl absent ↦ rw (amount, absent) h
      | inr (r, present) ↦
          rw (amount, present)
            (record {
              single = λ m b.
                  rw (count_of-update m b _ (spend x r) r rows present (spend-Alike x r))
                    (h.single m b);
              within = All-update IsWithin _ (spend x r) rows (spend-IsWithin laws x r) h.within;
            })
    ]
  ]

  release_task-IsWithin :
      (n : ℤ) (w : String) (rows : List (Reservation F))
      → All IsWithin rows
      → All IsWithin (release_task n w rows).1
  unfolding release_task
  release_task-IsWithin n w [] h = tt
  release_task-IsWithin n w (r ∷ rs) h = elim (Bool-cases (eqb_ℤ r.task_id n && r.is_active)) [
    | inl taken ↦ rw taken (h.0, release_task-IsWithin n w rs h.1)
    | inr left ↦ rw left (h.0, release_task-IsWithin n w rs h.1)
  ]

  release_task-IsSound :
      (n : ℤ) (w : String) (rows : List (Reservation F))
      → IsSound rows
      → IsSound (release_task n w rows).1
  release_task-IsSound n w rows h = record {
    single = λ m b. omega (arith, count_of-release m b n w rows, h.single m b);
    within = release_task-IsWithin n w rows h.within;
  }

  release_rows-IsSound :
      (running : List ℤ) (w : String) (read rows : List (Reservation F))
      → IsSound rows
      → IsSound (release_rows running w read rows).1
  unfolding release_rows
  release_rows-IsSound running w [] rows h = h
  release_rows-IsSound running w (r ∷ rs) rows h =
      elim (Bool-cases (any (eqb_ℤ r.task_id) running)) [
        | inl runs ↦ rw runs (release_rows-IsSound running w rs rows h)
        | inr gone ↦ rw gone (
            release_rows-IsSound running w rs (release_task r.task_id w rows).1
              (release_task-IsSound r.task_id w rows h))
      ]

  count_of-new :
      (account asset : String) (a : FundArgs F) (m : ℤ) (b : String) (rows : List (Reservation F))
      → first (is_of_task a.task_id asset) rows ≡ none
      → count_of m b rows ≤ 1
      → count_of m b rows + count_of m b (row_of_args fl.zero_f account asset a ∷ []) ≤ 1
  unfolding count_of
  count_of-new account asset a m b rows free one =
      elim (Bool-cases (eqb_ℤ a.task_id m && (str_eq asset b && true))) [
        | inl same ↦
            rw
              (
                same,
                count_of-first m b rows (
                    free_for a.task_id m asset b rows
                      (eqb_ℤ-eq a.task_id m (and_left (eqb_ℤ a.task_id m) _ same))
                      ((str_eq_iff asset b).0
                        (and_left _ true (and_right (eqb_ℤ a.task_id m) _ same)))
                      free),
              )
              (omega arith)
        | inr other ↦ rw other (omega (arith, one))
      ]

  not_less : (laws : OrderLaws fl) (x : F) → fl.le x fl.zero_f ≡ false → fl.lt x fl.zero_f ≡ false
  not_less laws x h = ground (arith, laws.lt-le x fl.zero_f)

  create_within-IsSound :
      (laws : OrderLaws fl) (slack : F) (account asset : String) (a : FundArgs F)
      (rows : List (Reservation F))
      → fl.le a.amount fl.zero_f ≡ false
      → first (is_of_task a.task_id asset) rows ≡ none
      → IsSound rows
      → IsSound (create_within slack account asset a rows).1
  unfolding create_within
  create_within-IsSound laws slack account asset a rows positive free h =
      let row = row_of_args fl.zero_f account asset a in
      elim (Bool-cases
        (fl.lt (fl.add a.capacity slack) (fl.add (reserved_on account asset rows) a.amount))) [
          | inl full ↦ rw full h
          | inr fits ↦ rw fits (record {
            single = λ m b.
                rw (count_of-append m b rows (row ∷ []))
                  (count_of-new account asset a m b rows free (h.single m b));
            within =
                All-append IsWithin rows (row ∷ []) h.within (not_less laws a.amount positive, tt);
          })
        ]

  check_fund_args-positive :
      (account asset : String) (x : F)
      → Returns (λ _. fl.le x fl.zero_f ≡ false) (check_fund_args account asset x)
  unfolding check_fund_args
  check_fund_args-positive account asset x = record { at = λ u h. ground arith }

  checked-IsSound :
      (laws : OrderLaws fl) (slack : F) (account asset : String) (a : FundArgs F)
      (rows : List (Reservation F)) (checks : Result FundReservationError (Unit {0}))
      → Returns (λ _. fl.le a.amount fl.zero_f ≡ false) checks
      → IsSound rows
      → IsSound (reserve_checked slack account asset a rows checks).1
  checked-IsSound laws slack account asset a rows (err e) c h = h
  checked-IsSound laws slack account asset a rows (ok u) c h =
      elim (Option-cases (first (is_of_task a.task_id asset) rows)) [
        | inl free ↦
            rw free (create_within-IsSound laws slack account asset a rows (c.at u refl) free h)
        | inr (r, taken) ↦ rw taken h
      ]

  reserve-IsSound :
      (laws : OrderLaws fl) (slack : F) (a : FundArgs F) (rows : List (Reservation F))
      → IsSound rows
      → IsSound (reserve slack a rows).1
  unfolding reserve
  reserve-IsSound laws slack a rows h =
      checked-IsSound laws slack (strip a.account_key) (normal_asset a.asset) a rows _
        (check_fund_args-positive (strip a.account_key) (normal_asset a.asset) a.amount) h

-- A call of one of the methods that write.
pub data Op (F : Type 0) : Type 0 where
  reserves : FundArgs F → Op F
  spends : ℤ → String → F → Op F
  releases : ℤ → String → Op F
  sweeps : List ℤ → String → Op F

module _ {F : Type 0} ⦃fl : Float F⦄ where
  unfoldable pub run : F → List (Op F) → List (Reservation F) → List (Reservation F)
  run slack [] rows = rows
  run slack (reserves a ∷ ops) rows = run slack ops (reserve slack a rows).1
  run slack (spends n a x ∷ ops) rows = run slack ops (mark_spent n a x rows).1
  run slack (releases n w ∷ ops) rows = run slack ops (release_task n w rows).1
  run slack (sweeps running w ∷ ops) rows = run slack ops (release_inactive_tasks running w rows).1

  -- Whatever methods are called, one after the other, from a sound table: no task has two active
  -- reservations of one asset, and no reservation's spent amount exceeds its reserved amount.
  -- The comparisons of floats are assumed to be laws of an order, which hold of NaN too.
  pub run-IsSound :
      (laws : OrderLaws fl) (slack : F) (ops : List (Op F)) (rows : List (Reservation F))
      → IsSound rows
      → IsSound (run slack ops rows)
  unfolding run release_inactive_tasks
  run-IsSound laws slack [] rows h = h
  run-IsSound laws slack (reserves a ∷ ops) rows h =
      run-IsSound laws slack ops _ (reserve-IsSound laws slack a rows h)
  run-IsSound laws slack (spends n a x ∷ ops) rows h =
      run-IsSound laws slack ops _ (mark_spent-IsSound laws n a x rows h)
  run-IsSound laws slack (releases n w ∷ ops) rows h =
      run-IsSound laws slack ops _ (release_task-IsSound n w rows h)
  run-IsSound laws slack (sweeps running w ∷ ops) rows h =
      run-IsSound laws slack ops _
        (release_rows-IsSound running w (keep (λ r. r.is_active) rows) rows h)
