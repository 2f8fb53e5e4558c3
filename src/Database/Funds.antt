-- ===== src/Database/Funds.antt =====
-- `AccountFundReservationCol` of database/account_fund_reservation.py.
-- The rows of the table are in order of creation. `reserve` and `mark_spent` run in a transaction;
-- `release_task` and `release_inactive_tasks` do not, and are taken one call after the other.
-- The times of release are not kept, nor the texts that only describe a reservation.
pub mod Capacity
pub mod Filters
pub mod Sound
use chainer_trader.Prelude.{
  ℕ, ◌+◌, Bool, true, false, not, ◌&&◌, Option, none, some, List, [], ◌∷◌, ◌++◌, String, Result, ok,
  err, any, keep, if◌then◌else◌,
}
use chainer_trader.Prelude.Raise
use chainer_trader.Prelude.Exec.{Exec}
use chainer_trader.Prelude.Int.{ℤ, eqb_ℤ}
use chainer_trader.Prelude.Float.{Float}
use chainer_trader.Prelude.Text.{str_eq, strip, upper, is_empty}

-- A row of `AccountFundReservationModel`; `is_active` is whether its status is ACTIVE, and
-- `reason` the text that it was last written with.
pub record Reservation (F : Type 0) : Type 0 where
  pub account_key : String
  pub exchange : String
  pub credential_id : Option ℤ
  pub user_id : Option ℤ
  pub task_id : ℤ
  pub asset : String
  pub reserved_amount : F
  pub spent_amount : F
  pub is_active : Bool
  pub reason : String

pub data FundReservationError : Type 0 where
  account_required asset_required not_positive insufficient : FundReservationError

-- The keyword arguments of `reserve`.
pub record FundArgs (F : Type 0) : Type 0 where
  pub account_key : String
  pub exchange : String
  pub credential_id : Option ℤ
  pub user_id : Option ℤ
  pub task_id : ℤ
  pub asset : String
  pub amount : F
  pub capacity : F
  pub reason : String

pub record FundReservationResult (F : Type 0) : Type 0 where
  pub reservation : Reservation F
  pub created : Bool

-- `str(asset or "").strip().upper()`
pub normal_asset : String → String
unfolding strip upper
normal_asset s = upper (strip s)

module _ {F : Type 0} where
  -- the filter by task, asset and ACTIVE
  abbrev pub is_of_task : ℤ → String → Reservation F → Bool
  is_of_task task asset r = eqb_ℤ r.task_id task && (str_eq r.asset asset && r.is_active)

  -- the filter by account, asset and ACTIVE
  abbrev pub is_of_account : String → String → Reservation F → Bool
  is_of_account account asset r =
      str_eq r.account_key account && (str_eq r.asset asset && r.is_active)

  -- `.first()`
  abbrev pub first : (Reservation F → Bool) → List (Reservation F) → Option (Reservation F)
  first p [] = none
  first p (r ∷ rs) = let rest = first p rs in if p r then some r else rest

  -- the writing of the first row of a filter
  abbrev pub update_first :
      (Reservation F → Bool) → Reservation F → List (Reservation F) → List (Reservation F)
  update_first p x [] = []
  update_first p x (r ∷ rs) = let rest = update_first p x rs in if p r then x ∷ rs else r ∷ rest

  abbrev pub row_of_args : F → String → String → FundArgs F → Reservation F
  row_of_args zero account asset a = record {
    account_key = account;
    exchange = a.exchange;
    credential_id = a.credential_id;
    user_id = a.user_id;
    task_id = a.task_id;
    asset = asset;
    reserved_amount = a.amount;
    spent_amount = zero;
    is_active = true;
    reason = a.reason;
  }

module _ {F : Type 0} ⦃fl : Float F⦄ where
  abbrev pub amounts : List (Reservation F) → List F
  amounts [] = []
  amounts (r ∷ rs) = r.reserved_amount ∷ amounts rs

  -- the reserved amount that `reserve` computes in its transaction, and `active_reserved_amount`
  pub reserved_on : String → String → List (Reservation F) → F
  reserved_on account asset rows = fl.sum (amounts (keep (is_of_account account asset) rows))

  unfoldable active_reserved_amount : String → String → List (Reservation F) → F
  unfolding reserved_on strip normal_asset
  active_reserved_amount account asset rows = reserved_on (strip account) (normal_asset asset) rows

  -- `remaining_amount`
  unfoldable remaining_amount : Reservation F → F
  remaining_amount r =
      let left = fl.sub r.reserved_amount r.spent_amount in
      if fl.lt left fl.zero_f then fl.zero_f else left

  -- the checks of `reserve` on its arguments
  pub check_fund_args : String → String → F → Result FundReservationError (Unit {0})
  check_fund_args account asset amount =
      if is_empty account
      then err account_required
      else if is_empty asset
      then err asset_required
      else if fl.le amount fl.zero_f
      then err not_positive
      else ok tt

  -- the creation at the end of the transaction, unless the amount does not fit; `slack` is 1e-12
  unfoldable pub create_within :
      F
      → String
      → String
      → FundArgs F
      → List (Reservation F)
      → Result FundReservationError (FundReservationResult F) × List (Reservation F)
  unfolding reserved_on
  create_within slack account asset a rows =
      let row = row_of_args fl.zero_f account asset a in
      if fl.lt (fl.add a.capacity slack) (fl.add (reserved_on account asset rows) a.amount)
      then (err insufficient, rows)
      else (ok (record { reservation = row; created = true }), rows ++ (row ∷ []))

  abbrev pub reserve_unless :
      F
      → String
      → String
      → FundArgs F
      → List (Reservation F)
      → Option (Reservation F)
      → Result FundReservationError (FundReservationResult F) × List (Reservation F)
  reserve_unless slack account asset a rows (some r) =
      (ok (record { reservation = r; created = false }), rows)
  reserve_unless slack account asset a rows none = create_within slack account asset a rows

  abbrev pub reserve_checked :
      F
      → String
      → String
      → FundArgs F
      → List (Reservation F)
      → Result FundReservationError (Unit {0})
      → Result FundReservationError (FundReservationResult F) × List (Reservation F)
  reserve_checked slack account asset a rows (err e) = (err e, rows)
  reserve_checked slack account asset a rows (ok _) =
      reserve_unless slack account asset a rows (first (is_of_task a.task_id asset) rows)

  -- `reserve`
  unfoldable pub reserve :
      F → FundArgs F → Exec FundReservationError (List (Reservation F)) (FundReservationResult F)
  unfolding strip normal_asset check_fund_args
  reserve slack a rows =
      let account = strip a.account_key in
      let asset = normal_asset a.asset in
      reserve_checked slack account asset a rows (check_fund_args account asset a.amount)

  -- the spent amount that `mark_spent` writes
  pub spend : F → Reservation F → Reservation F
  spend amount r =
      let spent = fl.add r.spent_amount amount in
      record r { spent_amount = if fl.lt spent r.reserved_amount then spent else r.reserved_amount }

  abbrev spend_first :
      (Reservation F → Bool)
      → F
      → List (Reservation F)
      → Option (Reservation F)
      → Option (Reservation F) × List (Reservation F)
  spend_first p amount rows none = (none, rows)
  spend_first p amount rows (some r) = (some (spend amount r), update_first p (spend amount r) rows)

  -- `mark_spent`
  pub mark_spent :
      ℤ → String → F → List (Reservation F) → Option (Reservation F) × List (Reservation F)
  unfolding normal_asset spend
  mark_spent task asset amount rows =
      let p = is_of_task task (normal_asset asset) in
      if fl.le amount fl.zero_f
      then (first p rows, rows)
      else spend_first p amount rows (first p rows)

module _ {F : Type 0} where
  -- `release_task`: the rows that it counts, and the table
  pub release_task : ℤ → String → List (Reservation F) → ℕ × List (Reservation F)
  release_task task reason [] = (0, [])
  release_task task reason (r ∷ rs) =
      let (n, released) = release_task task reason rs in
      if eqb_ℤ r.task_id task && r.is_active
      then (n + 1, record r { is_active = false; reason = reason } ∷ released)
      else (n, r ∷ released)

  -- the loop of `release_inactive_tasks`, over the active rows that were read before it
  pub release_rows :
      List ℤ → String → List (Reservation F) → List (Reservation F) → ℕ × List (Reservation F)
  unfolding release_task
  release_rows running reason [] rows = (0, rows)
  release_rows running reason (r ∷ rs) rows =
      let (n, released) = release_task r.task_id reason rows in
      let (m, after) = release_rows running reason rs released in
      let skipped = release_rows running reason rs rows in
      if any (eqb_ℤ r.task_id) running then skipped else (n + m, after)

  -- `release_inactive_tasks`
  pub release_inactive_tasks : List ℤ → String → List (Reservation F) → ℕ × List (Reservation F)
  unfolding release_rows
  release_inactive_tasks running reason rows =
      release_rows running reason (keep (λ r. r.is_active) rows) rows
