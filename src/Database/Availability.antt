-- ===== src/Database/Availability.antt =====
-- database/availability.py: from when on the klines of a market are known to exist, and the range of
-- open times that is cached. Times are seconds since the epoch.
pub mod Window
pub mod Replayed
use Prim.Native.Nat.{ℕ, ◌≤◌, min, max}
use chainer_trader.Prelude.{
  ◌≡◌, refl, Bool, true, false, not, ◌&&◌, ◌||◌, Option, none, some, String, Result, ok, err,
  is_some, ltb, leb, ◌==◌, if◌then◌else◌,
}
use chainer_trader.Prelude.Exec.{Exec}
use chainer_trader.Prelude.Text.{str_eq, str_eq_iff}

-- the columns that are unique together
pub record Key : Type 0 where
  pub exchange : String
  pub symbol : String
  pub interval : String

abbrev pub key_eq : Key → Key → Bool
key_eq a b =
    str_eq a.exchange b.exchange && str_eq a.symbol b.symbol && str_eq a.interval b.interval

-- `AvailabilityModel`, less its serial number and its key
pub record Availability : Type 0 where
  pub earliest_known_open_time : Option ℕ
  pub cached_start_open_time : Option ℕ
  pub cached_end_open_time : Option ℕ
  pub updated_at : ℕ
  pub source : String

pub data DbError : Type 0 where
  operational_error : String → DbError
  another_error : String → DbError

-- The queries of the collection, through Tortoise ORM, which is not part of the repository.
pub record Table (T : Type 0) : Type 0 where
  -- whether the model has the fields of the cached range
  pub has_cached_fields : Bool
  -- `AvailabilityModel.filter(…).first()`
  pub first : Key → T → Result DbError (Option Availability)
  -- `AvailabilityModel.create(…)`
  pub create : Key → Availability → T → Result DbError T
  -- `row.save()`
  pub save : Key → Availability → T → Result DbError T
  -- `AvailabilityModel.update_or_create(…, defaults={earliest…, updated_at, source})`
  pub update_or_create : Key → ℕ → ℕ → String → T → Result DbError T

-- the columns that `update_or_create` changes, of the row that is there or of a new one
abbrev pub with_earliest : ℕ → ℕ → String → Option Availability → Availability
with_earliest n at source none = record {
  earliest_known_open_time = some n;
  cached_start_open_time = none;
  cached_end_open_time = none;
  updated_at = at;
  source = source;
}
with_earliest n at source (some row) = record row {
  earliest_known_open_time = some n;
  updated_at = at;
  source = source;
}

abbrev pub reaches : Option ℕ → ℕ → Bool
reaches none n = false
reaches (some m) n = leb m n

abbrev pub earliest_of : Option Availability → Option ℕ
earliest_of none = none
earliest_of (some row) = row.earliest_known_open_time

-- `a if old is None else min(old, a)`, and `max`
abbrev pub lowest : Option ℕ → ℕ → ℕ
lowest none a = a
lowest (some old) a = min old a

abbrev pub highest : Option ℕ → ℕ → ℕ
highest none a = a
highest (some old) a = max old a

abbrev pub is_same : ℕ → Option ℕ → Bool
is_same n none = false
is_same n (some m) = n == m

-- the range of a row, if it has one
abbrev range_of_bounds : Option ℕ → Option ℕ → Option (ℕ × ℕ)
range_of_bounds (some a) (some b) = if ltb b a then none else some (a, b)
range_of_bounds _ _ = none

abbrev pub range_of : Option Availability → Option (ℕ × ℕ)
range_of none = none
range_of (some row) = range_of_bounds row.cached_start_open_time row.cached_end_open_time

module _ {T : Type 0} (db : Table T) where
  -- the answer to a query, with `none` for an `OperationalError`
  abbrev pub or_none :
      {A : Type 0}
      → (Option Availability → Option A)
      → Result DbError (Option Availability)
      → Result DbError (Option A)
  or_none f (ok o) = ok (f o)
  or_none f (err (operational_error m)) = ok none
  or_none f (err (another_error m)) = err (another_error m)

  -- the columns of the row are the state's
  unfoldable pub get_state : Key → T → Result DbError (Option Availability)
  get_state k t = or_none (λ o. o) (db.first k t)

  unfoldable pub get_earliest_known_open_time : Key → T → Result DbError (Option ℕ)
  get_earliest_known_open_time k t = or_none earliest_of (db.first k t)

  unfoldable pub get_cached_open_time_range : Key → T → Result DbError (Option (ℕ × ℕ))
  get_cached_open_time_range k t =
      if not db.has_cached_fields then ok none else or_none range_of (db.first k t)

  -- a write whose errors are the caller's
  abbrev raising : T → Result DbError T → Result DbError Bool × T
  raising t (ok t') = (ok true, t')
  raising t (err e) = (err e, t)

  abbrev pub lower_earliest :
      Key → ℕ → String → Result DbError (Option Availability) → Exec DbError T Bool
  lower_earliest k n source (err e) t = (err e, t)
  lower_earliest k n source (ok current) t =
      if reaches (earliest_of current) n
      then (ok false, t)
      else raising t (db.update_or_create k n n source t)

  unfoldable pub update_earliest_known_open_time : Key → ℕ → String → Exec DbError T Bool
  update_earliest_known_open_time k n source t = lower_earliest k n source (db.first k t) t

  -- a write after which an `OperationalError` is only logged
  abbrev logging : T → Result DbError T → Result DbError Bool × T
  logging t (ok t') = (ok true, t')
  logging t (err (operational_error m)) = (ok false, t)
  logging t (err (another_error m)) = (err (another_error m), t)

  abbrev pub widen :
      Key → ℕ → ℕ → ℕ → String → Result DbError (Option Availability) → Exec DbError T Bool
  widen k start end now source (err e) t = logging t (err e)
  widen k start end now source (ok none) t = logging t (
      db.create k
        (record {
          earliest_known_open_time = none;
          cached_start_open_time = some start;
          cached_end_open_time = some end;
          updated_at = now;
          source = source;
        })
        t)
  widen k start end now source (ok (some current)) t =
      let next_start = lowest current.cached_start_open_time start in
      let next_end = highest current.cached_end_open_time end in
      if is_same next_start current.cached_start_open_time
        && is_same next_end current.cached_end_open_time
      then (ok false, t)
      else logging t (
          db.save k
            (record current {
              cached_start_open_time = some next_start;
              cached_end_open_time = some next_end;
              updated_at = now;
              source = source;
            })
            t)

  -- `now` is `int(time.time())`
  unfoldable pub update_cached_open_time_range : Key → ℕ → ℕ → ℕ → String → Exec DbError T Bool
  update_cached_open_time_range k start end now source t =
      if ltb end start
      then (ok false, t)
      else if not db.has_cached_fields
      then (ok false, t)
      else widen k start end now source (db.first k t) t
