-- ===== src/Live/MarketData.antt =====
-- live/market_data.py: the updates of klines that a live feed accepts, and the klines that are loaded
-- before it starts. Times are seconds since the epoch.
pub mod Ordered
use Prim.Native.Nat.{ℕ, ◌+◌, ◌-◌, ◌*◌, ◌/◌, ◌≤◌, max}
use chainer_trader.Prelude.{
  ◌≡◌, Bool, true, false, not, ◌&&◌, Option, none, some, List, [], ◌∷◌, any, String, ltb, leb, ◌==◌,
  if◌then◌else◌,
}
use chainer_trader.Common.Interval.{Interval, get_time_duration}
use chainer_trader.Database.Availability.{Key, key_eq}

pub record KlineUpdate (F : Type 0) : Type 0 where
  pub exchange : String
  pub symbol : String
  pub interval : String
  pub open_time : ℕ
  pub close_time : ℕ
  pub open_price : F
  pub high : F
  pub low : F
  pub close : F
  pub volume : F
  pub event_time : ℕ
  pub is_closed : Bool
  pub vol_quote : F
  pub trades : ℕ
  pub vol_taker_base : F
  pub vol_taker_quote : F
  pub ignore : F

-- the first three parts of a key: the market
abbrev pub market : {F : Type 0} → KlineUpdate F → Key
market u = record { exchange = u.exchange; symbol = u.symbol; interval = u.interval }

-- `_closed_open_times`, a set of keys
abbrev pub Buffer : Type 0
Buffer = List (Key × ℕ)

module _ {F : Type 0} where
  abbrev pub is_key_of : KlineUpdate F → Key × ℕ → Bool
  is_key_of u (k, t) = key_eq k (market u) && t == u.open_time

  -- a closed kline of the market that is later than the update
  abbrev pub is_later : KlineUpdate F → Key × ℕ → Bool
  is_later u (k, t) = key_eq k (market u) && ltb u.open_time t

  -- whether the update is accepted, and the buffer
  unfoldable pub accept : KlineUpdate F → Buffer → Bool × Buffer
  accept u closed =
      if any (is_key_of u) closed
      then (false, closed)
      else if any (is_later u) closed
      then (false, closed)
      else (true, if u.is_closed then (market u, u.open_time) ∷ closed else closed)

  -- the updates of a feed that are accepted, in their order
  unfoldable pub accepted : List (KlineUpdate F) → Buffer → List (KlineUpdate F)
  accepted [] closed = []
  accepted (u ∷ us) closed =
      let (taken, closed') = accept u closed in
      let rest = accepted us closed' in if taken then u ∷ rest else rest

-- `BackfillPlan`, less its diagnostic
pub data BackfillRequestKind : Type 0 where
  no_backfill latest range : BackfillRequestKind

pub record BackfillPlan : Type 0 where
  pub kind : BackfillRequestKind
  pub limit : ℕ
  pub missing_count : ℕ
  pub start_time : Option ℕ
  pub end_time : Option ℕ
  pub truncated : Bool

-- Before the second candle has opened, this is 0 where Python's is negative.
unfoldable pub latest_closed_open_time : ℕ → Interval → ℕ
latest_closed_open_time now interval =
    let duration = get_time_duration interval in now / duration * duration - duration

abbrev plan_missing : ℕ → ℕ → ℕ → ℕ → BackfillPlan
plan_missing open_time duration cap missing =
    if leb missing 0
    then record {
      kind = no_backfill;
      limit = 0;
      missing_count = 0;
      start_time = none;
      end_time = none;
      truncated = false;
    }
    else if ltb cap missing
    then record {
      kind = latest;
      limit = cap;
      missing_count = missing;
      start_time = none;
      end_time = none;
      truncated = true;
    }
    else record {
      kind = range;
      limit = missing;
      missing_count = missing;
      start_time = some (open_time + duration);
      end_time = some (open_time + duration + (missing - 1) * duration);
      truncated = false;
    }

-- from the open time of the latest kline, if there is one
unfoldable pub plan_initial_backfill : Option ℕ → ℕ → Interval → ℕ → BackfillPlan
unfolding latest_closed_open_time
plan_initial_backfill none now interval limit = record {
  kind = latest;
  limit = max 1 limit;
  missing_count = max 1 limit;
  start_time = none;
  end_time = none;
  truncated = false;
}
plan_initial_backfill (some open_time) now interval limit =
    let duration = get_time_duration interval in
    let missing = (latest_closed_open_time now interval - open_time) / duration in
    plan_missing open_time duration (max 1 limit) missing
