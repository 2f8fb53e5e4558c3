-- ===== src/Task/UpdateKlines.antt =====
-- task/update_klines_task.py: the loops that download a range of klines, forward and backward, and the
-- ranges that an update downloads. The exchange, the database and the event that ends a task are
-- parameters; a pause and a log line are left out. Each loop runs on fuel: a turn uses one unit.
pub mod Ends
pub mod Planned
use Prim.Native.Nat.{ℕ, zero, suc, ◌+◌, ◌-◌, ◌*◌, ◌/◌, ◌≤◌, min, max}
use chainer_trader.Prelude.{
  ◌≡◌, Bool, true, false, ◌&&◌, ◌||◌, Option, none, some, List, [], ◌∷◌, String, Result, ok, err,
  length, ltb, leb, if◌then◌else◌,
}
use chainer_trader.Prelude.Exec.{Exec, pure, ◌>>=◌, ◌>>◌}
use chainer_trader.Common.Interval.{Interval, get_time_duration, add_time_duration}
use chainer_trader.Task.Dataset.{Kline, Range}

-- `DOWNLOAD_RETRY_MAX`
abbrev pub download_retry_max : ℕ
download_retry_max = 5

-- `compute_limit_for_range`, with `KLINE_REQUEST_LIMIT_MAX` of the exchange's module
unfoldable pub compute_limit_for_range : ℕ → Interval → ℕ → ℕ → ℕ
compute_limit_for_range limit_max interval start end =
    if ltb end start
    then 0
    else max 1 (min limit_max ((end - start) / get_time_duration interval + 1))

pub record Source (W : Type 0) : Type 0 where
  pub limit_max : ℕ
  -- `quit.is_set()`
  pub is_quit : W → Bool
  -- `exchange.get_klines(…, start, end, limit=limit)`, which may answer `None`
  pub get_klines : ℕ → ℕ → ℕ → Exec String W (Option (List Kline))
  -- `exchange.get_klines_by_end(…, end, limit=limit)`, if the exchange has it
  pub get_klines_by_end : Option (ℕ → ℕ → Exec String W (Option (List Kline)))
  -- `db_manager.kline.add_klines(…)`: how many were added
  pub add_klines : List Kline → Exec String W ℕ
  pub update_cached_open_time_range : ℕ → ℕ → String → Exec String W (Unit {0})
  pub update_earliest_known_open_time : ℕ → Exec String W (Unit {0})

-- How a loop ends.
pub data LoopEnd (A : Type 0) : Type 0 where
  out_of_fuel : LoopEnd A
  -- `return False`
  gave_up : LoopEnd A
  -- the loop is over
  ended : A → LoopEnd A

-- The variables of the forward loop.
pub record Forward : Type 0 where
  pub current_start : ℕ
  pub retry_count : ℕ
  pub total_records : ℕ

-- The variables of the backward loop.
pub record Backward : Type 0 where
  pub current_end : ℕ
  pub retries : ℕ
  pub total : ℕ
  pub earliest_seen_open_time : Option ℕ
  pub confirmed_boundary : Bool

abbrev pub last_open_time : Kline → List Kline → ℕ
last_open_time k [] = k.open_time
last_open_time k (j ∷ ks) = last_open_time j ks

abbrev pub earlier : Option ℕ → ℕ → Option ℕ
earlier none t = some t
earlier (some e) t = if ltb t e then some t else some e

-- `t - step`, if it is not before time 0
abbrev pub one_before : ℕ → ℕ → Option ℕ
one_before step t = if leb step t then some (t - step) else none

module _ {W : Type 0} (src : Source W) (interval : Interval) (start end : ℕ) where
  -- the rest of a turn, once there are klines
  abbrev pub advanced :
      (Forward → Exec String W (LoopEnd ℕ)) → Forward → ℕ → ℕ → Exec String W (LoopEnd ℕ)
  advanced again s last added =
      let total = s.total_records + added in
      let next_start = add_time_duration last interval 1 in
      if leb next_start s.current_start
      then pure (ended total)
      else again (record { current_start = next_start; retry_count = 0; total_records = total })

  abbrev pub retried : (Forward → Exec String W (LoopEnd ℕ)) → Forward → Exec String W (LoopEnd ℕ)
  retried again s =
      if ltb s.retry_count download_retry_max
      then again (record s { retry_count = s.retry_count + 1 })
      else pure gave_up

  abbrev pub received :
      (Forward → Exec String W (LoopEnd ℕ))
      → Forward
      → Option (List Kline)
      → Exec String W (LoopEnd ℕ)
  received again s none = retried again s
  received again s (some []) = retried again s
  received again s (some (k ∷ ks)) =
      src.add_klines (k ∷ ks) >>= λ added. advanced again s (last_open_time k ks) added

  -- one turn of `while current_start <= end_time`
  unfoldable pub forward_turn :
      (Forward → Exec String W (LoopEnd ℕ)) → Forward → Exec String W (LoopEnd ℕ)
  unfolding compute_limit_for_range add_time_duration
  forward_turn again s w =
      let limit = compute_limit_for_range src.limit_max interval s.current_start end in
      let batch_end = min end (add_time_duration s.current_start interval (limit - 1)) in
      if ltb end s.current_start
      then (ok (ended s.total_records), w)
      else if src.is_quit w
      then (ok gave_up, w)
      else (src.get_klines s.current_start batch_end limit >>= received again s) w

  unfoldable pub forward_loop : ℕ → Forward → Exec String W (LoopEnd ℕ)
  unfolding forward_turn
  forward_loop zero s = pure out_of_fuel
  forward_loop (suc fuel) s = forward_turn (forward_loop fuel) s

  abbrev pub cached_if : ℕ → String → Exec String W (Unit {0})
  cached_if total source =
      if ltb 0 total then src.update_cached_open_time_range start end source else pure tt

  abbrev pub forward_result : LoopEnd ℕ → Exec String W (Option Bool)
  forward_result out_of_fuel = pure none
  forward_result gave_up = pure (some false)
  forward_result (ended total) = cached_if total "download_range" >> pure (some true)

  -- `none` when the fuel is used up
  unfoldable pub download_range : ℕ → Exec String W (Option Bool)
  unfolding forward_loop
  download_range fuel =
      if ltb end start
      then pure (some false)
      else (forward_loop fuel (record { current_start = start; retry_count = 0; total_records = 0 })
          >>= forward_result)

  abbrev pub moved_back :
      (Backward → Exec String W (LoopEnd Backward))
      → Backward
      → Option ℕ
      → Exec String W (LoopEnd Backward)
  moved_back again s none = pure (ended s)
  moved_back again s (some prev_end) =
      if leb s.current_end prev_end || ltb prev_end start
      then pure (ended s)
      else again (record s { current_end = prev_end })

  abbrev pub retried_back :
      (Backward → Exec String W (LoopEnd Backward)) → Backward → Exec String W (LoopEnd Backward)
  retried_back again s =
      if ltb s.retries download_retry_max
      then again (record s { retries = s.retries + 1 })
      else pure gave_up

  -- there is nothing at or before the current end
  abbrev pub bounded : Backward → Backward
  bounded s = elim s.earliest_seen_open_time [
    | none ↦ record s {
      earliest_seen_open_time = some (add_time_duration s.current_end interval 1);
      confirmed_boundary = true;
    }
    | some t ↦ record s { confirmed_boundary = true }
  ]

  abbrev pub received_back :
      (Backward → Exec String W (LoopEnd Backward))
      → Backward
      → Option (List Kline)
      → Exec String W (LoopEnd Backward)
  received_back again s none = retried_back again s
  received_back again s (some []) = pure (ended (bounded s))
  received_back again s (some (k ∷ ks)) = src.add_klines (k ∷ ks) >>= λ added.
      moved_back again
        (record s {
          retries = 0;
          total = s.total + added;
          earliest_seen_open_time = earlier s.earliest_seen_open_time k.open_time;
        })
        (one_before (get_time_duration interval) k.open_time)

  abbrev pub ask_back :
      Option (ℕ → ℕ → Exec String W (Option (List Kline)))
      → ℕ
      → ℕ
      → Exec String W (Option (List Kline))
  ask_back none current_end limit = src.get_klines start current_end limit
  ask_back (some by_end) current_end limit = by_end current_end limit

  -- one turn of `while current_end >= start_time`
  unfoldable pub backward_turn :
      (Backward → Exec String W (LoopEnd Backward)) → Backward → Exec String W (LoopEnd Backward)
  unfolding compute_limit_for_range add_time_duration
  backward_turn again s w =
      let limit = compute_limit_for_range src.limit_max interval start s.current_end in
      if ltb s.current_end start
      then (ok (ended s), w)
      else if src.is_quit w
      then (ok gave_up, w)
      else if leb limit 0
      then (ok (ended s), w)
      else (ask_back src.get_klines_by_end s.current_end limit >>= received_back again s) w

  unfoldable pub backward_loop : ℕ → Backward → Exec String W (LoopEnd Backward)
  unfolding backward_turn
  backward_loop zero s = pure out_of_fuel
  backward_loop (suc fuel) s = backward_turn (backward_loop fuel) s

  abbrev pub earliest_if : Bool → Option ℕ → Exec String W (Unit {0})
  earliest_if true (some t) = src.update_earliest_known_open_time t
  earliest_if _ _ = pure tt

  abbrev pub backward_result : LoopEnd Backward → Exec String W (Option Bool)
  backward_result out_of_fuel = pure none
  backward_result gave_up = pure (some false)
  backward_result (ended s) =
      earliest_if s.confirmed_boundary s.earliest_seen_open_time
      >> (cached_if s.total "download_range_backward" >> pure (some true))

  unfoldable pub download_range_backward : ℕ → Exec String W (Option Bool)
  unfolding backward_loop
  download_range_backward fuel =
      if ltb end start
      then pure (some true)
      else (backward_loop fuel (record {
        current_end = end;
        retries = 0;
        total = 0;
        earliest_seen_open_time = none;
        confirmed_boundary = false;
      })
          >>= backward_result)
