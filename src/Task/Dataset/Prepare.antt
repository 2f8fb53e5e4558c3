-- ===== src/Task/Dataset/Prepare.antt =====
-- `DatasetResolver.prepare` of task/dataset_resolver.py, with the results that the resolver keeps.
pub mod Kept
use Prim.Native.Nat.{ℕ, zero, suc, ◌+◌, ◌≤◌}
use chainer_trader.Prelude.{
  ◌≡◌, Bool, true, false, not, ◌&&◌, ◌||◌, Option, none, some, List, [], ◌∷◌, String, Result, ok,
  err, length, from_option, is_none, ltb, ◌==◌, if◌then◌else◌,
}
use chainer_trader.Prelude.Exec.{Exec, pure, ◌>>=◌, ◌>>◌}
use chainer_trader.Prelude.Text.{str_eq, join}
use chainer_trader.Prelude.Text.Show.{show_nat}
use chainer_trader.Common.Interval.{
  SymbolInterval, symbol_name, symbol_interval_name, interval_value, get_time_duration,
}
use chainer_trader.Database.Availability.{Key}
use chainer_trader.Task.Dataset.{
  Range, Kline, cache_range, detect_uncached_ranges, detect_missing_ranges,
}
use chainer_trader.Task.Dataset.Env.{
  DatasetRef, DatasetPreparationFailure, DatasetPreparationResult, Downloader, download_range,
  download_range_backward, custom_downloader, Store, Env, Request, build_dataset_key,
  build_dataset_ref, failure_of, get_first_available_open_time, supports_cached_open_time_range,
  get_cached_open_time_range, update_cached_open_time_range, get_daily_archive_start_time,
}
use chainer_trader.Task.Dataset.Cover.{cover, finish}

-- The resolver: the results that it keeps, and the world outside it.
pub record Resolver (W : Type 0) : Type 0 where
  pub prepared : List (String × DatasetPreparationResult)
  pub world : W

abbrev pub find_prepared :
    String → List (String × DatasetPreparationResult) → Option DatasetPreparationResult
find_prepared key [] = none
find_prepared key ((k, x) ∷ rest) =
    let later = find_prepared key rest in if str_eq k key then some x else later

-- The result is kept, unless a call raises.
abbrev pub remember :
    {W : Type 0}
    → String
    → List (String × DatasetPreparationResult)
    → Result String DatasetPreparationResult × W
    → Result String DatasetPreparationResult × Resolver W
remember key kept (ok x, w) = (ok x, record { prepared = (key, x) ∷ kept; world = w })
remember key kept (err e, w) = (err e, record { prepared = kept; world = w })

-- the start of the range, from the first time that there is data of
abbrev pub clamped : ℕ → Option ℕ → ℕ
clamped start none = start
clamped start (some first) = if ltb start first then first else start

module _ {W : Type 0} (env : Env W) where
  abbrev pub archive_unless : Option ℕ → SymbolInterval → Exec String W (Option ℕ)
  archive_unless (some first) si = pure none
  archive_unless none si = get_daily_archive_start_time env si

  -- `cache_start`, with what the store says of the market
  unfoldable pub locate : SymbolInterval → ℕ → Exec String W (ℕ × Option ℕ × Option Range)
  locate si start =
      (if env.has_db_manager then get_first_available_open_time env si else pure none) >>= λ first.
      (if env.has_db_manager then get_cached_open_time_range env si else pure none) >>= λ cached.
      archive_unless first si >>= λ archive.
      pure (clamped (clamped start archive) first, first, cached)

  unfoldable pub resolve :
      Request → ℕ → ℕ → Option ℕ → Option Range → Exec String W DatasetPreparationResult
  unfolding build_dataset_key build_dataset_ref
  resolve r start end first cached =
      let key = build_dataset_key r.symbol_interval start end in
      if not env.has_db_manager || not env.has_klines
      then pure
          (failure_of key "db_unavailable" "database manager is required for dataset preparation")
      else if ltb r.end_time start
      then pure (failure_of key "no_data" "requested range is before first available kline")
      else cover env r start end first cached
        >>= finish env (build_dataset_ref env.cache_dir r.symbol_interval start end)

  -- the kept result of the dataset, or a new one
  abbrev pub known :
      Request
      → ℕ
      → ℕ
      → Option ℕ
      → Option Range
      → Resolver W
      → W
      → Option DatasetPreparationResult
      → Result String DatasetPreparationResult × Resolver W
  known r start end first cached s w (some x) = (ok x, record s { world = w })
  known r start end first cached s w none =
      remember (build_dataset_key r.symbol_interval start end) s.prepared
        (resolve r start end first cached w)

  abbrev pub prepare_at :
      Request
      → ℕ
      → Resolver W
      → Result String (ℕ × Option ℕ × Option Range) × W
      → Result String DatasetPreparationResult × Resolver W
  prepare_at r end s (err e, w) = (err e, record s { world = w })
  prepare_at r end s (ok (start, first, cached), w) =
      known r start end first cached s w
        (find_prepared (build_dataset_key r.symbol_interval start end) s.prepared)

  unfoldable pub prepare : Request → Exec String (Resolver W) DatasetPreparationResult
  unfolding locate cache_range
  prepare r s =
      let (start, end) =
        cache_range env.now (get_time_duration r.symbol_interval.interval) r.start_time
          r.end_time in
      prepare_at r end s (locate r.symbol_interval start s.world)
