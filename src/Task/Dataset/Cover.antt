-- ===== src/Task/Dataset/Cover.antt =====
-- The coverage of a dataset: the download of what is missing, and the result that follows from it.
-- `DatasetResolver.prepare` of task/dataset_resolver.py, less its lookups. A log line is left out.
pub mod Complete
use Prim.Native.Nat.{ℕ, zero, suc, ◌+◌, ◌≤◌}
use chainer_trader.Prelude.{
  ◌≡◌, Bool, true, false, not, ◌&&◌, ◌||◌, Option, none, some, List, [], ◌∷◌, String, Result, ok,
  err, length, from_option, is_none, ltb, ◌==◌, if◌then◌else◌,
}
use chainer_trader.Prelude.Exec.{Exec, pure, ◌>>=◌, ◌>>◌}
use chainer_trader.Prelude.Text.{str_eq, join}
use chainer_trader.Prelude.Text.Show.{show_nat}
use chainer_trader.Common.Interval.{
  SymbolInterval, symbol_name, symbol_interval_name, interval_value, get_time_duration,
}
use chainer_trader.Database.Availability.{Key}
use chainer_trader.Task.Dataset.{
  Range, Kline, cache_range, detect_uncached_ranges, detect_missing_ranges,
}
use chainer_trader.Task.Dataset.Env.{
  DatasetRef, DatasetPreparationFailure, DatasetPreparationResult, Downloader, download_range,
  download_range_backward, custom_downloader, Store, Env, Request, build_dataset_key,
  build_dataset_ref, failure_of, get_first_available_open_time, supports_cached_open_time_range,
  get_cached_open_time_range, update_cached_open_time_range, get_daily_archive_start_time,
}

-- The klines of a dataset, with the ranges that are still missing and whether that was allowed; or
-- why there is none.
pub data Coverage : Type 0 where
  failed : String → String → Coverage
  covering : List Kline → List Range → Bool → Coverage

abbrev pub is_nil : {A : Type 0} → List A → Bool
is_nil [] = true
is_nil (x ∷ xs) = false

-- `[a,b]`
abbrev pub range_text : String → Range → String
range_text comma (a, b) = join "[" (join (show_nat a) (join comma (join (show_nat b) "]")))

-- `", ".join(f"[{a},{b}]" for a, b in missing_ranges[:n])`
abbrev pub preview : ℕ → List Range → String
preview zero rs = ""
preview (suc n) [] = ""
preview (suc n) (r ∷ []) = range_text "," r
preview (suc zero) (r ∷ q ∷ rs) = range_text "," r
preview (suc (suc n)) (r ∷ q ∷ rs) = join (range_text "," r) (join ", " (preview (suc n) (q ∷ rs)))

abbrev pub suffix : List Range → String
suffix rs =
    join " remaining_missing_ranges="
      (join (show_nat (length rs)) (join " preview=" (preview 3 rs)))

abbrev pub budget_text : ℕ → Option ℕ → String
budget_text n budget = join "dataset needs " (
    join (show_nat n)
      (join " download ranges, exceeding budget " (show_nat (from_option 0 budget))))

-- the first of the klines is at or before the end of a range
abbrev pub is_before_all : ℕ → List Kline → Bool
is_before_all range_end [] = true
is_before_all range_end (k ∷ ks) = ltb range_end k.open_time

-- the cached range is stale if there are no klines in it
abbrev pub unless_stale : Range → List Kline → List Range → List Range
unless_stale whole klines uncached =
    if is_nil uncached && is_nil klines then whole ∷ [] else uncached

abbrev pub refilled : Request → List Kline → List Range → Coverage
refilled r klines missing =
    if is_nil missing || r.allow_incomplete_coverage
    then covering klines missing false
    else failed "coverage_incomplete"
        (join "dataset is still incomplete after refill." (suffix missing))

abbrev pub exceeds : List Range → Option ℕ → Bool
exceeds missing none = false
exceeds missing (some budget) = ltb budget (length missing)

abbrev pub is_file_of : List Kline → Option ℕ → Bool
is_file_of klines none = false
is_file_of klines (some rows) = length klines == rows

abbrev pub ok_result : DatasetRef → Bool → DatasetPreparationResult
ok_result ref hit = record { is_ok = true; dataset_ref = some ref; failure = none; cache_hit = hit }

module _ {W : Type 0} (env : Env W) where
  unfoldable pub downloader_for_missing_range : ℕ → List Kline → Downloader
  downloader_for_missing_range range_end klines =
      if env.has_custom_downloader
      then custom_downloader
      else if is_before_all range_end klines
      then download_range_backward
      else download_range

  -- the loop over the missing ranges: the first one whose download fails
  unfoldable pub download_all :
      SymbolInterval → List Kline → List Range → Exec String W (Option Range)
  unfolding downloader_for_missing_range
  download_all si klines [] = pure none
  download_all si klines ((a, b) ∷ rs) =
      env.download (downloader_for_missing_range b klines) si a b >>= λ success.
      if success then download_all si klines rs else pure (some (a, b))

  -- the ranges that are missing before any download
  unfoldable pub missing_before :
      Request → ℕ → ℕ → Option ℕ → Option Range → List Kline → List Range
  missing_before r start end first cached klines =
      let step = get_time_duration r.symbol_interval.interval in
      if supports_cached_open_time_range env
      then unless_stale (start, end) klines (detect_uncached_ranges step start end cached)
      else if is_nil (detect_missing_ranges step r.start_time r.end_time klines first)
      then []
      else detect_missing_ranges step start end klines first

  -- the ranges that are missing after the downloads
  unfoldable pub missing_after :
      Request → ℕ → ℕ → List Kline → Option ℕ → Exec String W (List Range)
  missing_after r start end klines first =
      if not (supports_cached_open_time_range env)
      then pure (
          detect_missing_ranges (get_time_duration r.symbol_interval.interval) start r.end_time
            klines first)
      else if is_nil klines
      then pure ((start, end) ∷ [])
      else update_cached_open_time_range env r.symbol_interval start end >> pure []

  unfoldable pub refill : Request → ℕ → ℕ → Exec String W Coverage
  refill r start end =
      env.get_klines (symbol_interval_name r.symbol_interval) start end >>= λ klines.
      get_first_available_open_time env r.symbol_interval >>= λ first.
      missing_after r start end klines first >>= λ missing. pure (refilled r klines missing)

  abbrev pub downloaded : Request → ℕ → ℕ → Option Range → Exec String W Coverage
  downloaded r start end none = refill r start end
  downloaded r start end (some (a, b)) =
      pure (
        failed "download_failed"
          (join "failed to download missing range " (range_text ", " (a, b))))

  unfoldable pub cover_missing : Request → ℕ → ℕ → List Kline → List Range → Exec String W Coverage
  cover_missing r start end klines missing =
      if is_nil missing
      then pure (covering klines [] false)
      else if not r.allow_download || not env.has_exchange
      then pure (
          if r.allow_incomplete_coverage
          then covering klines [] true
          else failed "coverage_incomplete"
              "dataset coverage is incomplete and downloading is disabled")
      else if exceeds missing r.max_download_ranges
      then pure
          (failed "download_budget_exceeded" (budget_text (length missing) r.max_download_ranges))
      else download_all r.symbol_interval klines missing >>= λ failing.
          downloaded r start end failing

  unfoldable pub cover : Request → ℕ → ℕ → Option ℕ → Option Range → Exec String W Coverage
  cover r start end first cached =
      env.get_klines (symbol_interval_name r.symbol_interval) start end >>= λ klines.
      cover_missing r start end klines (missing_before r start end first cached klines)

  abbrev pub file_matches : Option String → List Kline → W → Bool
  file_matches none klines w = false
  file_matches (some path) klines w = is_file_of klines (env.count_csv_data_rows path w)

  abbrev pub materialize : Option String → List Kline → Exec String W Unit
  materialize none klines = pure tt
  materialize (some path) klines = env.materialize_cache path klines

  -- from the coverage to the result
  unfoldable pub finish : DatasetRef → Coverage → Exec String W DatasetPreparationResult
  finish ref (failed reason message) w = (ok (failure_of ref.dataset_key reason message), w)
  finish ref (covering klines missing relaxed) w =
      if is_nil missing && not relaxed && file_matches ref.path klines w
      then (ok (ok_result ref true), w)
      else if is_nil klines
      then (ok (failure_of ref.dataset_key "no_data" "no kline data available for dataset"), w)
      else (materialize ref.path klines >> pure (ok_result ref false)) w
