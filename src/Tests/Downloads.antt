-- ===== src/Tests/Downloads.antt =====
-- The theorems on datasets and downloads at concrete inputs.
use Prim.Native.Nat.{ℕ}
use chainer_trader.Prelude.{
  ◌≡◌, refl, inl, inr, true, false, none, some, List, [], ◌∷◌, ok, Returns, is_some, arith,
}
use chainer_trader.Prelude.Int.{◌-ℤ◌}
use chainer_trader.Common.Interval.{Interval, SymbolInterval, make_symbol_interval}
use chainer_trader.Task.Dataset.{
  Kline, detect_missing_ranges, expected_range, covered, detect_uncached_ranges,
  aligned_expected_range, reference_open_time, missing_between, scan, scan_step, opens_at,
}
use chainer_trader.Task.Dataset.Covered.{detect_missing_ranges_exact}
use chainer_trader.Task.Dataset.Gaps.{detect_uncached_ranges_exact}
use chainer_trader.Task.Dataset.Env.{
  Env, Request, DatasetPreparationResult, supports_cached_open_time_range, failure_of,
}
use chainer_trader.Task.Dataset.Cover.{cover}
use chainer_trader.Task.Dataset.Cover.Complete.{IsCovered, cover-IsCovered}
use chainer_trader.Task.Dataset.Prepare.{find_prepared}
use chainer_trader.Task.Dataset.Prepare.Kept.{prepare_all, prepare_all-keeps}
use chainer_trader.Task.UpdateKlines.{Source, download_range, download_range_backward}
use chainer_trader.Task.UpdateKlines.Ends.{enough, downloads_end}
use chainer_trader.Task.UpdateKlines.Planned.{
  normal_plan, is_expected, is_planned, normal_plan_exact,
}

abbrev kline_at : ℕ → Kline
kline_at t = record { open_time = t; close_time = t }

-- minutes 0, 2 and 5 of six
abbrev some_klines : List Kline
some_klines = kline_at 0 ∷ kline_at 120 ∷ kline_at 300 ∷ []

some_klines_range : expected_range 60 0 300 some_klines none ≡ some (0, 300)
unfolding expected_range aligned_expected_range reference_open_time ◌-ℤ◌
some_klines_range = refl

some_klines_missing : detect_missing_ranges 60 0 300 some_klines none ≡ ((60, 60) ∷ (180, 240) ∷ [])
unfolding detect_missing_ranges expected_range aligned_expected_range reference_open_time
    missing_between scan scan_step opens_at ◌-ℤ◌
some_klines_missing = refl

detect_missing_ranges_exact_example :
    covered 240 (detect_missing_ranges 60 0 300 some_klines none) ≡ true
detect_missing_ranges_exact_example =
    detect_missing_ranges_exact 60 0 300 0 300 4 some_klines none (omega arith) some_klines_range
      (omega arith)

detect_uncached_ranges_exact_example :
    covered 3 (detect_uncached_ranges 1 2 30 (some (5, 20))) ≡ true
detect_uncached_ranges_exact_example =
    detect_uncached_ranges_exact 1 2 30 5 20 3 (omega arith) (omega arith) (omega arith)
      (omega arith) (inl (omega arith)) (inl (omega arith))

-- The world is the list of the stored klines; a download stores the first time of its range.
abbrev test_env : Env (List Kline)
test_env = record {
  has_db_manager = true;
  has_klines = true;
  availability = none;
  has_exchange = true;
  exchange_name = some "BINANCE";
  earliest_archive = none;
  has_custom_downloader = false;
  cache_dir = none;
  now = 100000;
  get_klines = λ name start end w. (ok w, w);
  download = λ d si start end w. (ok true, kline_at start ∷ w);
  count_csv_data_rows = λ path w. none;
  materialize_cache = λ path klines w. (ok tt, w);
}

abbrev btc_daily : SymbolInterval
btc_daily = make_symbol_interval "BTC-USDT" Interval.interval_1d

abbrev test_request : Request
test_request = record {
  symbol_interval = btc_daily;
  start_time = 0;
  end_time = 86400;
  allow_download = true;
  max_download_ranges = none;
  allow_incomplete_coverage = false;
}

no_store : supports_cached_open_time_range test_env ≡ false
unfolding supports_cached_open_time_range
no_store = refl

cover-IsCovered_example :
    Returns
      (IsCovered test_env test_request 0 86400 none)
      (cover test_env test_request 0 86400 none none []).0
cover-IsCovered_example = cover-IsCovered test_env test_request 0 86400 none no_store refl none []

abbrev kept_result : DatasetPreparationResult
kept_result = failure_of "k" "no_data" "no kline data available for dataset"

prepare_all-keeps_example :
    find_prepared "k"
      (prepare_all test_env
        (test_request ∷ test_request ∷ [])
        (record { prepared = ("k", kept_result) ∷ []; world = [] })).prepared
    ≡ some kept_result
prepare_all-keeps_example =
    prepare_all-keeps test_env (test_request ∷ test_request ∷ [])
      (record { prepared = ("k", kept_result) ∷ []; world = [] }) "k" kept_result refl

-- An exchange that answers one kline at a time, of the time that it is asked for.
abbrev test_source : Source (List Kline)
test_source = record {
  limit_max = 1000;
  is_quit = λ w. false;
  get_klines = λ start end limit w. (ok (some (kline_at start ∷ [])), w);
  get_klines_by_end = none;
  add_klines = λ ks w. (ok 1, ks);
  update_cached_open_time_range = λ start end source w. (ok tt, w);
  update_earliest_known_open_time = λ t w. (ok tt, w);
}

downloads_end_example :
    Returns
      (λ o. is_some o ≡ true)
      (download_range test_source Interval.interval_1s 5 7 (enough 5 7) []).0
    × Returns
        (λ o. is_some o ≡ true)
        (download_range_backward test_source Interval.interval_1s 5 7 (enough 5 7) []).0
downloads_end_example =
    downloads_end test_source Interval.interval_1s 5 7 (enough 5 7) [] (omega arith)

normal_plan_exact_example :
    (is_expected (normal_plan 1 2 30 (some (5, 20))) ≡ true)
    × (is_planned 25 (normal_plan 1 2 30 (some (5, 20))) ≡ true)
normal_plan_exact_example =
    normal_plan_exact 1 2 30 5 20 25 (omega arith) (omega arith) (omega arith) (omega arith)
      (inr (omega arith)) (inr (omega arith))
