-- ===== src/Task/Dataset/Env.antt =====
-- What `DatasetResolver` of task/dataset_resolver.py works with: requests, results, the availability
-- store, and what is outside the repository. The database, the exchange, the downloads and the files
-- are parameters.
use Prim.Native.Nat.{ℕ}
use chainer_trader.Prelude.{
  Bool, false, not, Option, none, some, List, String, Result, ok, err, from_option, is_none,
}
use chainer_trader.Prelude.Exec.{Exec, pure, ◌>>◌}
use chainer_trader.Prelude.Text.{join}
use chainer_trader.Prelude.Text.Show.{show_nat}
use chainer_trader.Common.Interval.{
  SymbolInterval, symbol_name, symbol_interval_name, interval_value,
}
use chainer_trader.Database.Availability.{Key}
use chainer_trader.Task.Dataset.{Range, Kline}

pub record DatasetRef : Type 0 where
  pub dataset_key : String
  pub symbol : String
  pub interval : String
  pub start_time : ℕ
  pub end_time : ℕ
  pub source_type : String
  pub path : Option String

pub record DatasetPreparationFailure : Type 0 where
  pub dataset_key : String
  pub reason : String
  pub message : String

pub record DatasetPreparationResult : Type 0 where
  pub is_ok : Bool
  pub dataset_ref : Option DatasetRef
  pub failure : Option DatasetPreparationFailure
  pub cache_hit : Bool

-- What a range is downloaded with.
pub data Downloader : Type 0 where
  download_range : Downloader
  download_range_backward : Downloader
  custom_downloader : Downloader

-- The methods of an availability store, each of which may be missing.
pub record Store (W : Type 0) : Type 0 where
  pub get_earliest_known_open_time : Option (Key → Exec String W (Option ℕ))
  pub get_cached_open_time_range : Option (Key → Exec String W (Option Range))
  pub update_cached_open_time_range : Option (Key → ℕ → ℕ → String → Exec String W Bool)

pub record Env (W : Type 0) : Type 0 where
  pub has_db_manager : Bool
  pub has_klines : Bool
  pub availability : Option (Store W)
  pub has_exchange : Bool
  -- `exchange.name()`, if there is an exchange with that method
  pub exchange_name : Option String
  pub earliest_archive : Option (SymbolInterval → Exec String W (Option ℕ))
  pub has_custom_downloader : Bool
  pub cache_dir : Option String
  -- `int(time.time())`
  pub now : ℕ
  pub get_klines : String → ℕ → ℕ → Exec String W (List Kline)
  pub download : Downloader → SymbolInterval → ℕ → ℕ → Exec String W Bool
  -- the rows of the file at a path, if it is there and can be read
  pub count_csv_data_rows : String → W → Option ℕ
  pub materialize_cache : String → List Kline → Exec String W Unit

pub record Request : Type 0 where
  pub symbol_interval : SymbolInterval
  pub start_time : ℕ
  pub end_time : ℕ
  pub allow_download : Bool
  pub max_download_ranges : Option ℕ
  pub allow_incomplete_coverage : Bool

unfoldable pub build_dataset_key : SymbolInterval → ℕ → ℕ → String
build_dataset_key si start end =
    join (symbol_interval_name si) (join "|" (join (show_nat start) (join "|" (show_nat end))))

abbrev pub file_name : SymbolInterval → ℕ → ℕ → String
file_name si start end = join (symbol_name si.sy) (
    join "-" (
      join (interval_value si.interval)
        (join "-" (join (show_nat start) (join "-" (join (show_nat end) ".csv"))))))

abbrev pub path_in : Option String → String → Option String
path_in none name = none
path_in (some dir) name = some (join dir (join "/" name))

unfoldable pub build_dataset_ref : Option String → SymbolInterval → ℕ → ℕ → DatasetRef
unfolding build_dataset_key
build_dataset_ref cache_dir si start end = record {
  dataset_key = build_dataset_key si start end;
  symbol = symbol_name si.sy;
  interval = interval_value si.interval;
  start_time = start;
  end_time = end;
  source_type = "db";
  path = path_in cache_dir (file_name si start end);
}

abbrev pub failure_of : String → String → String → DatasetPreparationResult
failure_of key reason message = record {
  is_ok = false;
  dataset_ref = none;
  failure = some (record { dataset_key = key; reason = reason; message = message });
  cache_hit = false;
}

module _ {W : Type 0} (env : Env W) where
  abbrev pub key_of : SymbolInterval → Key
  key_of si = record {
    exchange = from_option "UNKNOWN" env.exchange_name;
    symbol = symbol_name si.sy;
    interval = interval_value si.interval;
  }

  -- a method of the store, if both are there
  abbrev pub method : {A : Type 0} → (Store W → Option A) → Option A
  method f = elim env.availability [ none ↦ none | some s ↦ f s ]

  abbrev pub asked :
      {A : Type 0}
      → Option (Key → Exec String W (Option A))
      → SymbolInterval
      → Exec String W (Option A)
  asked none si = pure none
  asked (some f) si = f (key_of si)

  unfoldable pub get_first_available_open_time : SymbolInterval → Exec String W (Option ℕ)
  get_first_available_open_time si = asked (method (λ s. s.get_earliest_known_open_time)) si

  unfoldable pub supports_cached_open_time_range : Bool
  supports_cached_open_time_range = not (is_none (method (λ s. s.get_cached_open_time_range)))

  unfoldable pub get_cached_open_time_range : SymbolInterval → Exec String W (Option Range)
  get_cached_open_time_range si = asked (method (λ s. s.get_cached_open_time_range)) si

  abbrev pub updated :
      Option (Key → ℕ → ℕ → String → Exec String W Bool)
      → SymbolInterval
      → ℕ
      → ℕ
      → Exec String W Unit
  updated none si start end = pure tt
  updated (some f) si start end = f (key_of si) start end "dataset_resolver" >> pure tt

  unfoldable pub update_cached_open_time_range : SymbolInterval → ℕ → ℕ → Exec String W Unit
  update_cached_open_time_range si start end =
      updated (method (λ s. s.update_cached_open_time_range)) si start end

  -- an error is only logged
  abbrev pub or_no_answer :
      {A : Type 0} → Result String (Option A) × W → Result String (Option A) × W
  or_no_answer (ok a, w) = (ok a, w)
  or_no_answer (err e, w) = (ok none, w)

  abbrev pub archive_of :
      Option (SymbolInterval → Exec String W (Option ℕ)) → SymbolInterval → Exec String W (Option ℕ)
  archive_of none si w = (ok none, w)
  archive_of (some lookup) si w = or_no_answer (lookup si w)

  unfoldable pub get_daily_archive_start_time : SymbolInterval → Exec String W (Option ℕ)
  get_daily_archive_start_time si = archive_of env.earliest_archive si
