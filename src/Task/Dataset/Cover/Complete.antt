-- ===== src/Task/Dataset/Cover/Complete.antt =====
-- What the klines of a covered dataset are known to have.
use Prim.Native.Nat.{ℕ}
use chainer_trader.Prelude.{
  ◌⊎◌, inl, inr, ok, ◌≡◌, refl, Bool, true, false, not, ◌||◌, Option, none, some, List, [], ◌∷◌,
  String, Returns, Returns-ok, if◌then◌else◌, arith,
}
use chainer_trader.Prelude.Exec.{pure, ◌>>=◌, Returns-then, Returns-after, Returns-choice}
use chainer_trader.Common.Interval.{symbol_interval_name, get_time_duration}
use chainer_trader.Task.Dataset.{Range, Kline, detect_missing_ranges}
use chainer_trader.Task.Dataset.Env.{
  Env, Request, supports_cached_open_time_range, get_first_available_open_time,
}
use chainer_trader.Task.Dataset.Cover.{
  Coverage, failed, covering, is_nil, missing_before, missing_after, refilled, refill, downloaded,
  download_all, exceeds, cover_missing, cover,
}

module _ {W : Type 0} (env : Env W) (r : Request) (start end : ℕ) (first : Option ℕ) where
  -- The klines of the prepared range, as the database answers them at some moment.
  abbrev pub IsStored : List Kline → Type 0
  IsStored klines =
      (w : W) × ((env.get_klines (symbol_interval_name r.symbol_interval) start end w).0
        ≡ ok klines)

  -- With the first available time that was given, the detection finds nothing missing over the
  -- request, or over the prepared range.
  abbrev pub is_complete : List Kline → Bool
  is_complete klines =
      let step = get_time_duration r.symbol_interval.interval in
      is_nil (detect_missing_ranges step r.start_time r.end_time klines first)
      || is_nil (detect_missing_ranges step start end klines first)

  -- With the first available time that is found after the downloads, it finds nothing missing from the
  -- start that was prepared to the end of the request.
  pub record IsRefilled (klines : List Kline) : Type 0 where
    pub world : W
    pub available : Option ℕ
    pub found : (get_first_available_open_time env r.symbol_interval world).0 ≡ ok available
    pub complete :
        is_nil (
          detect_missing_ranges
            (get_time_duration r.symbol_interval.interval)
            start
            r.end_time
            klines
            available)
        ≡ true

  abbrev pub IsCovered : Coverage → Type 0
  IsCovered (failed reason message) = Unit
  IsCovered (covering klines missing relaxed) =
      (missing ≡ [])
      × (relaxed ≡ false)
      × IsStored klines
      × ((is_complete klines ≡ true) ⊎ IsRefilled klines)

  module _ (unsupported : supports_cached_open_time_range env ≡ false)
      (strict : r.allow_incomplete_coverage ≡ false) where
    refilled-IsCovered :
        (klines : List Kline) (missing : List Range)
        → IsStored klines
        → (is_nil missing ≡ true → IsRefilled klines)
        → IsCovered (refilled r klines missing)
    refilled-IsCovered klines [] s h = (refl, refl, s, inr (h refl))
    refilled-IsCovered klines (x ∷ xs) s h = rw strict tt

    refilled_after :
        (klines : List Kline) (available : Option ℕ) (w w2 : W)
        → IsStored klines
        → (get_first_available_open_time env r.symbol_interval w).0 ≡ ok available
        → Returns IsCovered
            ((missing_after env r start end klines available >>= λ missing.
                pure (refilled r klines missing))
              w2).0
    unfolding missing_after
    refilled_after klines available w w2 s e =
        let missing =
          detect_missing_ranges (get_time_duration r.symbol_interval.interval) start r.end_time
            klines available in
        rw unsupported (
          Returns-ok _ (
            refilled-IsCovered klines missing s
              λ h. record { world = w; available = available; found = e; complete = h }))

    refill-IsCovered : (w : W) → Returns IsCovered (refill env r start end w).0
    unfolding refill
    refill-IsCovered w =
        let si = r.symbol_interval in
        Returns-after {Q = IsStored} (env.get_klines (symbol_interval_name si) start end) _ w
          (record { at = λ klines e. (w, e) })
          λ klines w1 stored.
            Returns-after
              {Q = λ available.
                (v : W) × ((get_first_available_open_time env si v).0 ≡ ok available)}
              (get_first_available_open_time env si) _ w1 (record { at = λ available e. (w1, e) })
              λ available w2 found. refilled_after klines available found.0 w2 stored found.1

    missing_before_complete :
        (klines : List Kline) (cached : Option Range)
        → is_nil (missing_before env r start end first cached klines) ≡ true
        → is_complete klines ≡ true
    unfolding missing_before
    missing_before_complete klines cached = rw unsupported (λ e. ground arith)

    downloaded-IsCovered :
        (failing : Option Range) (w : W)
        → Returns IsCovered (downloaded env r start end failing w).0
    downloaded-IsCovered none w = refill-IsCovered w
    downloaded-IsCovered (some x) w = Returns-ok _ tt

    disallowed-IsCovered :
        (klines : List Kline) (message : String)
        → IsCovered (
            if r.allow_incomplete_coverage
            then covering klines [] true
            else failed "coverage_incomplete" message)
    disallowed-IsCovered klines message = rw strict tt

    cover_missing-IsCovered :
        (klines : List Kline) (missing : List Range) (w : W)
        → IsStored klines
        → (is_nil missing ≡ true → is_complete klines ≡ true)
        → Returns IsCovered (cover_missing env r start end klines missing w).0
    unfolding cover_missing
    cover_missing-IsCovered klines missing w s h =
        Returns-choice (is_nil missing) _ _ w (λ e. Returns-ok _ (refl, refl, s, inl (h e)))
          λ _.
            Returns-choice (not r.allow_download || not env.has_exchange) _ _ w
              (λ _. Returns-ok _ (disallowed-IsCovered klines _))
              λ _.
                Returns-choice (exceeds missing r.max_download_ranges) _ _ w (λ _. Returns-ok _ tt)
                  λ _.
                    Returns-then (download_all env r.symbol_interval klines missing) _ w
                      λ failing w1. downloaded-IsCovered failing w1

    -- Without a store of cached ranges, and when gaps are not allowed: a coverage that has klines has
    -- nothing missing and was not relaxed, its klines are the database's of the prepared range, and
    -- the detection finds nothing missing in them: over the request or over the prepared range by the
    -- first available time that was given, or, after downloads, to the end of the request by the one
    -- that is then found.
    pub cover-IsCovered :
        (cached : Option Range) (w : W) → Returns IsCovered (cover env r start end first cached w).0
    unfolding cover
    cover-IsCovered cached w =
        Returns-after {Q = IsStored}
          (env.get_klines (symbol_interval_name r.symbol_interval) start end) _ w
          (record { at = λ klines e. (w, e) })
          λ klines w1 stored.
            cover_missing-IsCovered klines (missing_before env r start end first cached klines) w1
              stored (missing_before_complete klines cached)
