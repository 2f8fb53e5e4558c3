-- ===== src/Task/Dataset/Gaps.antt =====
-- What the resolver reports around a cached range, and what the cached range hides.
use Prim.Native.Nat.{ℕ, ◌+◌, ◌≤◌, ◌<◌}
use chainer_trader.Prelude.{
  ◌≡◌, ap, ◌∙◌, not, ◌&&◌, Option, none, some, List, [], ◌∷◌, All, ◌⊎◌, leb, String, ok, arith,
}
use chainer_trader.Database.Availability.{Key, Table, range_of, get_cached_open_time_range}
use chainer_trader.Database.Availability.Window.{
  TableLaws, Window, Call, cached_range, run, replay, window_of, key_eq_iff,
}
use chainer_trader.Database.Availability.Replayed.{AreRows, run_refines_window}
use chainer_trader.Task.Dataset.{Range, detect_uncached_ranges, covered}

-- Every range that is to be downloaded lies in the request, and has its ends in order.
pub detect_uncached_ranges_inside :
    (step start end : ℕ) (cached : Option Range)
    → All
        (λ r. (start ≤ r.0) × (r.0 ≤ r.1) × (r.1 ≤ end))
        (detect_uncached_ranges step start end cached)
unfolding detect_uncached_ranges
detect_uncached_ranges_inside step start end none = ground arith
detect_uncached_ranges_inside step start end (some (a, b)) = ground arith

-- A requested time that is at least a step from the cached range, or in it, is reported if and only
-- if it is not in it.
pub detect_uncached_ranges_exact :
    (step start end a b t : ℕ)
    → 1 ≤ step
    → start ≤ t
    → t ≤ end
    → a ≤ b
    → (t + step ≤ a) ⊎ (a ≤ t)
    → (t ≤ b) ⊎ (b + step ≤ t)
    → covered t (detect_uncached_ranges step start end (some (a, b))) ≡ not (leb a t && leb t b)
unfolding detect_uncached_ranges
detect_uncached_ranges_exact step start end a b t p q r s lo hi = ground arith

-- Nothing in the cached range is reported.
cached_is_complete :
    (step start end a b : ℕ)
    → a ≤ start
    → end ≤ b
    → detect_uncached_ranges step start end (some (a, b)) ≡ []
unfolding detect_uncached_ranges
cached_is_complete step start end a b p q = ground arith

-- The calls that record two ranges of a market.
abbrev pub two_ranges : Key → Range → Range → ℕ → String → List Call
two_ranges j (a, b) (c, d) now source =
    cached_range j a b now source ∷ cached_range j c d now source ∷ []

two_ranges-hull :
    (j : Key) (a b c d now : ℕ) (source : String) (w : Window)
    → w.cached ≡ none
    → a ≤ b
    → b < c
    → c ≤ d
    → (replay j (two_ranges j (a, b) (c, d) now source) w).cached ≡ some (a, d)
two_ranges-hull j a b c d now source w e p q r = ground (arith, key_eq_iff j j)

-- Once two ranges of a market have been recorded, the time between them counts as cached: of a
-- request for it, nothing is reported as uncached.
pub gap_is_hidden :
    {T : Type 0} (db : Table T) (laws : TableLaws db) (j : Key) (a b c d now step start end : ℕ)
    (source : String) (t : T)
    → AreRows db laws t
    → laws.row j t ≡ none
    → a ≤ b
    → b < start
    → start ≤ end
    → end < c
    → c ≤ d
    → (get_cached_open_time_range db j (run db (two_ranges j (a, b) (c, d) now source) t)
        ≡ ok (some (a, d)))
      × (detect_uncached_ranges step start end (some (a, d)) ≡ [])
gap_is_hidden db laws j a b c d now step start end source t h e p q r s u = (
  (run_refines_window db laws j (two_ranges j (a, b) (c, d) now source) t h).0
      ∙ ap ok (
          two_ranges-hull j a b c d now source (window_of (laws.row j t)) (ap range_of e) p
            (omega arith) u),
  cached_is_complete step start end a d (omega arith) (omega arith),
)
