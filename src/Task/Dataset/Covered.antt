-- ===== src/Task/Dataset/Covered.antt =====
-- The missing ranges are exact: an expected time lies in one if and only if no kline opens at it.
use Prim.Native.Nat.{ℕ, zero, suc, ◌+◌, ◌-◌, ◌*◌, ◌/◌, ◌≤◌, ◌<◌}
use native.Mathlib.Nat.{le-div_iff_mul-le}
use chainer_trader.Prelude.{
  ◌≡◌, refl, ap, ◌∙◌, Bool, true, false, not, ◌&&◌, ◌||◌, Option, none, some, List, [], ◌∷◌, ◌++◌,
  any, All, All-append, leb, ◌==◌, arith,
}
use chainer_trader.Task.Dataset.{
  Range, Kline, Scan, no_scan, scan, scan_step, appended, closed, opened, turns, opens_at,
  missing_between, missing_of, expected_range, detect_missing_ranges, covered,
}

covered-append : (t : ℕ) (rs qs : List Range) → covered t (rs ++ qs) ≡ covered t rs || covered t qs
covered-append t [] qs = refl
covered-append t (r ∷ rs) qs = ground (arith, covered-append t rs qs)

-- the ranges of a scan, the open one included
abbrev ranges : Scan → List Range
ranges s = appended s.missing_ranges s.current_start s.current_end

-- the ranges end before a time
abbrev EndBefore : ℕ → List Range → Type 0
EndBefore t rs = All (λ r. r.1 < t) rs

-- the open range, if there is one, ends one step before a time
abbrev is_open : ℕ → ℕ → Option ℕ → Option ℕ → Bool
is_open step t none none = true
is_open step t (some a) (some b) = leb a b && b + step == t
is_open step t _ _ = false

record IsBefore (step t : ℕ) (s : Scan) : Type 0 where
  ended : EndBefore t s.missing_ranges
  open_end : is_open step t s.current_start s.current_end ≡ true

not_covered : (t : ℕ) (rs : List Range) → EndBefore t rs → covered t rs ≡ false
not_covered t [] h = refl
not_covered t ((a, b) ∷ rs) h = ground (arith, not_covered t rs h.1)

later : (t u : ℕ) (rs : List Range) → t ≤ u → EndBefore t rs → EndBefore u rs
later t u [] p h = tt
later t u (r ∷ rs) p h = (omega (arith, h.0), later t u rs p h.1)

closed_at :
    (step t : ℕ) (rs : List Range) (a b : Option ℕ)
    → 1 ≤ step
    → EndBefore t rs
    → is_open step t a b ≡ true
    → IsBefore step (t + step) (closed rs a b)
closed_at step t rs none none p h o = record {
  ended = later t (t + step) rs (omega arith) h;
  open_end = refl;
}
closed_at step t rs none (some b) p h o = ground arith
closed_at step t rs (some a) none p h o = ground arith
closed_at step t rs (some a) (some b) p h o = record {
  ended =
      All-append (λ r. r.1 < t + step) rs ((a, b) ∷ []) (later t (t + step) rs (omega arith) h)
        (ground arith, tt);
  open_end = refl;
}

opened_at :
    (step t : ℕ) (a b : Option ℕ)
    → 1 ≤ step
    → is_open step t a b ≡ true
    → is_open step (t + step) (opened t a) (some t) ≡ true
opened_at step t none none p o = ground arith
opened_at step t none (some b) p o = ground arith
opened_at step t (some a) none p o = ground arith
opened_at step t (some a) (some b) p o = ground arith

scan_step-IsBefore :
    (step t : ℕ) (b : Bool) (s : Scan)
    → 1 ≤ step
    → IsBefore step t s
    → IsBefore step (t + step) (scan_step b t s)
unfolding scan_step
scan_step-IsBefore step t true s p h =
    closed_at step t s.missing_ranges s.current_start s.current_end p h.ended h.open_end
scan_step-IsBefore step t false s p h = record {
  ended = later t (t + step) s.missing_ranges (omega arith) h.ended;
  open_end = opened_at step t s.current_start s.current_end p h.open_end;
}

ranges-closed : (rs : List Range) (a b : Option ℕ) → ranges (closed rs a b) ≡ appended rs a b
ranges-closed rs none b = refl
ranges-closed rs (some a) none = refl
ranges-closed rs (some a) (some b) = refl

opened_past :
    (step t u : ℕ) (rs : List Range) (a b : Option ℕ)
    → 1 ≤ step
    → is_open step t a b ≡ true
    → u + step ≤ t
    → covered u (appended rs (opened t a) (some t)) ≡ covered u (appended rs a b)
opened_past step t u rs none none p o q = ground (arith, covered-append u rs ((t, t) ∷ []))
opened_past step t u rs none (some b) p o q = ground arith
opened_past step t u rs (some a) none p o q = ground arith
opened_past step t u rs (some a) (some b) p o q =
    ground (arith, covered-append u rs ((a, t) ∷ []), covered-append u rs ((a, b) ∷ []))

-- A turn leaves the earlier times as they are, and puts its own time in a range if no kline is there.
scan_step_past :
    (step t u : ℕ) (b : Bool) (s : Scan)
    → 1 ≤ step
    → IsBefore step t s
    → u + step ≤ t
    → covered u (ranges (scan_step b t s)) ≡ covered u (ranges s)
unfolding scan_step
scan_step_past step t u true s p h q =
    ap (covered u) (ranges-closed s.missing_ranges s.current_start s.current_end)
scan_step_past step t u false s p h q =
    opened_past step t u s.missing_ranges s.current_start s.current_end p h.open_end q

open_not_covered :
    (step t : ℕ) (rs : List Range) (a b : Option ℕ)
    → 1 ≤ step
    → EndBefore t rs
    → is_open step t a b ≡ true
    → covered t (appended rs a b) ≡ false
open_not_covered step t rs none b p h o = not_covered t rs h
open_not_covered step t rs (some a) none p h o = ground arith
open_not_covered step t rs (some a) (some b) p h o =
    ground (arith, covered-append t rs ((a, b) ∷ []), not_covered t rs h)

open_covered :
    (step t : ℕ) (rs : List Range) (a b : Option ℕ)
    → is_open step t a b ≡ true
    → covered t (appended rs (opened t a) (some t)) ≡ true
open_covered step t rs none b o = ground (arith, covered-append t rs ((t, t) ∷ []))
open_covered step t rs (some a) none o = ground arith
open_covered step t rs (some a) (some b) o = ground (arith, covered-append t rs ((a, t) ∷ []))

scan_step_here :
    (step t : ℕ) (b : Bool) (s : Scan)
    → 1 ≤ step
    → IsBefore step t s
    → covered t (ranges (scan_step b t s)) ≡ not b
unfolding scan_step
scan_step_here step t true s p h =
    ap (covered t) (ranges-closed s.missing_ranges s.current_start s.current_end)
    ∙ open_not_covered step t s.missing_ranges s.current_start s.current_end p h.ended h.open_end
scan_step_here step t false s p h =
    open_covered step t s.missing_ranges s.current_start s.current_end h.open_end

scan_past :
    (exists : ℕ → Bool) (step n t u : ℕ) (s : Scan)
    → 1 ≤ step
    → IsBefore step t s
    → u + step ≤ t
    → covered u (ranges (scan exists step n t s)) ≡ covered u (ranges s)
unfolding scan
scan_past exists step zero t u s p h q = refl
scan_past exists step (suc n) t u s p h q =
    scan_past exists step n (t + step) u (scan_step (exists t) t s) p
      (scan_step-IsBefore step t (exists t) s p h) (omega arith)
    ∙ scan_step_past step t u (exists t) s p h q

scan_covers :
    (exists : ℕ → Bool) (step n t i u : ℕ) (s : Scan)
    → 1 ≤ step
    → IsBefore step t s
    → i < n
    → u ≡ t + i * step
    → covered u (ranges (scan exists step n t s)) ≡ not (exists u)
unfolding scan
scan_covers exists step zero t i u s p h q e = ground arith
scan_covers exists step (suc n) t zero u s p h q e =
    let here : u ≡ t = omega (arith, e) in
    rw here (
      scan_past exists step n (t + step) t (scan_step (exists t) t s) p
        (scan_step-IsBefore step t (exists t) s p h) (omega arith)
      ∙ scan_step_here step t (exists t) s p h)
scan_covers exists step (suc n) t (suc i) u s p h q e =
    scan_covers exists step n (t + step) i u (scan_step (exists t) t s) p
      (scan_step-IsBefore step t (exists t) s p h) (omega arith) (omega (arith, e))

in_turns : (step i a b : ℕ) → 1 ≤ step → a + i * step ≤ b → i < turns (a, b) step
in_turns step i a b p h =
    let within : i ≤ (b - a) / step = (le-div_iff_mul-le {k = step} p).1 (omega (arith, h)) in
    ground arith

opens_at_inside :
    (ks : List Kline) (a b t : ℕ)
    → a ≤ t
    → t ≤ b
    → opens_at ks (a, b) t ≡ any (λ k. k.open_time == t) ks
unfolding opens_at
opens_at_inside [] a b t p q = refl
opens_at_inside (k ∷ ks) a b t p q = ground (arith, opens_at_inside ks a b t p q)

missing_between_exact :
    (ks : List Kline) (step a b i t : ℕ)
    → 1 ≤ step
    → t ≡ a + i * step
    → t ≤ b
    → covered t (missing_between ks step (a, b)) ≡ not (any (λ k. k.open_time == t) ks)
unfolding missing_between
missing_between_exact ks step a b i t p e q =
    scan_covers (opens_at ks (a, b)) step (turns (a, b) step) a i t no_scan p
      (record { ended = tt; open_end = refl }) (in_turns step i a b p (omega (arith, e))) e
    ∙ ap not (opens_at_inside ks a b t (omega (arith, e)) q)

missing_of_exact :
    (requested : Range) (ks : List Kline) (step a b i : ℕ)
    → 1 ≤ step
    → a + i * step ≤ b
    → covered (a + i * step) (missing_of requested ks step (some (a, b)))
      ≡ not (any (λ k. k.open_time == a + i * step) ks)
missing_of_exact requested [] step a b i p h = ground arith
missing_of_exact requested (k ∷ ks) step a b i p h =
    ground (arith, missing_between_exact (k ∷ ks) step a b i (a + i * step) p refl h)

-- A time of the expected range that is a whole number of steps from its start lies in a range that
-- `detect_missing_ranges` reports if and only if no kline opens at it.
pub detect_missing_ranges_exact :
    (step start end a b i : ℕ) (ks : List Kline) (first : Option ℕ)
    → 1 ≤ step
    → expected_range step start end ks first ≡ some (a, b)
    → a + i * step ≤ b
    → covered (a + i * step) (detect_missing_ranges step start end ks first)
      ≡ not (any (λ k. k.open_time == a + i * step) ks)
unfolding detect_missing_ranges
detect_missing_ranges_exact step start end a b i ks first p e h =
    ap (λ r. covered (a + i * step) (missing_of (start, end) ks step r)) e
    ∙ missing_of_exact (start, end) ks step a b i p h
