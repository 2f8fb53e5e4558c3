-- ===== src/Task/UpdateKlines/Planned.antt =====
-- What an update of a market's klines downloads: `_determine_time_range` and `_handle_normal_update` of
-- task/update_klines_task.py.
use Prim.Native.Nat.{ℕ, ◌+◌, ◌≤◌}
use chainer_trader.Prelude.{
  ◌≡◌, Bool, true, false, not, ◌&&◌, ◌||◌, Option, none, some, String, ◌⊎◌, ltb, leb, if◌then◌else◌,
  arith,
}
use chainer_trader.Prelude.Exec.{Exec, pure, gets, ◌>>=◌, ◌>>◌}
use chainer_trader.Prelude.Int.{ℤ, pos, leb_ℤ, ltb_ℤ, ◌-ℤ◌, ◌*ℤ◌}
use chainer_trader.Common.Interval.{Interval, get_time_duration}
use chainer_trader.Task.Dataset.{Range, inside}
use chainer_trader.Task.UpdateKlines.{Source, download_range, one_before}

-- The times of the task's settings, the oldest time of the exchange, and now.
unfoldable pub determine_time_range : Interval → ℤ → ℤ → ℤ → ℕ → ℕ → ℤ × ℤ
determine_time_range interval start end limit oldest now =
    let start1 = if leb_ℤ start (pos 0) then pos oldest else start in
    let end1 = if leb_ℤ end (pos 0) then pos now else end in
    (
      if ltb_ℤ (pos 0) limit then end1 -ℤ (pos (get_time_duration interval) *ℤ limit) else start1,
      end1,
    )

-- What the cases of `_handle_normal_update` download; a range whose end would be before time 0 is
-- left out, since `download_range` does nothing for it.
pub data Plan : Type 0 where
  skip : Plan
  one_range : Option Range → Plan
  -- two ranges, with a look at the event between them
  two_ranges : Option Range → Range → Plan
  unexpected : Plan

-- `[start, db_first)`
abbrev up_to : ℕ → ℕ → Option ℕ → Option Range
up_to step start none = none
up_to step start (some e) = some (start, e)

abbrev planned_around : ℕ → ℕ → ℕ → ℕ → ℕ → Plan
planned_around step start end db_first db_last =
    if ltb end db_first
    then one_range (some (start, end))
    else if ltb start db_first && leb db_first end && leb end db_last
    then one_range (up_to step start (one_before step db_first))
    else if leb db_first start && leb end db_last
    then skip
    else if leb db_first start && ltb db_last end
    then one_range (some (db_last + step, end))
    else if ltb start db_first && ltb db_last end
    then two_ranges (up_to step start (one_before step db_first)) (db_last + step, end)
    else unexpected

-- the open times of the first and the last kline of the table, if there are any
unfoldable pub normal_plan : ℕ → ℕ → ℕ → Option Range → Plan
normal_plan step start end none = one_range (some (start, end))
normal_plan step start end (some (db_first, db_last)) =
    planned_around step start end db_first db_last

module _ {W : Type 0} (src : Source W) (interval : Interval) (fuel : ℕ) where
  abbrev download : Option Range → Exec String W (Unit {0})
  download none = pure tt
  download (some (a, b)) = download_range src interval a b fuel >> pure tt

  abbrev run_plan : Plan → Exec String W (Unit {0})
  run_plan skip = pure tt
  run_plan (one_range r) = download r
  run_plan (two_ranges r q) =
      download r >> (gets src.is_quit >>= λ quit. if quit then pure tt else download (some q))
  run_plan unexpected = pure tt

  -- `_handle_normal_update`, from the first and the last kline
  unfoldable pub handle_normal_update : ℕ → ℕ → Option Range → Exec String W (Unit {0})
  unfolding normal_plan download_range
  handle_normal_update start end stored =
      run_plan (normal_plan (get_time_duration interval) start end stored)

abbrev pub in_range : ℕ → Option Range → Bool
in_range t none = false
in_range t (some r) = inside t r

-- whether a time lies in a range that is downloaded, if the event is not set
abbrev pub is_planned : ℕ → Plan → Bool
is_planned t skip = false
is_planned t (one_range r) = in_range t r
is_planned t (two_ranges r q) = in_range t r || inside t q
is_planned t unexpected = false

abbrev pub is_expected : Plan → Bool
is_expected skip = true
is_expected (one_range r) = true
is_expected (two_ranges r q) = true
is_expected unexpected = false

-- The cases are complete: the plan is never the unexpected one. And they are exact: a time of the
-- request that is at least a step from the stored range, or in it, is downloaded if and only if it is
-- not in the stored range.
pub normal_plan_exact :
    (step start end db_first db_last t : ℕ)
    → 1 ≤ step
    → db_first ≤ db_last
    → start ≤ t
    → t ≤ end
    → (t + step ≤ db_first) ⊎ (db_first ≤ t)
    → (t ≤ db_last) ⊎ (db_last + step ≤ t)
    → (is_expected (normal_plan step start end (some (db_first, db_last))) ≡ true)
      × (is_planned t (normal_plan step start end (some (db_first, db_last)))
          ≡ not (leb db_first t && leb t db_last))
unfolding normal_plan
normal_plan_exact step start end db_first db_last t p q r s lo hi = ground arith
