-- ===== src/Analysis/Drawdown.antt =====
-- `MaxDrawdownAnalyzer` of utils/operation_state.py. What it reads of the broker at a bar, the time,
-- the account's value and the size of the position, is a bar of the model.
pub mod HighWater
use chainer_trader.Prelude.{
  Bool, true, false, ◌&&◌, ◌||◌, Option, none, some, List, [], ◌∷◌, is_none, is_some, not,
  if◌then◌else◌,
}
use chainer_trader.Prelude.Int.{ℤ, pos, negsuc, eqb_ℤ}
use chainer_trader.Prelude.Float.{Float}

pub record Bar (F : Type 0) : Type 0 where
  pub time : ℤ
  pub equity : F
  pub position_size : F

pub record MaxDrawdown (F : Type 0) : Type 0 where
  pub peak_equity : F
  pub peak_time : Option ℤ
  pub max_dd : F
  pub max_dd_start : Option ℤ
  pub max_dd_end : Option ℤ
  pub active_peak_equity : Option F
  pub active_peak_time : Option ℤ
  pub active_position_sign : ℤ
  pub active_max_dd : F
  pub active_max_dd_start : Option ℤ
  pub active_max_dd_end : Option ℤ

module _ {F : Type 0} ⦃fl : Float F⦄ where
  -- `__init__` and `start`, from the broker's cash
  unfoldable pub start : F → MaxDrawdown F
  start cash = record {
    peak_equity = cash;
    peak_time = none;
    max_dd = fl.zero_f;
    max_dd_start = none;
    max_dd_end = none;
    active_peak_equity = none;
    active_peak_time = none;
    active_position_sign = pos 0;
    active_max_dd = fl.zero_f;
    active_max_dd_start = none;
    active_max_dd_end = none;
  }

  -- `(peak - equity) / peak * 100.0`
  unfoldable pub drawdown : F → F → F
  drawdown peak equity = fl.mul (fl.div (fl.sub peak equity) peak) (fl.of_int (pos 100))

  -- the first branch of `_update_full_drawdown`
  unfoldable pub first_peak : Bar F → MaxDrawdown F → MaxDrawdown F
  first_peak b s =
      if is_none s.peak_time
      then record s { peak_equity = b.equity; peak_time = some b.time }
      else s

  -- the rest of it
  unfoldable pub update_peak : Bar F → MaxDrawdown F → MaxDrawdown F
  update_peak b s =
      let dd = drawdown s.peak_equity b.equity in
      if fl.lt s.peak_equity b.equity
      then record s { peak_equity = b.equity; peak_time = some b.time }
      else if fl.lt fl.zero_f s.peak_equity && fl.lt s.max_dd dd
      then record s { max_dd = dd; max_dd_start = s.peak_time; max_dd_end = some b.time }
      else s

  -- `_update_full_drawdown`
  unfoldable pub update_full_drawdown : Bar F → MaxDrawdown F → MaxDrawdown F
  update_full_drawdown b s = update_peak b (first_peak b s)

  -- `_position_sign`
  unfoldable pub position_sign : Bar F → ℤ
  position_sign b =
      if fl.lt fl.zero_f b.position_size
      then pos 1
      else if fl.lt b.position_size fl.zero_f
      then negsuc 0
      else pos 0

  -- the comparison with the active peak
  unfoldable pub against_active_peak : Bar F → Option F → MaxDrawdown F → MaxDrawdown F
  against_active_peak b none s = s
  against_active_peak b (some peak) s =
      let dd = drawdown peak b.equity in
      if fl.lt peak b.equity
      then record s { active_peak_equity = some b.equity; active_peak_time = some b.time }
      else if fl.lt fl.zero_f peak && fl.lt s.active_max_dd dd
      then record s {
        active_max_dd = dd;
        active_max_dd_start = s.active_peak_time;
        active_max_dd_end = some b.time;
      }
      else s

  -- `_update_active_drawdown`
  unfoldable pub update_active_drawdown : Bar F → MaxDrawdown F → MaxDrawdown F
  update_active_drawdown b s =
      let sign = position_sign b in
      if eqb_ℤ sign (pos 0)
      then record s {
        active_peak_equity = none;
        active_peak_time = none;
        active_position_sign = pos 0;
      }
      else if is_none s.active_peak_time || not (eqb_ℤ s.active_position_sign sign)
      then record s {
        active_peak_equity = some b.equity;
        active_peak_time = some b.time;
        active_position_sign = sign;
      }
      else against_active_peak b s.active_peak_equity s

  -- `next`
  unfoldable pub next : Bar F → MaxDrawdown F → MaxDrawdown F
  next b s = update_active_drawdown b (update_full_drawdown b s)

  unfoldable pub run : List (Bar F) → MaxDrawdown F → MaxDrawdown F
  run [] s = s
  run (b ∷ bs) s = run bs (next b s)
