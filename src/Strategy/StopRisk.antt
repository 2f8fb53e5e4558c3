-- ===== src/Strategy/StopRisk.antt =====
-- `StrategyRiskEngine` of strategy/risk.py, and the price functions of libraries/chainer_trader.py
-- that it calls. A direction is the text LONG or another; `1e-10` is a parameter.
pub mod Tightens
use chainer_trader.Prelude.{
  Bool, true, false, not, ◌&&◌, ◌||◌, Option, none, some, String, Result, ok, err, from_option,
  if◌then◌else◌,
}
use chainer_trader.Prelude.Int.{ℤ, pos, ◌+ℤ◌, ◌-ℤ◌, leb_ℤ, ltb_ℤ}
use chainer_trader.Prelude.Float.{Float}
use chainer_trader.Prelude.Text.{str_eq, upper, strip}
use chainer_trader.Strategy.Context.{TradeContext}

-- `normalize_direction`, where `parsed` is whether `float(raw)` parses, and to a positive number
normalize_direction : (String → Option Bool) → String → String
unfolding strip upper
normalize_direction parsed direction = elim (parsed (strip direction)) [
  | some positive ↦ if positive then "LONG" else "SHORT"
  | none ↦ if str_eq (upper (strip direction)) "SHORT" then "SHORT" else "LONG"
]

pub record BreakevenAdjustment (F : Type 0) : Type 0 where
  pub old_stop : F
  pub new_stop : F
  pub step : ℤ

pub record TrailingStopAdjustment (F : Type 0) : Type 0 where
  pub old_stop : F
  pub new_stop : F
  pub best_price : F

-- What `float` and the interpreter give: whether a text parses as a positive number, 1e-10, and
-- whether a float is a NaN.
pub record Env (F : Type 0) : Type 0 where
  pub parsed : String → Option Bool
  pub eps : F
  pub is_nan : F → Bool

-- `max(a, b)`
abbrev max_ℤ : ℤ → ℤ → ℤ
max_ℤ a b = if ltb_ℤ a b then b else a

module _ {F : Type 0} ⦃fl : Float F⦄ where
  -- `risk_reward_price`
  risk_reward_price : Env F → String → F → F → F → Option F
  unfolding normalize_direction
  risk_reward_price env direction entry_price stop_price ratio =
      let is_long = str_eq (normalize_direction env.parsed direction) "LONG" in
      let risk = if is_long then fl.sub entry_price stop_price else fl.sub stop_price entry_price in
      let target =
        if is_long
        then fl.add entry_price (fl.mul ratio risk)
        else fl.sub entry_price (fl.mul ratio risk) in
      if fl.le ratio fl.zero_f then none else if fl.le risk fl.zero_f then none else some target

  -- `breakeven_price`
  pub breakeven_price : Env F → String → F → F → F → Option F
  unfolding normalize_direction
  breakeven_price env direction entry_price initial_stop close =
      let is_long = str_eq (normalize_direction env.parsed direction) "LONG" in
      let risk =
        if is_long then fl.sub entry_price initial_stop else fl.sub initial_stop entry_price in
      let profit = if is_long then fl.sub close entry_price else fl.sub entry_price close in
      let n = fl.floor (fl.add (fl.div profit risk) env.eps) in
      let steps = fl.mul (fl.of_int (n -ℤ pos 1)) risk in
      let price = if is_long then fl.add entry_price steps else fl.sub entry_price steps in
      if env.is_nan entry_price || (env.is_nan initial_stop || env.is_nan close)
      then none
      else if fl.le risk fl.zero_f
      then none
      else if leb_ℤ n (pos 0)
      then none
      else some price

  -- `stop_hit`
  unfoldable stop_hit : Env F → String → Option F → F → F → Bool
  unfolding normalize_direction
  stop_hit env direction none low high = false
  stop_hit env direction (some stop) low high =
      if env.is_nan stop
      then false
      else if str_eq (normalize_direction env.parsed direction) "LONG"
      then fl.le low stop
      else fl.le stop high

  -- `initial_stop_price`, from the suggested stop of the metadata
  unfoldable pub initial_stop_price : String → F → F → F → F → Option F → F
  unfolding upper
  initial_stop_price direction key_low key_high mult atr suggested =
      let is_long = str_eq (upper direction) "LONG" in
      let stop = from_option (if is_long then key_low else key_high) suggested in
      if fl.eqf mult fl.zero_f
      then stop
      else if is_long
      then fl.sub stop (fl.mul mult atr)
      else fl.add stop (fl.mul mult atr)

  abbrev target_of : Env F → String → F → Option F → Option F → Option F
  target_of env direction ratio (some entry) (some initial) =
      if fl.le ratio fl.zero_f then none else risk_reward_price env direction entry initial ratio
  target_of env direction ratio _ _ = none

  -- the rest of `breakeven_adjustment`, from the new stop that `breakeven_price` gives
  pub adjust : Env F → Bool → F → F → F → ℤ → Option F → Option (BreakevenAdjustment F)
  adjust env is_long entry risk stop step none = none
  adjust env is_long entry risk stop step (some new_stop) =
      let level =
        if is_long
        then fl.div (fl.sub new_stop entry) risk
        else fl.div (fl.sub entry new_stop) risk in
      if (if is_long then fl.lt stop new_stop else fl.lt new_stop stop)
      then some (record {
        old_stop = stop;
        new_stop = new_stop;
        step = max_ℤ step (fl.floor (fl.add level env.eps) +ℤ pos 1);
      })
      else none

  abbrev pub adjustment_of :
      Env F → String → ℤ → F → Option F → Option F → Option F → Option (BreakevenAdjustment F)
  adjustment_of env direction step close (some entry) (some stop) (some initial) =
      let is_long = str_eq direction "LONG" in
      let risk = if is_long then fl.sub entry initial else fl.sub initial entry in
      if fl.le risk fl.zero_f
      then none
      else adjust env is_long entry risk stop step
          (breakeven_price env direction entry initial close)
  adjustment_of env direction step close _ _ _ = none

  -- a candidate that does not lie beyond the entry price
  abbrev pub short_of_entry : Bool → F → Option F → Bool
  short_of_entry is_long candidate none = false
  short_of_entry true candidate (some entry) = fl.le candidate entry
  short_of_entry false candidate (some entry) = fl.le entry candidate

  abbrev pub trail_of :
      String → F → F → Option F → Option F → Option F → Option (TrailingStopAdjustment F)
  trail_of direction best ratio entry (some initial) (some stop) =
      let is_long = str_eq direction "LONG" in
      let candidate =
        if is_long
        then fl.add initial (fl.mul (fl.sub best initial) ratio)
        else fl.sub initial (fl.mul (fl.sub initial best) ratio) in
      if (if is_long then fl.le candidate stop else fl.le stop candidate)
        || short_of_entry is_long candidate entry
      then none
      else some (record { old_stop = stop; new_stop = candidate; best_price = best })
  trail_of direction best ratio entry _ _ = none

module _ {F O : Type 0} ⦃fl : Float F⦄ where
  -- `take_profit_price`
  unfoldable pub take_profit_price : Env F → TradeContext F O → Option F
  unfolding risk_reward_price
  take_profit_price env c =
      target_of env c.direction c.risk_reward_ratio c.entry_price c.initial_stop_price

  -- `breakeven_adjustment`
  unfoldable pub breakeven_adjustment :
      Env F → TradeContext F O → F → Option (BreakevenAdjustment F)
  unfolding adjust breakeven_price
  breakeven_adjustment env c close =
      if not c.enable_breakeven
      then none
      else adjustment_of env c.direction c.breakeven_step close c.entry_price c.stop_price
          c.initial_stop_price

  -- `trailing_stop_adjustment`
  unfoldable pub trailing_stop_adjustment :
      TradeContext F O → F → F → Option (TrailingStopAdjustment F)
  trailing_stop_adjustment c best ratio =
      if fl.le ratio fl.zero_f
      then none
      else trail_of c.direction best ratio c.entry_price c.initial_stop_price c.stop_price
