-- ===== src/Strategy/Engine.antt =====
-- `TradeLifecycleEngine` of strategy/lifecycle.py. A method that writes to its context returns the
-- context as it leaves it.
pub mod Priced
pub mod Steps
use chainer_trader.Prelude.{
  ℕ, Bool, true, false, Option, none, some, String, Result, ok, err, or_else, from_option,
  if◌then◌else◌,
}
use chainer_trader.Prelude.Int.{ℤ, pos}
use chainer_trader.Prelude.Float.{Float}
use chainer_trader.Prelude.Text.{str_eq}
use chainer_trader.Execution.Payload.{Fields}
use chainer_trader.Strategy.Context.{TradeStatus, KlineRef, ExitReason, TradeContext}

-- The keyword arguments of `create_trade`.
pub record TradeArgs (F : Type 0) : Type 0 where
  pub trade_id : ℕ
  pub key : String
  pub direction : String
  pub entry_key_bar_index : ℤ
  pub key_kline_ref : KlineRef F
  pub stoploss_atr_mult : F
  pub entry_need_confirm : Bool
  pub exit_need_confirm : Bool
  pub enable_breakeven : Bool
  pub risk_reward_ratio : F
  pub trailing_stop_ratio : F
  pub signal_metadata : Fields F

-- The keyword arguments of `request_exit`.
pub record ExitArgs (F : Type 0) : Type 0 where
  pub exit_key_bar_index : ℤ
  pub exit_key_ref : KlineRef F
  pub exit_need_confirm : Bool
  pub reason_code : String
  pub reason_label : String
  pub reason_detail : Option String

module _ {F O : Type 0} ⦃fl : Float F⦄ where
  -- `create_trade`
  unfoldable pub create_trade : TradeArgs F → TradeContext F O
  create_trade a = record {
    trade_id = a.trade_id;
    key = a.key;
    direction = a.direction;
    order = none;
    entry_key_bar_index = a.entry_key_bar_index;
    key_kline_ref = a.key_kline_ref;
    stoploss_atr_mult = a.stoploss_atr_mult;
    status =
        if a.entry_need_confirm then TradeStatus.pending_entry_confirm else TradeStatus.opening;
    entry_need_confirm = a.entry_need_confirm;
    exit_need_confirm = a.exit_need_confirm;
    enable_breakeven = a.enable_breakeven;
    risk_reward_ratio = a.risk_reward_ratio;
    entry_price = none;
    exit_price = none;
    exit_value = none;
    tp_price = none;
    signal_metadata = a.signal_metadata;
    initial_stop_price = none;
    stop_price = none;
    breakeven_step = pos 0;
    trailing_stop_ratio = a.trailing_stop_ratio;
    trailing_best_price = none;
    trailing_stop_price = none;
    trailing_update_count = 0;
    trailing_peak_confirmed = false;
    stop_source = "initial";
    entry_key_banned = false;
    exit_key_banned = false;
    exit_key_bar_index = none;
    exit_key_kline_ref = none;
    cancel_reason = none;
    stop_order = none;
    tp_order = none;
    pending_exit_reason = none;
    requested_exit_reason_code = none;
    requested_exit_reason_label = none;
    requested_exit_reason_detail = none;
    exit_reason_code = none;
    exit_reason_label = none;
    exit_reason_detail = none;
    replacement_trade_id = none;
    stop_multiple_r = none;
    exit_risk_reward_ratio = none;
  }

module _ {F : Type 0} ⦃fl : Float F⦄ where
  -- `calculate_stop_multiple_r`, from the prices that it takes
  stop_multiple : String → F → F → F → Option F
  stop_multiple direction entry_price initial_stop_price active_stop_price =
      let is_long = str_eq direction "LONG" in
      let risk =
        if is_long
        then fl.sub entry_price initial_stop_price
        else fl.sub initial_stop_price entry_price in
      let multiple =
        if is_long
        then fl.div (fl.sub active_stop_price entry_price) risk
        else fl.div (fl.sub entry_price active_stop_price) risk in
      if fl.le risk fl.zero_f then none else some (fl.round4 multiple)

module _ {F O : Type 0} where
  -- `set_pending_exit_reason`
  unfoldable pub set_pending_exit_reason : ExitReason F → TradeContext F O → TradeContext F O
  set_pending_exit_reason r c = record c {
    pending_exit_reason = some r;
    requested_exit_reason_code = some r.code;
    requested_exit_reason_label = some r.label;
    requested_exit_reason_detail = r.detail;
  }

  -- `finalize_exit_reason`
  unfoldable pub finalize_exit_reason : ExitReason F → TradeContext F O → TradeContext F O
  finalize_exit_reason r c = record c {
    exit_reason_code = some r.code;
    exit_reason_label = some r.label;
    exit_reason_detail = r.detail;
    stop_multiple_r = r.stop_multiple_r;
    exit_risk_reward_ratio = r.risk_reward_ratio;
    pending_exit_reason = none;
    requested_exit_reason_code = none;
    requested_exit_reason_label = none;
    requested_exit_reason_detail = none;
  }

  -- `cancel_entry`
  pub cancel_entry : String → TradeContext F O → TradeContext F O
  cancel_entry reason c = record c { status = TradeStatus.cancelled; cancel_reason = some reason }

  -- `mark_entry_opening`
  unfoldable pub mark_entry_opening : Option O → TradeContext F O → TradeContext F O
  mark_entry_opening order c = record c { order = order; status = TradeStatus.opening }

  -- `mark_entry_filled`
  unfoldable pub mark_entry_filled : F → F → TradeContext F O → TradeContext F O
  mark_entry_filled price fallback_stop_price c =
      let initial = from_option fallback_stop_price c.initial_stop_price in
      record c {
        entry_price = some price;
        status = TradeStatus.active;
        initial_stop_price = some initial;
        stop_price = some (from_option initial c.stop_price);
        breakeven_step = pos 0;
        trailing_best_price = some price;
      }

  -- `request_exit`
  unfoldable pub request_exit : ExitArgs F → TradeContext F O → TradeContext F O
  unfolding set_pending_exit_reason
  request_exit a c =
      let asked = record c {
        exit_need_confirm = a.exit_need_confirm;
        exit_key_bar_index = some a.exit_key_bar_index;
        exit_key_kline_ref = some a.exit_key_ref;
      } in
      let pending =
        set_pending_exit_reason
          (record {
            code = a.reason_code;
            label = a.reason_label;
            detail = a.reason_detail;
            stop_multiple_r = none;
            risk_reward_ratio = none;
          })
          asked in
      record pending {
        exit_reason_code = or_else pending.exit_reason_code (some a.reason_code);
        exit_reason_label = or_else pending.exit_reason_label (some a.reason_label);
        exit_reason_detail = or_else pending.exit_reason_detail a.reason_detail;
        status = if a.exit_need_confirm then TradeStatus.pending_exit_confirm else pending.status;
      }

  -- `mark_exit_closing`
  unfoldable pub mark_exit_closing : Option O → TradeContext F O → TradeContext F O
  mark_exit_closing order c = record c { order = order; status = TradeStatus.closing }

  -- `mark_exit_confirm_failed`
  pub mark_exit_confirm_failed : TradeContext F O → TradeContext F O
  mark_exit_confirm_failed c = record c {
    status = TradeStatus.active;
    exit_key_banned = true;
    pending_exit_reason = none;
    requested_exit_reason_code = none;
    requested_exit_reason_label = none;
    requested_exit_reason_detail = none;
  }

  -- `mark_exit_filled`
  unfoldable pub mark_exit_filled : F → Option F → TradeContext F O → TradeContext F O
  mark_exit_filled price value c = record c {
    exit_price = some price;
    exit_value = value;
    status = TradeStatus.closed;
  }

  -- `mark_entry_failed`
  pub mark_entry_failed : String → TradeContext F O → TradeContext F O
  mark_entry_failed reason c = record c {
    status = TradeStatus.cancelled;
    cancel_reason = some reason;
    order = none;
  }

  -- `mark_exit_failed`
  pub mark_exit_failed : TradeContext F O → TradeContext F O
  mark_exit_failed c = record c { status = TradeStatus.active; order = none }

-- `float(None)`
pub data PriceError : Type 0 where
  no_stop_price : PriceError

module _ {F : Type 0} ⦃fl : Float F⦄ where
  abbrev multiple_at : String → Option F → Option F → Option F → Result PriceError (Option F)
  multiple_at direction (some entry) (some initial) (some stop) =
      ok (stop_multiple direction entry initial stop)
  multiple_at direction (some entry) (some initial) none = err no_stop_price
  multiple_at direction (some entry) none stop = ok none
  multiple_at direction none initial stop = ok none

module _ {F O : Type 0} ⦃fl : Float F⦄ where
  -- `calculate_stop_multiple_r`
  unfoldable calculate_stop_multiple_r : TradeContext F O → Option F → Result PriceError (Option F)
  unfolding stop_multiple
  calculate_stop_multiple_r c stop_price =
      multiple_at c.direction c.entry_price c.initial_stop_price (or_else stop_price c.stop_price)
