-- ===== src/Strategy/Context.antt =====
-- `TradeStatus`, `KlineRef`, `TradeContext` and `SignalSnapshot` of strategy/lifecycle.py.
-- A `datetime` is a number of microseconds, and `O` is the broker's type of orders.
use chainer_trader.Prelude.{ℕ, Bool, true, false, Option, String}
use chainer_trader.Prelude.Int.{ℤ}
use chainer_trader.Execution.Payload.{Fields}

pub data TradeStatus : Type 0 where
  pending_entry_confirm opening active pending_exit_confirm closing closed cancelled : TradeStatus

-- `TradeStatus.value`
abbrev pub trade_status_value : TradeStatus → String
trade_status_value TradeStatus.pending_entry_confirm = "pending_entry_confirm"
trade_status_value TradeStatus.opening = "opening"
trade_status_value TradeStatus.active = "active"
trade_status_value TradeStatus.pending_exit_confirm = "pending_exit_confirm"
trade_status_value TradeStatus.closing = "closing"
trade_status_value TradeStatus.closed = "closed"
trade_status_value TradeStatus.cancelled = "cancelled"

-- the statuses of `terminal_statuses`
abbrev pub is_over : TradeStatus → Bool
is_over TradeStatus.closed = true
is_over TradeStatus.cancelled = true
is_over _ = false

abbrev pub is_active : TradeStatus → Bool
is_active TradeStatus.active = true
is_active _ = false

pub record KlineRef (F : Type 0) : Type 0 where
  pub dt : ℤ
  pub high : F
  pub low : F

-- The dictionary that `pending_exit_reason` holds.
pub record ExitReason (F : Type 0) : Type 0 where
  pub code : String
  pub label : String
  pub detail : Option String
  pub stop_multiple_r : Option F
  pub risk_reward_ratio : Option F

pub record TradeContext (F O : Type 0) : Type 0 where
  pub trade_id : ℕ
  pub key : String
  pub direction : String
  pub order : Option O
  pub entry_key_bar_index : ℤ
  pub key_kline_ref : KlineRef F
  pub stoploss_atr_mult : F
  pub status : TradeStatus
  pub entry_need_confirm : Bool
  pub exit_need_confirm : Bool
  pub enable_breakeven : Bool
  pub risk_reward_ratio : F
  pub entry_price : Option F
  pub exit_price : Option F
  pub exit_value : Option F
  pub tp_price : Option F
  pub signal_metadata : Fields F
  pub initial_stop_price : Option F
  pub stop_price : Option F
  pub breakeven_step : ℤ
  pub trailing_stop_ratio : F
  pub trailing_best_price : Option F
  pub trailing_stop_price : Option F
  pub trailing_update_count : ℕ
  pub trailing_peak_confirmed : Bool
  pub stop_source : String
  pub entry_key_banned : Bool
  pub exit_key_banned : Bool
  pub exit_key_bar_index : Option ℤ
  pub exit_key_kline_ref : Option (KlineRef F)
  pub cancel_reason : Option String
  pub stop_order : Option O
  pub tp_order : Option O
  pub pending_exit_reason : Option (ExitReason F)
  pub requested_exit_reason_code : Option String
  pub requested_exit_reason_label : Option String
  pub requested_exit_reason_detail : Option String
  pub exit_reason_code : Option String
  pub exit_reason_label : Option String
  pub exit_reason_detail : Option String
  pub replacement_trade_id : Option ℕ
  pub stop_multiple_r : Option F
  pub exit_risk_reward_ratio : Option F

pub record SignalSnapshot (F : Type 0) : Type 0 where
  pub bar_index : ℤ
  pub long_signal : Bool
  pub short_signal : Bool
  pub long_context : Fields F
  pub short_context : Fields F
