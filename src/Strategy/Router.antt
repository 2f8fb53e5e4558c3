-- ===== src/Strategy/Router.antt =====
-- `SignalRouter` of strategy/signal_router.py: what a strategy does with the signals of a bar.
pub mod Modes
pub mod Answered
use chainer_trader.Prelude.{
  ℕ, Bool, true, false, not, ◌&&◌, ◌||◌, Option, none, some, List, [], ◌∷◌, ◌++◌, String,
  if◌then◌else◌,
}
use chainer_trader.Prelude.Int.{ℤ}
use chainer_trader.Prelude.Float.{Float}
use chainer_trader.Prelude.Text.{str_eq, upper, is_empty}
use chainer_trader.Execution.Payload.{Fields}
use chainer_trader.Strategy.Context.{
  TradeStatus, trade_status_value, is_over, is_active, TradeContext, SignalSnapshot,
}

pub data SignalRouteActionType : Type 0 where
  detected blocked enter exit replace : SignalRouteActionType

-- The dictionary of `_active_trade_payload`, its time not yet printed.
pub record ActiveTradePayload : Type 0 where
  pub trade_id : ℕ
  pub direction : String
  pub entry_time : ℤ
  pub status : String

pub record SignalRouteAction (F : Type 0) : Type 0 where
  pub action_type : SignalRouteActionType
  pub direction : String
  pub context : Fields F
  pub reason : Option String
  pub exit_reason_code : Option String
  pub exit_reason_label : Option String
  pub exit_reason_detail : Option String
  pub active_trade : Option ActiveTradePayload

pub record SignalRoutingState (F O : Type 0) : Type 0 where
  pub mode : Option String
  pub can_open_new_position : Bool
  pub active_trade : Option (TradeContext F O)
  pub position_size : F

-- `valid_modes`, and the mode that `route` takes
pub data Mode : Type 0 where
  long_only short_only both : Mode

abbrev pub mode_named : String → Mode
mode_named s =
    if str_eq s "SHORT_ONLY"
    then Mode.short_only
    else if str_eq s "BOTH"
    then Mode.both
    else Mode.long_only

abbrev pub mode_of : Option String → Mode
unfolding upper
mode_of none = Mode.long_only
mode_of (some s) = mode_named (upper s)

module _ {F O : Type 0} where
  abbrev pub is_free : Option (TradeContext F O) → Bool
  is_free none = true
  is_free (some c) = is_over c.status

  abbrev pub has_active : Option (TradeContext F O) → Bool
  has_active none = false
  has_active (some c) = is_active c.status

  -- `_active_trade_payload`
  pub active_trade_payload : Option (TradeContext F O) → Option ActiveTradePayload
  active_trade_payload none = none
  active_trade_payload (some c) = some (record {
    trade_id = c.trade_id;
    direction = c.direction;
    entry_time = c.key_kline_ref.dt;
    status = trade_status_value c.status;
  })

module _ {F : Type 0} where
  -- an action with its keyword arguments' defaults
  abbrev pub action :
      SignalRouteActionType → String → Fields F → Option String → SignalRouteAction F
  action kind direction context reason = record {
    action_type = kind;
    direction = direction;
    context = context;
    reason = reason;
    exit_reason_code = none;
    exit_reason_label = none;
    exit_reason_detail = none;
    active_trade = none;
  }

  -- the first two actions, by the signals
  pub detections : SignalSnapshot F → List (SignalRouteAction F)
  detections s =
      (if s.long_signal
        then action SignalRouteActionType.detected "LONG" s.long_context none ∷ []
        else [])
      ++ (if s.short_signal
          then action SignalRouteActionType.detected "SHORT" s.short_context none ∷ []
          else [])

  -- the action on a signal against the mode: an exit, or a block
  pub against_mode : Bool → Bool → String → Fields F → String → List (SignalRouteAction F)
  against_mode signal holds direction context detail =
      if signal && holds
      then record (action SignalRouteActionType.exit direction context (some "signal")) {
        exit_reason_code = some "signal_exit";
        exit_reason_label = some "信号出场";
        exit_reason_detail = some detail;
      }
        ∷ []
      else if signal
      then action SignalRouteActionType.blocked direction context (some "mode") ∷ []
      else []

module _ {F O : Type 0} where
  -- `_entry_actions`
  pub entry_actions : Bool → String → Fields F → SignalRoutingState F O → List (SignalRouteAction F)
  unfolding active_trade_payload
  entry_actions signal direction context state =
      let free = is_free state.active_trade in
      let can_open = state.can_open_new_position in
      let payload = active_trade_payload state.active_trade in
      if not signal
      then []
      else if free && can_open
      then action SignalRouteActionType.enter direction context none ∷ []
      else if not free
      then (if can_open
          then record (action SignalRouteActionType.replace direction context (some "new_signal")) {
            active_trade = payload;
          }
            ∷ []
          else record (action SignalRouteActionType.blocked direction context
              (some "active_trade")) { active_trade = payload }
            ∷ [])
      else action SignalRouteActionType.blocked direction context (some "equity") ∷ []

module _ {F O : Type 0} ⦃fl : Float F⦄ where
  -- the three branches of `route`
  pub route_mode : Mode → SignalSnapshot F → SignalRoutingState F O → List (SignalRouteAction F)
  unfolding entry_actions against_mode
  route_mode Mode.long_only s state =
      entry_actions s.long_signal "LONG" s.long_context state
      ++ against_mode s.short_signal
          (has_active state.active_trade && fl.lt fl.zero_f state.position_size) "SHORT"
          s.short_context "LONG_ONLY 模式下出现反向信号"
  route_mode Mode.short_only s state =
      entry_actions s.short_signal "SHORT" s.short_context state
      ++ against_mode s.long_signal
          (has_active state.active_trade && fl.lt state.position_size fl.zero_f) "LONG"
          s.long_context "SHORT_ONLY 模式下出现反向信号"
  route_mode Mode.both s state =
      entry_actions s.long_signal "LONG" s.long_context state
      ++ entry_actions s.short_signal "SHORT" s.short_context state

  -- `route`
  pub route : SignalSnapshot F → SignalRoutingState F O → List (SignalRouteAction F)
  unfolding detections route_mode
  route s state = detections s ++ route_mode (mode_of state.mode) s state
