-- ===== src/Execution/Resolver.antt =====
-- execution/resolver.py: the gateway that an execution mode stands for.
pub mod Safe
use chainer_trader.Prelude.{
  ◌⊎◌, inl, inr, Bool, true, false, Option, none, some, String, Result, ok, err, ◌>>=◌, from_option,
  if◌then◌else◌,
}
use chainer_trader.Prelude.Float.{Float}
use chainer_trader.Prelude.Text.{str_eq, strip, lower, is_empty}
use chainer_trader.Execution.Enums.{ValueError, normalize_enum}
use chainer_trader.Execution.Kinds.{GatewayMode, gateway_mode_enum}

-- `SUPPORTED_STAGED_EXECUTION_MODES`, whose texts are `manual_notify` and `auto_trade`
pub data StagedMode : Type 0 where
  manual_notify auto_trade : StagedMode

pub data ResolutionError : Type 0 where
  -- `unsupported live_execution_mode=…`
  unsupported_mode : String → ResolutionError
  -- `requested gateway … conflicts with live_execution_mode=…`
  conflict : GatewayMode → StagedMode → ResolutionError
  -- `GatewayMode(...)` on a text that names no gateway
  bad_gateway : ValueError → ResolutionError

pub record ResolvedExecutionGateway (F : Type 0) : Type 0 where
  pub staged_execution_mode : StagedMode
  pub gateway_mode : GatewayMode
  pub can_submit_orders : Bool
  pub requested_gateway : Option GatewayMode
  pub max_notional : Option F
  pub requires_live_order_cap : Bool

-- `_normalize_live_execution_mode`; `value` is the text of the mode, or of the member's value
pub normalize_live_execution_mode : Option String → Result ResolutionError StagedMode
unfolding strip lower
normalize_live_execution_mode value =
    let raw = from_option "" value in
    let mode = lower (strip (if is_empty raw then "auto_trade" else raw)) in
    if str_eq mode "manual_notify"
    then ok manual_notify
    else if str_eq mode "auto_trade"
    then ok auto_trade
    else err (unsupported_mode raw)

abbrev pub lift_value_error {ℓ} : {A : Type ℓ} → Result ValueError A → Result ResolutionError A
lift_value_error (ok a) = ok a
lift_value_error (err e) = err (bad_gateway e)

-- `_normalize_requested_gateway`
pub normalize_requested_gateway :
    Option (GatewayMode ⊎ String) → Result ResolutionError (Option GatewayMode)
unfolding normalize_enum strip lower
normalize_requested_gateway none = ok none
normalize_requested_gateway (some (inl g)) = ok (some g)
normalize_requested_gateway (some (inr s)) = do
  g ← lift_value_error (normalize_enum (inr (lower (strip s))))
  ok (some g)

abbrev pub same_gateway : GatewayMode → GatewayMode → Bool
same_gateway GatewayMode.notification_only GatewayMode.notification_only = true
same_gateway GatewayMode.backtrader GatewayMode.backtrader = true
same_gateway GatewayMode.binance_live GatewayMode.binance_live = true
same_gateway _ _ = false

module _ {F : Type 0} where
  abbrev resolved :
      StagedMode
      → GatewayMode
      → Option GatewayMode
      → Bool
      → Option F
      → Bool
      → ResolvedExecutionGateway F
  resolved mode expected requested can max capped = record {
    staged_execution_mode = mode;
    gateway_mode = expected;
    can_submit_orders = can;
    requested_gateway = requested;
    max_notional = max;
    requires_live_order_cap = capped;
  }

  -- `_resolve_expected`
  resolve_expected :
      StagedMode
      → GatewayMode
      → Option GatewayMode
      → Bool
      → Option F
      → Bool
      → Result ResolutionError (ResolvedExecutionGateway F)
  resolve_expected mode expected none can max capped =
      ok (resolved mode expected none can max capped)
  resolve_expected mode expected (some requested) can max capped =
      if same_gateway requested expected
      then ok (resolved mode expected (some requested) can max capped)
      else err (conflict requested mode)

module _ {F : Type 0} ⦃fl : Float F⦄ where
  -- the branches of `resolve_execution_gateway` on the normalized mode
  pub resolve_mode :
      StagedMode
      → Option GatewayMode
      → Option F
      → Result ResolutionError (ResolvedExecutionGateway F)
  unfolding resolve_expected
  resolve_mode manual_notify requested limit =
      resolve_expected manual_notify GatewayMode.notification_only requested false none false
  resolve_mode auto_trade requested limit =
      let max_notional = from_option fl.zero_f limit in
      let capped = fl.lt fl.zero_f max_notional in
      resolve_expected auto_trade GatewayMode.binance_live requested true
        (if capped then some max_notional else none) capped

  -- `resolve_execution_gateway`
  unfoldable pub resolve_execution_gateway :
      Option String
      → Option (GatewayMode ⊎ String)
      → Option F
      → Result ResolutionError (ResolvedExecutionGateway F)
  unfolding normalize_live_execution_mode normalize_requested_gateway resolve_mode
  resolve_execution_gateway live_execution_mode requested_gateway live_trade_max_notional = do
    mode ← normalize_live_execution_mode live_execution_mode
    requested ← normalize_requested_gateway requested_gateway
    resolve_mode mode requested live_trade_max_notional
