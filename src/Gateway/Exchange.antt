-- ===== src/Gateway/Exchange.antt =====
-- The exchange that `BinanceLiveExecutionGateway` of execution/gateways.py works with, and what the
-- gateway can do with it. The exchange is a parameter: a method that it may lack is an optional one,
-- each method may raise, and its state is the exchange's.
use chainer_trader.Prelude.{
  Bool, false, ◌||◌, Option, none, some, List, [], ◌∷◌, ◌++◌, String, is_some, if◌then◌else◌,
}
use chainer_trader.Prelude.Exec.{Exec}
use chainer_trader.Prelude.Text.{join}
use chainer_trader.Common.Interval.{Symbol}
use chainer_trader.Execution.Payload.{Value}
use chainer_trader.Execution.Kinds.{GatewayMode, GatewayCapability, ExecutionSide}
use chainer_trader.Execution.Semantics.{OperateType}
use chainer_trader.Execution.Outcome.{PositionView, ProtectionOrderView}
use chainer_trader.Gateway.Events.{GatewayCapabilities, has_capability}

pub record Exchange (F X : Type 0) : Type 0 where
  pub new_order : Symbol → OperateType → Option F → Exec String X (Value F)
  pub new_oco_order : Option (Symbol → OperateType → F → F → F → Exec String X (Value F))
  pub new_stop_order : Option (Symbol → OperateType → F → F → Exec String X (Value F))
  pub new_take_profit_order : Option (Symbol → OperateType → F → Option F → Exec String X (Value F))
  pub replace_stop_order :
      Option (Symbol → OperateType → String → F → Option F → Exec String X (Value F))
  pub cancel_order : Option (Symbol → String → Exec String X Unit)
  pub delete_order : Option (Symbol → String → Exec String X Unit)
  pub verify_order_ids : Option (Symbol → List String → Exec String X Bool)
  pub get_position_view : Option (String → Exec String X (List (PositionView F)))
  pub get_open_protection_orders : Option (String → Exec String X (List (ProtectionOrderView F)))
  pub supported_gateway_capabilities : Option (List GatewayCapability)

abbrev pub live : GatewayMode
live = GatewayMode.binance_live

-- `",".join(ids)`
abbrev pub joined_ids : List String → String
joined_ids [] = ""
joined_ids (a ∷ []) = a
joined_ids (a ∷ b ∷ ids) = join a (join "," (joined_ids (b ∷ ids)))

-- `_protection_side`, and the operation that closes a position
unfoldable pub closing_side : ExecutionSide → OperateType
closing_side ExecutionSide.long = OperateType.sell
closing_side ExecutionSide.short = OperateType.close_all

unfoldable pub opening_side : ExecutionSide → OperateType
opening_side ExecutionSide.long = OperateType.buy
opening_side ExecutionSide.short = OperateType.short

-- a capability that the exchange has a method for
abbrev pub if_method : Bool → GatewayCapability → List GatewayCapability
if_method b c = if b then c ∷ [] else []

module _ {F X : Type 0} (ex : Exchange F X) where
  abbrev pub supported_of : Option (List GatewayCapability) → List GatewayCapability
  supported_of (some supported) = supported
  supported_of none =
      (GatewayCapability.market_entry ∷ GatewayCapability.market_close
        ∷ GatewayCapability.cancel_order ∷ GatewayCapability.reconcile ∷ [])
      ++ if_method (is_some ex.new_stop_order) GatewayCapability.protective_stop
      ++ if_method (is_some ex.new_take_profit_order) GatewayCapability.take_profit_limit
      ++ if_method (is_some ex.new_oco_order) GatewayCapability.oco_protection
      ++ if_method (is_some ex.replace_stop_order) GatewayCapability.breakeven_replacement

  unfoldable pub capabilities : GatewayCapabilities
  unfolding has_capability
  capabilities =
      let supported = supported_of ex.supported_gateway_capabilities in
      record {
        gateway = live;
        supported = supported;
        native_protection =
            has_capability GatewayCapability.protective_stop supported
            || has_capability GatewayCapability.oco_protection supported;
        local_guardian = false;
      }
