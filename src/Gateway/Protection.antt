-- ===== src/Gateway/Protection.antt =====
-- The protection orders of `BinanceLiveExecutionGateway` in execution/gateways.py.
pub mod Armed
pub mod Supported
use chainer_trader.Prelude.{
  ◌≡◌, Bool, true, false, not, ◌&&◌, ◌||◌, Option, none, some, List, [], ◌∷◌, ◌++◌, String, Result,
  ok, err, from_option, is_some, if◌then◌else◌,
}
use chainer_trader.Prelude.Exec.{Exec, continue}
use chainer_trader.Prelude.Int.{pos, eqb_ℤ}
use chainer_trader.Prelude.Float.{Float}
use chainer_trader.Prelude.Text.{join, strip, is_empty}
use chainer_trader.Common.Interval.{Symbol}
use chainer_trader.Execution.Payload.{
  Value, Items, Fields, nil, cons, text, flag, end, field, lookup, insert, null, int, num, arr, obj,
}
use chainer_trader.Execution.Kinds.{
  GatewayMode, GatewayCapability, ExecutionStatus, ExecutionReason, ExecutionEventType,
  ExecutionSide,
}
use chainer_trader.Execution.Order.{OrderIntent}
use chainer_trader.Execution.Risk.{RiskIntent}
use chainer_trader.Execution.Semantics.{OperateType}
use chainer_trader.Execution.Outcome.{
  ExecutionEvent, ExecutionResult, ReconcileRequest, ReconcileResult, PositionView,
  ProtectionOrderView, from_accepted, unsupported,
}
use chainer_trader.Gateway.Payloads.{order_ids, symbol_arg, str_of}
use chainer_trader.Gateway.Events.{
  GatewayCapabilities, has_capability, order_event, risk_event, failed_result,
  accepted_order_result, risk_price,
}
use chainer_trader.Gateway.Exchange.{Exchange, live, joined_ids, closing_side, opening_side}

abbrev pub given : {A B : Type 0} → (A → B) → Option A → Option B
given f none = none
given f (some a) = some (f a)

-- the capability that a protection needs
abbrev pub needed : {F : Type 0} → Option F → Option F → GatewayCapability
needed (some stop) (some target) = GatewayCapability.oco_protection
needed (some stop) none = GatewayCapability.protective_stop
needed none target = GatewayCapability.take_profit_limit

module _ {F X : Type 0} ⦃fl : Float F⦄ (repr : Value F → String) (ex : Exchange F X)
    (mode : String) where
  -- `_verify_native_orders`, of ids that are not empty
  abbrev pub verified_by :
      Option (Symbol → List String → Exec String X Bool) → String → List String → Exec String X Bool
  verified_by none symbol ids x = (ok true, x)
  verified_by (some verifier) symbol ids x = verifier (symbol_arg symbol) ids x

  abbrev pub native : String → Value F → Fields F
  native key v = field "native" (flag true) (field key v end)

  abbrev pub missing :
      RiskIntent F → ExecutionReason → Option F → String → Value F → ExecutionResult F
  missing i reason price key v =
      failed_result i.intent_id i.operation_id reason
        (risk_event live mode i ExecutionEventType.protection_missing none ExecutionStatus.failed
          (some reason) price (native key v))
        (field key v end)

  abbrev pub unverified : RiskIntent F → Value F → ExecutionResult F
  unverified i payload =
      missing i ExecutionReason.native_protection_unverified
        (risk_price i.stop_price i.take_profit_price) "raw_payload" payload

  abbrev pub armed : RiskIntent F → ExecutionEventType → Value F → String → ExecutionResult F
  armed i type payload order_id =
      from_accepted i.intent_id i.operation_id ExecutionStatus.accepted
        (risk_event live mode i type (some order_id) ExecutionStatus.accepted none
            (risk_price i.stop_price i.take_profit_price) (native "raw_payload" payload)
          ∷ [])
        (some order_id) (field "raw_payload" payload end)

  abbrev pub if_verified :
      RiskIntent F
      → ExecutionEventType
      → Value F
      → List String
      → Result String Bool
      → Result String (ExecutionResult F)
  if_verified i type payload ids (err e) = err e
  if_verified i type payload ids (ok true) = ok (armed i type payload (joined_ids ids))
  if_verified i type payload ids (ok false) = ok (unverified i payload)

  abbrev pub native_of :
      RiskIntent F
      → ExecutionEventType
      → Value F
      → Result String (List String)
      → Exec String X (ExecutionResult F)
  native_of i type payload (err e) x = (err e, x)
  native_of i type payload (ok []) x = (ok (unverified i payload), x)
  native_of i type payload (ok (a ∷ ids)) x =
      let (r, x') = verified_by ex.verify_order_ids i.symbol (a ∷ ids) x in
      (if_verified i type payload (a ∷ ids) r, x')

  unfoldable pub native_protection_result :
      RiskIntent F → Value F → ExecutionEventType → Exec String X (ExecutionResult F)
  native_protection_result i payload type = native_of i type payload (order_ids repr payload)

  -- what the answer to a protection order gives; an exception is a failed result at a price
  abbrev pub protected :
      RiskIntent F
      → Option F
      → ExecutionEventType
      → Result String (Value F) × X
      → Result String (ExecutionResult F) × X
  protected i price type (err e, x) =
      (ok (missing i ExecutionReason.gateway_rejected price "exception" (text e)), x)
  protected i price type (ok payload, x) = native_protection_result i payload type x

  -- a method of the exchange, or the result for a capability that it lacks
  abbrev pub by_method :
      RiskIntent F
      → GatewayCapability
      → Option F
      → ExecutionEventType
      → Option (Exec String X (Value F))
      → Exec String X (ExecutionResult F)
  by_method i capability price type none x =
      (ok (unsupported i.intent_id i.operation_id capability live), x)
  by_method i capability price type (some call) x = protected i price type (call x)

  abbrev pub place_by :
      RiskIntent F
      → GatewayCapability
      → Option (Exec String X (Value F))
      → Exec String X (ExecutionResult F)
  place_by i capability m =
      by_method i capability (risk_price i.stop_price i.take_profit_price)
        ExecutionEventType.protection_armed m

  -- the method for it, applied
  unfoldable pub protection_method :
      RiskIntent F → Option F → Option F → Option (Exec String X (Value F))
  unfolding symbol_arg closing_side
  protection_method i (some stop) (some target) =
      given (λ f. f (symbol_arg i.symbol) (closing_side i.side) i.quantity stop target)
        ex.new_oco_order
  protection_method i (some stop) none =
      given (λ f. f (symbol_arg i.symbol) (closing_side i.side) i.quantity stop) ex.new_stop_order
  protection_method i none target =
      given (λ f. f (symbol_arg i.symbol) (closing_side i.side) i.quantity target)
        ex.new_take_profit_order

  unfoldable pub place_protection : RiskIntent F → Exec String X (ExecutionResult F)
  unfolding native_protection_result protection_method
  place_protection i =
      place_by i (needed i.stop_price i.take_profit_price)
        (protection_method i i.stop_price i.take_profit_price)

  abbrev pub replace_method : RiskIntent F → String → Option (Exec String X (Value F))
  replace_method i order_id =
      given (λ f. f (symbol_arg i.symbol) (closing_side i.side) order_id i.quantity i.stop_price)
        ex.replace_stop_order

  unfoldable pub replace_protection : RiskIntent F → Exec String X (ExecutionResult F)
  unfolding native_protection_result symbol_arg closing_side
  replace_protection i x =
      let order_id = from_option "" i.replacement_of_order_id in
      if is_some ex.replace_stop_order && is_empty (strip order_id)
      then (
        ok (
            missing i ExecutionReason.protection_missing i.stop_price "missing"
              (text "replacement_of_order_id")),
        x,
      )
      else by_method i GatewayCapability.breakeven_replacement i.stop_price
          ExecutionEventType.protection_replaced (replace_method i order_id) x
