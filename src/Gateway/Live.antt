-- ===== src/Gateway/Live.antt =====
-- The market orders and cancellations of `BinanceLiveExecutionGateway` in execution/gateways.py.
pub mod Answers
use chainer_trader.Prelude.{
  ◌≡◌, Bool, true, false, not, ◌&&◌, ◌||◌, Option, none, some, List, [], ◌∷◌, ◌++◌, String, Result,
  ok, err, from_option, is_some, if◌then◌else◌,
}
use chainer_trader.Prelude.Exec.{Exec, pure, ◌>>=◌}
use chainer_trader.Prelude.Int.{pos, eqb_ℤ}
use chainer_trader.Prelude.Float.{Float}
use chainer_trader.Prelude.Text.{join, strip, is_empty}
use chainer_trader.Common.Interval.{Symbol}
use chainer_trader.Execution.Payload.{
  Value, Items, Fields, nil, cons, text, flag, end, field, lookup, insert, null, int, num, arr, obj,
}
use chainer_trader.Execution.Kinds.{
  GatewayMode, GatewayCapability, ExecutionStatus, ExecutionReason, ExecutionEventType,
  ExecutionSide,
}
use chainer_trader.Execution.Order.{OrderIntent}
use chainer_trader.Execution.Risk.{RiskIntent}
use chainer_trader.Execution.Semantics.{OperateType}
use chainer_trader.Execution.Outcome.{
  ExecutionEvent, ExecutionResult, ReconcileRequest, ReconcileResult, PositionView,
  ProtectionOrderView, from_accepted, unsupported,
}
use chainer_trader.Gateway.Payloads.{order_ids, symbol_arg, str_of}
use chainer_trader.Gateway.Events.{
  GatewayCapabilities, has_capability, order_event, risk_event, failed_result,
  accepted_order_result, risk_price,
}
use chainer_trader.Gateway.Exchange.{Exchange, live, joined_ids, closing_side, opening_side}

module _ {F : Type 0} ⦃fl : Float F⦄ where
  -- `bool(v)`
  abbrev pub is_truthy : Value F → Bool
  is_truthy null = false
  is_truthy (flag b) = b
  is_truthy (int n) = not (eqb_ℤ n (pos 0))
  is_truthy (num x) = not (fl.eqf x fl.zero_f)
  is_truthy (text s) = not (is_empty s)
  is_truthy (arr nil) = false
  is_truthy (arr (cons v vs)) = true
  is_truthy (obj end) = false
  is_truthy (obj (field k v d)) = true

abbrev pub or_method : {A : Type 0} → Option A → Option A → Option A
or_method none b = b
or_method (some a) b = some a

module _ {F X : Type 0} ⦃fl : Float F⦄ (repr : Value F → String) (ex : Exchange F X)
    (mode : String) where
  abbrev pub rejected : OrderIntent F → String → Value F → Fields F → ExecutionResult F
  rejected i key v metadata =
      failed_result i.intent_id i.operation_id ExecutionReason.gateway_rejected
        (order_event live mode i ExecutionEventType.order_rejected none ExecutionStatus.failed
          (some ExecutionReason.gateway_rejected) metadata)
        (field key v end)

  -- what an answered order gives, by its ids
  abbrev pub order_result :
      OrderIntent F → Value F → Result String (List String) → Result String (ExecutionResult F)
  order_result i payload (err e) = err e
  order_result i payload (ok []) =
      ok (rejected i "raw_payload" payload (insert "raw_payload" payload i.metadata))
  order_result i payload (ok (a ∷ ids)) = ok (
      accepted_order_result live mode i ExecutionStatus.submitted (some (joined_ids (a ∷ ids)))
        (ExecutionStatus.submitted ∷ ExecutionStatus.accepted ∷ []))

  abbrev pub answered : OrderIntent F → Result String (Value F) → Result String (ExecutionResult F)
  answered i (err e) = ok (rejected i "exception" (text e) (insert "exception" (text e) i.metadata))
  answered i (ok payload) = order_result i payload (order_ids repr payload)

  unfoldable pub submit_market : OrderIntent F → OperateType → Exec String X (ExecutionResult F)
  unfolding symbol_arg
  submit_market i op x =
      let (r, x') = ex.new_order (symbol_arg i.symbol) op i.quantity x in (answered i r, x')

  unfoldable pub open_position : OrderIntent F → Exec String X (ExecutionResult F)
  unfolding submit_market opening_side
  open_position i = submit_market i (opening_side i.side)

  unfoldable pub close_position : OrderIntent F → Exec String X (ExecutionResult F)
  unfolding submit_market closing_side
  close_position i = submit_market i (closing_side i.side)

  -- `str(v or "")`
  abbrev pub text_or_empty : Option (Value F) → String
  text_or_empty none = ""
  text_or_empty (some v) = if is_truthy v then str_of repr v else ""

  abbrev pub canceled :
      OrderIntent F → String → Result String (Unit {0}) → Result String (ExecutionResult F)
  canceled i order_id (err e) = err e
  canceled i order_id (ok u) = ok (
      accepted_order_result live mode i ExecutionStatus.canceled (some order_id)
        (ExecutionStatus.canceled ∷ []))

  abbrev pub cancel_by :
      OrderIntent F
      → Option (Symbol → String → Exec String X Unit)
      → Exec String X (ExecutionResult F)
  cancel_by i none x =
      (ok (unsupported i.intent_id i.operation_id GatewayCapability.cancel_order live), x)
  cancel_by i (some method) x =
      let order_id = text_or_empty (lookup "order_id" i.metadata) in
      let (r, x') = method (symbol_arg i.symbol) order_id x in (canceled i order_id r, x')

  unfoldable pub cancel_order : OrderIntent F → Exec String X (ExecutionResult F)
  unfolding symbol_arg
  cancel_order i = cancel_by i (or_method ex.cancel_order ex.delete_order)

  -- the views of a symbol, and none if the exchange cannot list them
  abbrev pub views :
      {A : Type 0} → Option (String → Exec String X (List A)) → String → Exec String X (List A)
  views none symbol x = (ok [], x)
  views (some list) symbol x = list symbol x

  unfoldable pub reconcile : ReconcileRequest F → Exec String X (ReconcileResult F)
  reconcile request = do
    positions ← views ex.get_position_view request.symbol
    protections ← views ex.get_open_protection_orders request.symbol
    pure (record {
      request = request;
      positions = positions;
      orders = [];
      protections = protections;
      events = [];
      gaps = [];
    })
