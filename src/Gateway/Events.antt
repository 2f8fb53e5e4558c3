-- ===== src/Gateway/Events.antt =====
-- The capabilities of a gateway, and the events and results that the gateways share.
use chainer_trader.Prelude.{
  Bool, Option, none, some, List, [], ◌∷◌, String, map, any, if◌then◌else◌,
}
use chainer_trader.Prelude.Float.{Float}
use chainer_trader.Prelude.Text.{str_eq}
use chainer_trader.Execution.Payload.{Fields, end}
use chainer_trader.Execution.Kinds.{
  GatewayMode, GatewayCapability, ExecutionStatus, ExecutionReason, ExecutionEventType,
  gateway_capability_value,
}
use chainer_trader.Execution.Order.{OrderIntent}
use chainer_trader.Execution.Risk.{RiskIntent}
use chainer_trader.Execution.Outcome.{ExecutionEvent, ExecutionResult, from_accepted}

-- `supported` is a set.
pub record GatewayCapabilities : Type 0 where
  pub gateway : GatewayMode
  pub supported : List GatewayCapability
  pub native_protection : Bool
  pub local_guardian : Bool

-- `capability in supported`
unfoldable pub has_capability : GatewayCapability → List GatewayCapability → Bool
has_capability c cs = any (λ d. str_eq (gateway_capability_value d) (gateway_capability_value c)) cs

abbrev pub supports : GatewayCapabilities → GatewayCapability → Bool
unfolding has_capability
supports caps c = has_capability c caps.supported

unfoldable pub event_type_for_status : ExecutionStatus → ExecutionEventType
event_type_for_status s = elim s [
  | ExecutionStatus.submitted ↦ ExecutionEventType.order_submitted
  | ExecutionStatus.accepted ↦ ExecutionEventType.order_accepted
  | ExecutionStatus.filled ↦ ExecutionEventType.order_filled
  | ExecutionStatus.canceled ↦ ExecutionEventType.order_canceled
  | ExecutionStatus.rejected ↦ ExecutionEventType.order_rejected
  | _ ↦ ExecutionEventType.order_rejected
]

module _ {F : Type 0} where
  -- an event about an order intent
  abbrev pub order_event :
      GatewayMode
      → String
      → OrderIntent F
      → ExecutionEventType
      → Option String
      → ExecutionStatus
      → Option ExecutionReason
      → Fields F
      → ExecutionEvent F
  order_event gateway mode i type order_id status reason metadata = record {
    event_type = type;
    gateway = gateway;
    staged_execution_mode = mode;
    intent_id = i.intent_id;
    operation_id = i.operation_id;
    symbol = i.symbol;
    order_id = order_id;
    trade_id = i.trade_id;
    status = some status;
    reason = reason;
    quantity = i.quantity;
    price = i.price;
    metadata = metadata;
  }

  -- an event about a risk intent, at a price
  abbrev pub risk_event :
      GatewayMode
      → String
      → RiskIntent F
      → ExecutionEventType
      → Option String
      → ExecutionStatus
      → Option ExecutionReason
      → Option F
      → Fields F
      → ExecutionEvent F
  risk_event gateway mode i type order_id status reason price metadata = record {
    event_type = type;
    gateway = gateway;
    staged_execution_mode = mode;
    intent_id = i.intent_id;
    operation_id = i.operation_id;
    symbol = i.symbol;
    order_id = order_id;
    trade_id = some i.trade_id;
    status = some status;
    reason = reason;
    quantity = some i.quantity;
    price = price;
    metadata = metadata;
  }

  -- a result with the status `failed`
  abbrev pub failed_result :
      String → String → ExecutionReason → ExecutionEvent F → Fields F → ExecutionResult F
  failed_result intent_id operation_id reason event metadata = record {
    intent_id = intent_id;
    operation_id = operation_id;
    status = ExecutionStatus.failed;
    reason = some reason;
    gateway_order_id = none;
    capability = none;
    events = event ∷ [];
    metadata = metadata;
  }

  -- `_accepted_order_result`
  unfoldable pub accepted_order_result :
      GatewayMode
      → String
      → OrderIntent F
      → ExecutionStatus
      → Option String
      → List ExecutionStatus
      → ExecutionResult F
  unfolding from_accepted event_type_for_status
  accepted_order_result gateway mode i status order_id event_statuses =
      from_accepted i.intent_id i.operation_id status
        (map (λ s. order_event gateway mode i (event_type_for_status s) order_id s none i.metadata)
          event_statuses)
        order_id end

module _ {F : Type 0} ⦃fl : Float F⦄ where
  -- `intent.stop_price or intent.take_profit_price`
  abbrev pub risk_price : Option F → Option F → Option F
  risk_price none target = target
  risk_price (some stop) target = if fl.eqf stop fl.zero_f then target else some stop
