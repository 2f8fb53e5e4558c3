-- ===== src/Execution/Outcome.antt =====
-- The views, events and results of execution/models.py. The model's fields are members already:
-- `_normalize_enum` leaves a member as it is, and its work on a text is in `Enums`.
use chainer_trader.Prelude.{
  Bool, true, false, Option, none, some, List, [], ◌∷◌, String, Result, ok, ◌>>=◌,
}
use chainer_trader.Prelude.Text.{join, is_empty}
use chainer_trader.Execution.Payload.{
  Fields, Value, Items, text, obj, arr, null, nil, cons, opt_num, opt_text, end, field,
}
use chainer_trader.Execution.Enums.{ValueError}
use chainer_trader.Execution.Kinds.{
  ExecutionEventType, GatewayMode, ExecutionStatus, ExecutionReason, GatewayCapability,
  ExecutionSide, ProtectionIntentType, execution_event_type_value, gateway_mode_value,
  execution_status_value, execution_reason_value, gateway_capability_value,
}
use chainer_trader.Execution.Order.{require_text}

pub record OrderView (F : Type 0) : Type 0 where
  pub order_id : String
  pub symbol : String
  pub status : ExecutionStatus
  pub role : String
  pub quantity : F
  pub price : Option F
  pub intent_id : Option String
  pub trade_id : Option String
  pub metadata : Fields F

pub record ProtectionOrderView (F : Type 0) : Type 0 where
  pub protection_id : String
  pub symbol : String
  pub protection_type : ProtectionIntentType
  pub status : ExecutionStatus
  pub quantity : F
  pub stop_price : Option F
  pub take_profit_price : Option F
  pub exchange_order_ids : List String
  pub intent_id : Option String
  pub trade_id : Option String
  pub native : Bool
  pub metadata : Fields F

pub record PositionView (F : Type 0) : Type 0 where
  pub symbol : String
  pub side : ExecutionSide
  pub quantity : F
  pub entry_price : Option F
  pub trade_id : Option String
  pub metadata : Fields F

pub record ExecutionEvent (F : Type 0) : Type 0 where
  pub event_type : ExecutionEventType
  pub gateway : GatewayMode
  pub staged_execution_mode : String
  pub intent_id : String
  pub operation_id : String
  pub symbol : String
  pub order_id : Option String
  pub trade_id : Option String
  pub status : Option ExecutionStatus
  pub reason : Option ExecutionReason
  pub quantity : Option F
  pub price : Option F
  pub metadata : Fields F

pub record ExecutionResult (F : Type 0) : Type 0 where
  pub intent_id : String
  pub operation_id : String
  pub status : ExecutionStatus
  pub reason : Option ExecutionReason
  pub gateway_order_id : Option String
  pub capability : Option GatewayCapability
  pub events : List (ExecutionEvent F)
  pub metadata : Fields F

module _ {F : Type 0} where
  -- `ExecutionEvent.order_accepted`
  unfoldable pub order_accepted :
      GatewayMode
      → String
      → String
      → String
      → String
      → String
      → Option String
      → Fields F
      → ExecutionEvent F
  order_accepted gateway mode intent_id operation_id symbol order_id trade_id metadata = record {
    event_type = ExecutionEventType.order_accepted;
    gateway = gateway;
    staged_execution_mode = mode;
    intent_id = intent_id;
    operation_id = operation_id;
    symbol = symbol;
    order_id = some order_id;
    trade_id = trade_id;
    status = some ExecutionStatus.accepted;
    reason = none;
    quantity = none;
    price = none;
    metadata = metadata;
  }

  abbrev opt_status : Option ExecutionStatus → Value F
  opt_status none = null
  opt_status (some s) = text (execution_status_value s)

  abbrev opt_reason : Option ExecutionReason → Value F
  opt_reason none = null
  opt_reason (some r) = text (execution_reason_value r)

  abbrev opt_capability : Option GatewayCapability → Value F
  opt_capability none = null
  opt_capability (some c) = text (gateway_capability_value c)

  -- `ExecutionEvent.to_dict`
  unfoldable event_to_dict : ExecutionEvent F → Fields F
  event_to_dict e = field "event_type" (text (execution_event_type_value e.event_type)) (
      field "gateway" (text (gateway_mode_value e.gateway)) (
        field "staged_execution_mode" (text e.staged_execution_mode) (
          field "intent_id" (text e.intent_id) (
            field "operation_id" (text e.operation_id) (
              field "symbol" (text e.symbol) (
                field "order_id" (opt_text e.order_id) (
                  field "trade_id" (opt_text e.trade_id) (
                    field "status" (opt_status e.status) (
                      field "reason" (opt_reason e.reason) (
                        field "quantity" (opt_num e.quantity) (
                          field "price" (opt_num e.price)
                            (field "metadata" (obj e.metadata) end))))))))))))

  event_dicts : List (ExecutionEvent F) → Items F
  unfolding event_to_dict
  event_dicts [] = nil
  event_dicts (e ∷ es) = cons (obj (event_to_dict e)) (event_dicts es)

  -- `ExecutionResult.to_dict`
  unfoldable result_to_dict : ExecutionResult F → Fields F
  unfolding event_dicts
  result_to_dict r = field "intent_id" (text r.intent_id) (
      field "operation_id" (text r.operation_id) (
        field "status" (text (execution_status_value r.status)) (
          field "reason" (opt_reason r.reason) (
            field "gateway_order_id" (opt_text r.gateway_order_id) (
              field "capability" (opt_capability r.capability) (
                field "events" (arr (event_dicts r.events))
                  (field "metadata" (obj r.metadata) end)))))))

  -- `ExecutionResult.from_accepted`
  unfoldable pub from_accepted :
      String
      → String
      → ExecutionStatus
      → List (ExecutionEvent F)
      → Option String
      → Fields F
      → ExecutionResult F
  from_accepted intent_id operation_id status events order_id metadata = record {
    intent_id = intent_id;
    operation_id = operation_id;
    status = status;
    reason = none;
    gateway_order_id = order_id;
    capability = none;
    events = events;
    metadata = metadata;
  }

  -- `ExecutionResult.unsupported`
  unfoldable pub unsupported : String → String → GatewayCapability → GatewayMode → ExecutionResult F
  unsupported intent_id operation_id capability gateway = record {
    intent_id = intent_id;
    operation_id = operation_id;
    status = ExecutionStatus.rejected;
    reason = some ExecutionReason.unsupported_capability;
    gateway_order_id = none;
    capability = some capability;
    events = [];
    metadata = field "gateway" (text (gateway_mode_value gateway)) end;
  }

  -- `ExecutionResult.accepted`
  unfoldable pub accepted : ExecutionResult F → Bool
  accepted r = elim r.status [
    | ExecutionStatus.submitted ↦ true
    | ExecutionStatus.accepted ↦ true
    | ExecutionStatus.filled ↦ true
    | _ ↦ false
  ]

pub record ReconcileRequest (F : Type 0) : Type 0 where
  pub gateway : GatewayMode
  pub staged_execution_mode : String
  pub symbol : String
  pub trade_id : Option String
  pub metadata : Fields F

pub record ReconcileResult (F : Type 0) : Type 0 where
  pub request : ReconcileRequest F
  pub positions : List (PositionView F)
  pub orders : List (OrderView F)
  pub protections : List (ProtectionOrderView F)
  pub events : List (ExecutionEvent F)
  pub gaps : List String

-- an identifier that is missing or empty reads as `all`
abbrev trade_key : Option String → String
trade_key none = "all"
trade_key (some t) = elim (is_empty t) [ true ↦ "all" | false ↦ t ]

module _ {F : Type 0} where
  -- `ReconcileRequest(...)` with its `__post_init__`
  unfoldable make_request : ReconcileRequest F → Result ValueError (ReconcileRequest F)
  unfolding require_text
  make_request r = do symbol ← require_text r.symbol "symbol"; ok (record r { symbol = symbol })

  -- `ReconcileRequest.idempotency_key`
  unfoldable request_key : ReconcileRequest F → String
  request_key r = join (gateway_mode_value r.gateway) (
      join ":"
        (join r.staged_execution_mode (join ":" (join r.symbol (join ":" (trade_key r.trade_id))))))

  -- `ReconcileResult.has_gaps`
  unfoldable has_gaps : ReconcileResult F → Bool
  has_gaps r = elim r.gaps [ [] ↦ false | _ ∷ _ ↦ true ]
