-- ===== src/Gateway/Backtrader.antt =====
-- `BacktraderExecutionGateway` of execution/gateways.py. The strategy's `buy`, `sell` and `cancel`, which
-- are backtrader's, are a parameter: from the calls made so far and the call at hand to an order, if one
-- is made, or an exception. An order is its `ref`, as a text.
pub mod Linked
use chainer_trader.Prelude.{
  ◌≡◌, Bool, true, false, not, Option, none, some, List, [], ◌∷◌, ◌++◌, String, Result, ok, err,
  is_some, map, if◌then◌else◌,
}
use chainer_trader.Prelude.Exec.{Exec, pure, ◌>>=◌, ◌>>◌}
use chainer_trader.Prelude.Float.{Float}
use chainer_trader.Execution.Payload.{Value, null, text, end, lookup}
use chainer_trader.Execution.Kinds.{
  GatewayMode, GatewayCapability, ExecutionStatus, ExecutionEventType, ExecutionSide,
}
use chainer_trader.Execution.Order.{OrderIntent}
use chainer_trader.Execution.Risk.{RiskIntent}
use chainer_trader.Execution.Outcome.{
  ExecutionResult, ReconcileRequest, ReconcileResult, from_accepted,
}
use chainer_trader.Gateway.Payloads.{str_of}
use chainer_trader.Gateway.Events.{
  GatewayCapabilities, risk_event, accepted_order_result, risk_price,
}
use chainer_trader.Gateway.Exchange.{joined_ids}
use chainer_trader.Gateway.Live.{is_truthy}

-- The arguments of `strategy.buy` or `strategy.sell`.
pub record Submission (F : Type 0) : Type 0 where
  pub is_buy : Bool
  pub size : Option F
  pub exectype : Option String
  pub price : Option F
  pub trade_id : Option String
  pub oco : Option String
  pub role : String

pub data Call (F : Type 0) : Type 0 where
  submission : Submission F → Call F
  cancellation : Option (Value F) → Call F

-- the history is the newest call first
abbrev pub Broker : Type 0 → Type 0
Broker F = List (Call F) → Call F → Result String (Option String)

abbrev gateway_mode : GatewayMode
gateway_mode = GatewayMode.backtrader

abbrev pub is_long : ExecutionSide → Bool
is_long ExecutionSide.long = true
is_long ExecutionSide.short = false

unfoldable pub capabilities : GatewayCapabilities
capabilities = record {
  gateway = gateway_mode;
  supported =
      GatewayCapability.market_entry ∷ GatewayCapability.market_close
      ∷ GatewayCapability.protective_stop ∷ GatewayCapability.take_profit_limit
      ∷ GatewayCapability.oco_protection ∷ GatewayCapability.breakeven_replacement
      ∷ GatewayCapability.cancel_order ∷ GatewayCapability.reconcile ∷ [];
  native_protection = false;
  local_guardian = false;
}

-- the ids of the orders that were made
abbrev pub made : List (Option String) → List String
made [] = []
made (none ∷ os) = made os
made (some r ∷ os) = r ∷ made os

module _ {F : Type 0} where
  abbrev pub market : OrderIntent F → Bool → String → Submission F
  market i is_buy role = record {
    is_buy = is_buy;
    size = i.quantity;
    exectype = none;
    price = none;
    trade_id = i.trade_id;
    oco = none;
    role = role;
  }

  abbrev pub protective : RiskIntent F → String → F → Option String → String → Submission F
  protective i exectype price oco role = record {
    is_buy = not (is_long i.side);
    size = some i.quantity;
    exectype = some exectype;
    price = some price;
    trade_id = some i.trade_id;
    oco = oco;
    role = role;
  }

module _ {F : Type 0} ⦃fl : Float F⦄ (repr : Value F → String) (broker : Broker F)
    (mode : String) where
  abbrev Act : Type 0 → Type 0
  Act A = Exec String (List (Call F)) A

  abbrev pub call : Call F → Act (Option String)
  call c h = (broker h c, c ∷ h)

  -- `_submit_market`
  unfoldable pub submit_market : OrderIntent F → Bool → Act (Option String)
  submit_market i opening = call (
      submission (
        if opening
        then market i (is_long i.side) "entry"
        else market i (not (is_long i.side)) "exit"))

  abbrev accepted_market : OrderIntent F → Option String → ExecutionResult F
  accepted_market i order =
      accepted_order_result gateway_mode mode i ExecutionStatus.accepted order
        (ExecutionStatus.submitted ∷ ExecutionStatus.accepted ∷ [])

  unfoldable pub open_position : OrderIntent F → Act (ExecutionResult F)
  unfolding submit_market
  open_position i = submit_market i true >>= λ order. pure (accepted_market i order)

  unfoldable pub close_position : OrderIntent F → Act (ExecutionResult F)
  unfolding submit_market
  close_position i = submit_market i false >>= λ order. pure (accepted_market i order)

  unfoldable pub protection_result : RiskIntent F → String → ExecutionEventType → ExecutionResult F
  unfolding from_accepted
  protection_result i order_id type =
      from_accepted i.intent_id i.operation_id ExecutionStatus.accepted
        (risk_event gateway_mode mode i type (some order_id) ExecutionStatus.accepted none
            (risk_price i.stop_price i.take_profit_price) i.metadata
          ∷ [])
        (some order_id) end

  -- the stop's order, and the orders so far
  abbrev pub place_stop : RiskIntent F → Option F → Act (Option String × List (Option String))
  place_stop i none = pure (none, [])
  place_stop i (some price) = call (submission (protective i "stop" price none "stop")) >>= λ order.
      pure (order, order ∷ [])

  abbrev pub place_target :
      RiskIntent F → Option F → Option String → List (Option String) → Act (List (Option String))
  place_target i none oco orders = pure orders
  place_target i (some price) oco orders =
      call (submission (protective i "limit" price oco "take_profit")) >>= λ order.
      pure (orders ++ (order ∷ []))

  abbrev pub place_orders : RiskIntent F → Option F → Option F → Act (List (Option String))
  place_orders i stop target =
      place_stop i stop >>= λ placed. place_target i target placed.0 placed.1

  unfoldable pub place_protection : RiskIntent F → Act (ExecutionResult F)
  unfolding protection_result
  place_protection i = place_orders i i.stop_price i.take_profit_price >>= λ orders.
      pure (protection_result i (joined_ids (made orders)) ExecutionEventType.protection_armed)

  abbrev cancel_replaced : Option String → Act Unit
  cancel_replaced none = pure tt
  cancel_replaced (some order) = call (cancellation (some (text order))) >> pure tt

  unfoldable pub replace_protection : RiskIntent F → Act (ExecutionResult F)
  unfolding place_protection
  replace_protection i = cancel_replaced i.replacement_of_order_id >> place_protection i

  -- `a or b`
  abbrev or_value : Option (Value F) → Option (Value F) → Option (Value F)
  or_value none b = b
  or_value (some v) b = if is_truthy v then some v else b

  abbrev str_of_order : Option (Value F) → Option String
  str_of_order none = none
  str_of_order (some null) = none
  str_of_order (some v) = some (str_of repr v)

  unfoldable pub cancel_order : OrderIntent F → Act (ExecutionResult F)
  cancel_order i =
      let order = or_value (lookup "order" i.metadata) (lookup "order_id" i.metadata) in
      call (cancellation order)
      >> pure (
          accepted_order_result gateway_mode mode i ExecutionStatus.canceled (str_of_order order)
            (ExecutionStatus.canceled ∷ []))

  abbrev reconcile : ReconcileRequest F → ReconcileResult F
  reconcile request = record {
    request = request;
    positions = [];
    orders = [];
    protections = [];
    events = [];
    gaps = [];
  }
