-- ===== src/Tests/Gateways.antt =====
-- The theorems on the gateways at concrete intents.
use chainer_trader.Prelude.{
  ◌≡◌, refl, Bool, true, false, not, none, some, List, [], String, ok, Returns,
}
use chainer_trader.Prelude.Exec.{Exec}
use chainer_trader.Prelude.Int.{ℤ, pos}
use chainer_trader.Prelude.Float.{Float, int_float}
use chainer_trader.Common.Interval.{Symbol}
use chainer_trader.Execution.Payload.{Value, text, obj, field, end}
use chainer_trader.Execution.Kinds.{
  ExecutionSide, OrderIntentType, ProtectionIntentType, RiskIntentAction,
}
use chainer_trader.Execution.Order.{OrderIntent}
use chainer_trader.Execution.Risk.{RiskIntent}
use chainer_trader.Execution.Outcome.{accepted}
use chainer_trader.Gateway.Events.{supports}
use chainer_trader.Gateway.Exchange.{Exchange, capabilities}
use chainer_trader.Gateway.Live.{open_position, close_position}
use chainer_trader.Gateway.Live.Answers.{IsAnswer}
use chainer_trader.Gateway.Protection.{place_protection, replace_protection, needed}
use chainer_trader.Gateway.Protection.Armed.{gateway-IsAnswer, place_protection_verified}
use chainer_trader.Gateway.Protection.Supported.{is_unsupported, place_protection_unsupported}
use chainer_trader.Gateway.Backtrader
use chainer_trader.Gateway.Backtrader.{Broker}
use chainer_trader.Gateway.Backtrader.Linked.{IsProtection, place_protection-IsProtection}

instance float_ℤ : Float ℤ
float_ℤ = int_float

abbrev repr : Value ℤ → String
repr v = "?"

abbrev entry : OrderIntent ℤ
entry = record {
  intent_id = "intent:7";
  operation_id = "op";
  symbol = "BTCUSDT";
  side = ExecutionSide.long;
  intent_type = OrderIntentType.entry;
  quantity = some (pos 2);
  notional = none;
  price = some (pos 100);
  trade_id = none;
  signal_event_id = none;
  metadata = end;
}

abbrev bracket : RiskIntent ℤ
bracket = record {
  intent_id = "risk:7";
  operation_id = "op";
  symbol = "BTCUSDT";
  side = ExecutionSide.long;
  protection_type = ProtectionIntentType.bracket;
  action = RiskIntentAction.place_protection;
  trade_id = "3";
  quantity = pos 2;
  stop_price = some (pos 90);
  take_profit_price = some (pos 120);
  replacement_of_order_id = none;
  signal_event_id = none;
  metadata = end;
}

abbrev answer : Value ℤ
answer = obj (field "orderId" (text "17") end)

-- An exchange that answers every order, and verifies none; its state counts nothing.
abbrev test_exchange : Exchange ℤ Bool
test_exchange = record {
  new_order = λ s op q x. (ok answer, x);
  new_oco_order = some (λ s op q stop target x. (ok answer, x));
  new_stop_order = none;
  new_take_profit_order = none;
  replace_stop_order = none;
  cancel_order = none;
  delete_order = none;
  verify_order_ids = some (λ s ids x. (ok false, x));
  get_position_view = none;
  get_open_protection_orders = none;
  supported_gateway_capabilities = none;
}

gateway-IsAnswer_example :
    (Returns (IsAnswer "intent:7" "op") (open_position repr test_exchange "auto_trade" entry true).0
      × Returns
          (IsAnswer "intent:7" "op")
          (close_position repr test_exchange "auto_trade" entry true).0)
    × Returns
        (IsAnswer "risk:7" "op")
        (place_protection repr test_exchange "auto_trade" bracket true).0
    × Returns
        (IsAnswer "risk:7" "op")
        (replace_protection repr test_exchange "auto_trade" bracket true).0
gateway-IsAnswer_example = gateway-IsAnswer repr test_exchange "auto_trade" entry bracket true

abbrev never : Symbol → List String → Exec String Bool Bool
never s ids x = (ok false, x)

place_protection_verified_example :
    Returns
      (λ r. accepted r ≡ false)
      (place_protection repr test_exchange "auto_trade" bracket true).0
place_protection_verified_example =
    place_protection_verified repr test_exchange "auto_trade" never bracket true refl
      (record { at = λ s ids x. refl })

place_protection_unsupported_example :
    Returns
      (λ r.
        is_unsupported r
        ≡ not (
            supports
              (capabilities test_exchange)
              (needed bracket.stop_price bracket.take_profit_price)))
      (place_protection repr test_exchange "auto_trade" bracket true).0
place_protection_unsupported_example =
    place_protection_unsupported repr test_exchange "auto_trade" bracket true refl

-- a broker that numbers its orders by role
abbrev test_broker : Broker ℤ
test_broker h call = ok (some "41")

place_protection-IsProtection_example :
    IsProtection test_broker bracket
      (some (pos 90))
      (some (pos 120))
      (Backtrader.place_protection repr test_broker "backtrader" bracket []).1
place_protection-IsProtection_example =
    place_protection-IsProtection repr test_broker "backtrader" bracket
