-- ===== src/Tests/Inputs.antt =====
-- The theorems on intents, gateways and selections at concrete inputs.
use chainer_trader.Prelude.{
  ◌≡◌, refl, inl, inr, true, none, some, ok, err, Result, ◌||◌, is_some, [], ◌∷◌,
}
use chainer_trader.Prelude.Int.{ℤ, pos}
use chainer_trader.Prelude.Float.{Float, int_float}
use chainer_trader.Prelude.Text.Show.{show_int}
use chainer_trader.Execution.Payload.{end}
use chainer_trader.Execution.Kinds.{
  ExecutionSide, OrderIntentType, ProtectionIntentType, RiskIntentAction, GatewayMode,
  execution_side_enum,
}
use chainer_trader.Execution.Order.{OrderArgs, OrderIntent, make_order}
use chainer_trader.Execution.Order.Valid.{make_order-IsValid, make_order_fixed, args_of, IsValid}
use chainer_trader.Execution.Risk.{RiskArgs, RiskIntent, place_protection}
use chainer_trader.Execution.Risk.Valid.{IsValid as IsValidRisk, place_protection-kind}
use chainer_trader.Execution.Resolver.{
  StagedMode, ResolvedExecutionGateway, resolve_execution_gateway,
}
use chainer_trader.Execution.Resolver.Safe.{
  IsSafe as IsSafeGateway, resolve_execution_gateway-IsSafe,
}
use chainer_trader.Execution.Semantics.{
  SemanticsError, Selection, first_number, stop_price_of, take_profit_of, operation_id_of,
  Operation, OperateType,
}
use chainer_trader.Execution.Selection.{select_order_semantics}
use chainer_trader.Execution.Selection.Placed.{Guarded, select_order_semantics-Guarded}

instance float_ℤ : Float ℤ
float_ℤ = int_float

abbrev order_args : OrderArgs ℤ
order_args = record {
  intent_id = " intent:7 ";
  operation_id = "op";
  symbol = "BTCUSDT";
  side = inr "long";
  quantity = some (pos 2);
  notional = none;
  price = some (pos 100);
  trade_id = none;
  signal_event_id = none;
  metadata = end;
}

abbrev order_built : OrderIntent ℤ
order_built = record {
  intent_id = "intent:7";
  operation_id = "op";
  symbol = "BTCUSDT";
  side = ExecutionSide.long;
  intent_type = OrderIntentType.entry;
  quantity = some (pos 2);
  notional = none;
  price = some (pos 100);
  trade_id = none;
  signal_event_id = none;
  metadata = end;
}

order_built_lem : make_order (inr "entry") order_args ≡ ok order_built
unfolding make_order float_ℤ
order_built_lem = refl

make_order-IsValid_example : IsValid order_built
make_order-IsValid_example = make_order-IsValid (inr "entry") order_args order_built_lem

make_order_fixed_example :
    make_order (inl OrderIntentType.entry) (args_of order_built) ≡ ok order_built
make_order_fixed_example = make_order_fixed order_built make_order-IsValid_example

abbrev risk_args : RiskArgs ℤ
risk_args = record {
  intent_id = "risk:7";
  operation_id = "op";
  symbol = "BTCUSDT";
  side = inr "short";
  trade_id = "3";
  quantity = pos 2;
  signal_event_id = none;
  metadata = end;
}

abbrev risk_built : RiskIntent ℤ
risk_built = record {
  intent_id = "risk:7";
  operation_id = "op";
  symbol = "BTCUSDT";
  side = ExecutionSide.short;
  protection_type = ProtectionIntentType.bracket;
  action = RiskIntentAction.place_protection;
  trade_id = "3";
  quantity = pos 2;
  stop_price = some (pos 110);
  take_profit_price = some (pos 90);
  replacement_of_order_id = none;
  signal_event_id = none;
  metadata = end;
}

risk_built_lem : place_protection (some (pos 110)) (some (pos 90)) risk_args ≡ ok risk_built
unfolding place_protection float_ℤ
risk_built_lem = refl

place_protection-kind_example :
    IsValidRisk risk_built
    × (risk_built.stop_price ≡ some (pos 110))
    × (risk_built.take_profit_price ≡ some (pos 90))
    × (true ≡ true)
    × (risk_built.protection_type ≡ ProtectionIntentType.bracket)
place_protection-kind_example =
    place_protection-kind (some (pos 110)) (some (pos 90)) risk_args risk_built_lem

abbrev live_gateway : ResolvedExecutionGateway ℤ
live_gateway = record {
  requested_gateway = some GatewayMode.binance_live;
  gateway_mode = GatewayMode.binance_live;
  staged_execution_mode = StagedMode.auto_trade;
  can_submit_orders = true;
  requires_live_order_cap = true;
  max_notional = some (pos 50);
}

live_gateway_lem :
    resolve_execution_gateway (some " AUTO_trade") (some (inr "binance_live")) (some (pos 50))
    ≡ ok live_gateway
unfolding resolve_execution_gateway float_ℤ
live_gateway_lem = refl

resolve_execution_gateway-IsSafe_example :
    IsSafeGateway (some " AUTO_trade") (some (inr "binance_live")) (some (pos 50)) live_gateway
resolve_execution_gateway-IsSafe_example =
    resolve_execution_gateway-IsSafe (some " AUTO_trade") (some (inr "binance_live"))
      (some (pos 50)) live_gateway_lem

-- a long at 100 with a stop at 90
abbrev long_operation : Operation ℤ
long_operation = record {
  otype = OperateType.long;
  dtime = pos 1700;
  price = some (pos 100);
  price_text = "100";
  stop_loss = some (pos 90);
  take_profit = none;
  signal_event_id = none;
  breakeven_new_stop = none;
  protection_order_id = none;
  metadata = end;
  trade_stop_price = none;
  trade_initial_stop_price = none;
  suggested_stop_price = none;
  trade_take_profit = none;
  framework_trade_id = some "3";
}

abbrev selected : Result SemanticsError (Selection ℤ) → Selection ℤ
selected (ok s) = s
selected (err e) = record { order = none; risk = none }

unfoldable long_selection : Selection ℤ
unfolding select_order_semantics float_ℤ
long_selection =
    selected
      (select_order_semantics long_operation "BTCUSDT" ExecutionSide.long (pos 2) none none true)

long_selection_lem :
    select_order_semantics long_operation "BTCUSDT" ExecutionSide.long (pos 2) none none true
    ≡ ok long_selection
unfolding select_order_semantics long_selection float_ℤ show_int operation_id_of
long_selection_lem = refl

select_order_semantics-Guarded_example :
    Guarded true ExecutionSide.long
      (first_number (some (pos 100) ∷ []))
      (is_some (stop_price_of long_operation) || is_some (take_profit_of long_operation))
      long_selection
select_order_semantics-Guarded_example =
    select_order_semantics-Guarded long_operation "BTCUSDT" ExecutionSide.long (pos 2) none none
      true refl long_selection_lem
