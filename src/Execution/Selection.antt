-- ===== src/Execution/Selection.antt =====
-- `select_order_semantics` of execution/order_semantics.py: an order, and its protection.
pub mod Placed
use chainer_trader.Prelude.{
  ◌⊎◌, inl, Bool, true, false, not, ◌&&◌, ◌||◌, Option, none, some, List, [], ◌∷◌, String, Result,
  ok, err, ◌>>=◌, ◌>>◌, is_none, is_some, raise_if, or_else, if◌then◌else◌,
}
use chainer_trader.Prelude.Int.{ℤ}
use chainer_trader.Prelude.Float.{Float}
use chainer_trader.Prelude.Text.{join, is_empty}
use chainer_trader.Prelude.Text.Show.{show_int}
use chainer_trader.Execution.Payload.{Fields}
use chainer_trader.Execution.Enums.{ValueError}
use chainer_trader.Execution.Kinds.{ExecutionSide}
use chainer_trader.Execution.Order.{OrderIntent, OrderArgs, entry, close}
use chainer_trader.Execution.Risk.{RiskIntent, RiskArgs, place_protection, replace_stop}
use chainer_trader.Execution.Semantics.{
  OperateType, SemanticsError, invalid, stop_required, needs_native, Operation, Selection,
  intent_id_of, operation_id_of, resolved_trade_id, first_number, stop_price_of, take_profit_of,
  validate_protection_prices,
}

abbrev pub or_invalid : {A : Type 0} → Result ValueError A → Result SemanticsError A
or_invalid (ok a) = ok a
or_invalid (err e) = err (invalid e)

abbrev pub optional : {A : Type 0} → Result ValueError A → Result SemanticsError (Option A)
optional (ok a) = ok (some a)
optional (err e) = err (invalid e)

abbrev pub is_risk_update : OperateType → Bool
is_risk_update OperateType.risk_update = true
is_risk_update _ = false

module _ {F : Type 0} ⦃fl : Float F⦄ where
  -- the keyword arguments of `_order_intent`
  abbrev order_args : Operation F → String → ExecutionSide → F → Option F → String → OrderArgs F
  order_args op symbol side quantity notional trade_id = record {
    intent_id = intent_id_of op;
    operation_id = operation_id_of op;
    symbol = symbol;
    side = inl side;
    quantity = some quantity;
    notional = notional;
    price = first_number (op.price ∷ []);
    trade_id = some trade_id;
    signal_event_id = op.signal_event_id;
    metadata = op.metadata;
  }

  -- `_order_intent`
  pub order_intent_of : OperateType → OrderArgs F → Result SemanticsError (Option (OrderIntent F))
  unfolding entry close
  order_intent_of OperateType.buy a = optional (entry a)
  order_intent_of OperateType.long a = optional (entry a)
  order_intent_of OperateType.short a = optional (entry a)
  order_intent_of OperateType.sell a = optional (close a)
  order_intent_of OperateType.close_all a = optional (close a)
  order_intent_of OperateType.risk_update a = ok none
  order_intent_of OperateType.unknown a = ok none

  abbrev pub risk_args : Operation F → String → ExecutionSide → F → String → RiskArgs F
  risk_args op symbol side quantity trade_id = record {
    intent_id = join "risk:" (intent_id_of op);
    operation_id = operation_id_of op;
    symbol = symbol;
    side = inl side;
    trade_id = trade_id;
    quantity = quantity;
    signal_event_id = op.signal_event_id;
    metadata = op.metadata;
  }

  -- the first branch of `select_order_semantics`, on the stop price that it finds
  select_replacement :
      Bool → Option F → Option String → RiskArgs F → Result SemanticsError (Selection F)
  unfolding replace_stop
  select_replacement allow none replaced a = err stop_required
  select_replacement allow (some stop) replaced a = do
    raise_if (not allow) needs_native
    risk ← or_invalid (replace_stop stop replaced a)
    ok (record { order = none; risk = some risk })

  -- the order with its protection
  pub protect :
      Bool
      → Option (OrderIntent F)
      → Option F
      → Option F
      → Option F
      → ExecutionSide
      → RiskArgs F
      → Result SemanticsError (Selection F)
  unfolding validate_protection_prices place_protection
  protect allow order e stop target side a = do
    raise_if (not allow) needs_native
    validate_protection_prices side e stop target
    risk ← or_invalid (place_protection stop target a)
    ok (record { order = order; risk = some risk })

  -- the rest of it, on the order and the prices
  pub select_protected :
      Bool
      → Option (OrderIntent F)
      → Option F
      → Option F
      → Option F
      → ExecutionSide
      → RiskArgs F
      → Result SemanticsError (Selection F)
  unfolding protect
  select_protected allow order e stop target side a =
      let protected = protect allow order e stop target side a in
      if is_none stop && is_none target
      then ok (record { order = order; risk = none })
      else protected

  -- `select_order_semantics`, with the side resolved
  unfoldable pub select_order_semantics :
      Operation F
      → String
      → ExecutionSide
      → F
      → Option F
      → Option String
      → Bool
      → Result SemanticsError (Selection F)
  unfolding resolved_trade_id select_replacement select_protected order_intent_of stop_price_of
      take_profit_of first_number
  select_order_semantics op symbol side quantity notional trade_id allow =
      let id = resolved_trade_id trade_id op in
      let risk = risk_args op symbol side quantity id in
      let stop = first_number (op.breakeven_new_stop ∷ op.stop_loss ∷ op.price ∷ []) in
      let replacement = select_replacement allow stop op.protection_order_id risk in
      let protected =
        order_intent_of op.otype (order_args op symbol side quantity notional id) >>= λ order.
        select_protected allow order (first_number (op.price ∷ [])) (stop_price_of op)
          (take_profit_of op) side risk in
      if is_risk_update op.otype || is_some op.breakeven_new_stop then replacement else protected
