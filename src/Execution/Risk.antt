-- ===== src/Execution/Risk.antt =====
-- `RiskIntent` of execution/models.py: its validation, constructors, key and payload.
pub mod Valid
use chainer_trader.Prelude.{
  ◌⊎◌, inl, Bool, true, false, ◌&&◌, Option, none, some, String, Result, ok, err, ◌>>=◌, is_none,
  if◌then◌else◌,
}
use chainer_trader.Prelude.Float.{Float}
use chainer_trader.Prelude.Text.{join}
use chainer_trader.Execution.Payload.{Fields, num, text, obj, opt_num, opt_text, end, field}
use chainer_trader.Execution.Enums.{
  ValueError, not_positive, protection_required, replacement_stop_required, normalize_enum,
}
use chainer_trader.Execution.Kinds.{
  ExecutionSide, ProtectionIntentType, RiskIntentAction, execution_side_value,
  protection_intent_type_value, risk_intent_action_value, execution_side_enum,
}
use chainer_trader.Execution.Order.{require_text, require_positive}

pub record RiskIntent (F : Type 0) : Type 0 where
  pub intent_id : String
  pub operation_id : String
  pub symbol : String
  pub side : ExecutionSide
  pub protection_type : ProtectionIntentType
  pub action : RiskIntentAction
  pub trade_id : String
  pub quantity : F
  pub stop_price : Option F
  pub take_profit_price : Option F
  pub replacement_of_order_id : Option String
  pub signal_event_id : Option String
  pub metadata : Fields F

-- The keyword arguments that the constructors share.
pub record RiskArgs (F : Type 0) : Type 0 where
  pub intent_id : String
  pub operation_id : String
  pub symbol : String
  pub side : ExecutionSide ⊎ String
  pub trade_id : String
  pub quantity : F
  pub signal_event_id : Option String
  pub metadata : Fields F

abbrev pub is_place : RiskIntentAction → Bool
is_place RiskIntentAction.place_protection = true
is_place RiskIntentAction.replace_protection = false
is_place RiskIntentAction.cancel_protection = false

abbrev pub is_replace : RiskIntentAction → Bool
is_replace RiskIntentAction.place_protection = false
is_replace RiskIntentAction.replace_protection = true
is_replace RiskIntentAction.cancel_protection = false

module _ {F : Type 0} ⦃fl : Float F⦄ where
  -- `_require_positive` on a number that is given
  pub require_positive_number : F → String → Result ValueError F
  require_positive_number number name =
      if fl.le number fl.zero_f then err (not_positive name) else ok number

  -- the last two checks of `__post_init__`
  pub check_protection : RiskIntent F → Result ValueError (RiskIntent F)
  check_protection r =
      if is_place r.action && (is_none r.stop_price && is_none r.take_profit_price)
      then err protection_required
      else if is_replace r.action && is_none r.stop_price
      then err replacement_stop_required
      else ok r

  -- `RiskIntent(...)` with its `__post_init__`; both constructors pass members for the types
  pub make_risk :
      ProtectionIntentType
      → RiskIntentAction
      → Option F
      → Option F
      → Option String
      → RiskArgs F
      → Result ValueError (RiskIntent F)
  unfolding require_text require_positive require_positive_number normalize_enum check_protection
  make_risk kind action stop target replaced a = do
    intent_id ← require_text a.intent_id "intent_id"
    operation_id ← require_text a.operation_id "operation_id"
    symbol ← require_text a.symbol "symbol"
    trade_id ← require_text a.trade_id "trade_id"
    side ← normalize_enum a.side
    quantity ← require_positive_number a.quantity "quantity"
    stop_price ← require_positive stop "stop_price"
    take_profit_price ← require_positive target "take_profit_price"
    check_protection (record {
      intent_id = intent_id;
      operation_id = operation_id;
      symbol = symbol;
      side = side;
      protection_type = kind;
      action = action;
      trade_id = trade_id;
      quantity = quantity;
      stop_price = stop_price;
      take_profit_price = take_profit_price;
      replacement_of_order_id = replaced;
      signal_event_id = a.signal_event_id;
      metadata = a.metadata;
    })

  -- the protection type that `RiskIntent.place_protection` picks
  abbrev pub protection_type_for : Option F → Option F → ProtectionIntentType
  protection_type_for (some stop) (some target) = ProtectionIntentType.bracket
  protection_type_for (some stop) none = ProtectionIntentType.stop_loss
  protection_type_for none target = ProtectionIntentType.take_profit

  -- `RiskIntent.place_protection`
  unfoldable pub place_protection :
      Option F → Option F → RiskArgs F → Result ValueError (RiskIntent F)
  unfolding make_risk
  place_protection stop target a =
      make_risk (protection_type_for stop target) RiskIntentAction.place_protection stop target none
        a

  -- `RiskIntent.replace_stop`
  unfoldable pub replace_stop : F → Option String → RiskArgs F → Result ValueError (RiskIntent F)
  unfolding make_risk
  replace_stop stop replaced a =
      make_risk ProtectionIntentType.replace_stop RiskIntentAction.replace_protection (some stop)
        none replaced a

module _ {F : Type 0} where
  -- `RiskIntent.idempotency_key`
  unfoldable pub risk_key : RiskIntent F → String
  risk_key r =
      join r.intent_id
        (join ":" (join r.operation_id (join ":" (risk_intent_action_value r.action))))

  -- `RiskIntent.to_dict`
  unfoldable pub risk_to_dict : RiskIntent F → Fields F
  unfolding risk_key
  risk_to_dict r = field "intent_id" (text r.intent_id) (
      field "operation_id" (text r.operation_id) (
        field "symbol" (text r.symbol) (
          field "side" (text (execution_side_value r.side)) (
            field "protection_type" (text (protection_intent_type_value r.protection_type)) (
              field "action" (text (risk_intent_action_value r.action)) (
                field "trade_id" (text r.trade_id) (
                  field "quantity" (num r.quantity) (
                    field "stop_price" (opt_num r.stop_price) (
                      field "take_profit_price" (opt_num r.take_profit_price) (
                        field "replacement_of_order_id" (opt_text r.replacement_of_order_id) (
                          field "signal_event_id" (opt_text r.signal_event_id) (
                            field "metadata" (obj r.metadata)
                              (field "idempotency_key" (text (risk_key r)) end)))))))))))))
