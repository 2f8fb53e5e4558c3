-- ===== src/Execution/Order.antt =====
-- `OrderIntent` of execution/models.py: its validation, constructors, key and payload.
pub mod Valid
use chainer_trader.Prelude.{
  ◌⊎◌, inl, Bool, true, false, ◌&&◌, ◌||◌, Option, none, some, String, Result, ok, err, ◌>>=◌, ◌>>◌,
  raise_if, is_none, is_some, if◌then◌else◌,
}
use chainer_trader.Prelude.Float.{Float}
use chainer_trader.Prelude.Text.{strip, is_empty, join}
use chainer_trader.Execution.Payload.{Fields, text, obj, opt_num, opt_text, end, field}
use chainer_trader.Execution.Enums.{
  ValueError, required, not_positive, size_required, normalize_enum,
}
use chainer_trader.Execution.Kinds.{
  ExecutionSide, OrderIntentType, execution_side_value, order_intent_type_value,
  execution_side_enum, order_intent_type_enum,
}

-- `_require_text`
unfoldable pub require_text : String → String → Result ValueError String
unfolding strip
require_text value name =
    let text = strip value in if is_empty text then err (required name) else ok text

module _ {F : Type 0} ⦃fl : Float F⦄ where
  -- `_require_positive`
  unfoldable pub require_positive : Option F → String → Result ValueError (Option F)
  require_positive none name = ok none
  require_positive (some number) name =
      if fl.le number fl.zero_f then err (not_positive name) else ok (some number)

pub record OrderIntent (F : Type 0) : Type 0 where
  pub intent_id : String
  pub operation_id : String
  pub symbol : String
  pub side : ExecutionSide
  pub intent_type : OrderIntentType
  pub quantity : Option F
  pub notional : Option F
  pub price : Option F
  pub trade_id : Option String
  pub signal_event_id : Option String
  pub metadata : Fields F

-- The keyword arguments of `OrderIntent.entry` and `OrderIntent.close`.
pub record OrderArgs (F : Type 0) : Type 0 where
  pub intent_id : String
  pub operation_id : String
  pub symbol : String
  pub side : ExecutionSide ⊎ String
  pub quantity : Option F
  pub notional : Option F
  pub price : Option F
  pub trade_id : Option String
  pub signal_event_id : Option String
  pub metadata : Fields F

-- the two kinds of intent that need a size
abbrev pub is_sized_type : OrderIntentType → Bool
is_sized_type OrderIntentType.entry = true
is_sized_type OrderIntentType.close = true
is_sized_type OrderIntentType.cancel = false

module _ {F : Type 0} ⦃fl : Float F⦄ where
  -- the last check of `__post_init__`, on the fields as they are set
  pub check_order_size : OrderIntent F → Result ValueError (OrderIntent F)
  check_order_size o =
      if is_sized_type o.intent_type && (is_none o.quantity && is_none o.notional)
      then err size_required
      else ok o

  -- `OrderIntent(...)` with its `__post_init__`
  unfoldable pub make_order :
      OrderIntentType ⊎ String → OrderArgs F → Result ValueError (OrderIntent F)
  unfolding require_text require_positive normalize_enum check_order_size
  make_order kind a = do
    intent_id ← require_text a.intent_id "intent_id"
    operation_id ← require_text a.operation_id "operation_id"
    symbol ← require_text a.symbol "symbol"
    side ← normalize_enum a.side
    intent_type ← normalize_enum kind
    quantity ← require_positive a.quantity "quantity"
    notional ← require_positive a.notional "notional"
    price ← require_positive a.price "price"
    check_order_size (record {
      intent_id = intent_id;
      operation_id = operation_id;
      symbol = symbol;
      side = side;
      intent_type = intent_type;
      quantity = quantity;
      notional = notional;
      price = price;
      trade_id = a.trade_id;
      signal_event_id = a.signal_event_id;
      metadata = a.metadata;
    })

  -- `OrderIntent.entry`
  unfoldable pub entry : OrderArgs F → Result ValueError (OrderIntent F)
  unfolding make_order
  entry a = make_order (inl OrderIntentType.entry) a

  -- `OrderIntent.close`
  unfoldable pub close : OrderArgs F → Result ValueError (OrderIntent F)
  unfolding make_order
  close a = make_order (inl OrderIntentType.close) a

module _ {F : Type 0} where
  -- `OrderIntent.idempotency_key`
  unfoldable pub order_key : OrderIntent F → String
  order_key o =
      join o.intent_id
        (join ":" (join o.operation_id (join ":" (order_intent_type_value o.intent_type))))

  -- `OrderIntent.to_dict`
  unfoldable pub order_to_dict : OrderIntent F → Fields F
  unfolding order_key
  order_to_dict o = field "intent_id" (text o.intent_id) (
      field "operation_id" (text o.operation_id) (
        field "symbol" (text o.symbol) (
          field "side" (text (execution_side_value o.side)) (
            field "intent_type" (text (order_intent_type_value o.intent_type)) (
              field "quantity" (opt_num o.quantity) (
                field "notional" (opt_num o.notional) (
                  field "price" (opt_num o.price) (
                    field "trade_id" (opt_text o.trade_id) (
                      field "signal_event_id" (opt_text o.signal_event_id) (
                        field "metadata" (obj o.metadata)
                          (field "idempotency_key" (text (order_key o)) end)))))))))))
