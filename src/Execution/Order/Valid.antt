-- ===== src/Execution/Order/Valid.antt =====
-- What `OrderIntent.__post_init__` establishes.
use chainer_trader.Prelude.{
  ◌≡◌, ◌⊎◌, inl, Bool, true, false, not, ◌&&◌, Option, none, some, String, ok, arith, is_none,
  Returns, Returns-bind, Returns-any,
}
use chainer_trader.Prelude.Float.{Float}
use chainer_trader.Prelude.Text.{strip, strip_idem, is_empty}
use chainer_trader.Execution.Kinds.{OrderIntentType, execution_side_enum, order_intent_type_enum}
use chainer_trader.Execution.Enums.{normalize_enum}
use chainer_trader.Execution.Order.{
  OrderIntent, OrderArgs, make_order, is_sized_type, check_order_size, require_text,
  require_positive,
}

-- A text that is stripped and not empty.
abbrev pub IsText : String → Type 0
IsText s = (strip s ≡ s) × (is_empty s ≡ false)

module _ {F : Type 0} ⦃fl : Float F⦄ where
  -- A number that is absent, or does not compare as at most zero.
  abbrev pub is_not_at_most_zero : Option F → Bool
  is_not_at_most_zero none = true
  is_not_at_most_zero (some x) = not (fl.le x fl.zero_f)

  abbrev pub IsNotAtMostZero : Option F → Type 0
  IsNotAtMostZero v = is_not_at_most_zero v ≡ true

  pub record IsValid (o : OrderIntent F) : Type 0 where
    pub intent_id : IsText o.intent_id
    pub operation_id : IsText o.operation_id
    pub symbol : IsText o.symbol
    pub quantity : IsNotAtMostZero o.quantity
    pub notional : IsNotAtMostZero o.notional
    pub price : IsNotAtMostZero o.price
    pub sized : (is_sized_type o.intent_type && (is_none o.quantity && is_none o.notional)) ≡ false

pub require_text-IsText : (v n : String) → Returns IsText (require_text v n)
unfolding require_text
require_text-IsText v n = record { at = λ t h. ground (arith, strip_idem v) }

pub require_text_fixed : (v n : String) → IsText v → require_text v n ≡ ok v
unfolding require_text
require_text_fixed v n h = rw (h.0, h.1)

module _ {F : Type 0} ⦃fl : Float F⦄ where
  pub require_positive-IsNotAtMostZero :
      (v : Option F) (n : String) → Returns IsNotAtMostZero (require_positive v n)
  unfolding require_positive
  require_positive-IsNotAtMostZero v n = record { at = λ x h. ground arith }

  pub require_positive_fixed :
      (v : Option F) (n : String) → IsNotAtMostZero v → require_positive v n ≡ ok v
  unfolding require_positive
  require_positive_fixed v n h = ground arith

  check_order_size-Returns :
      (o : OrderIntent F)
      → IsText o.intent_id
      → IsText o.operation_id
      → IsText o.symbol
      → IsNotAtMostZero o.quantity
      → IsNotAtMostZero o.notional
      → IsNotAtMostZero o.price
      → Returns IsValid (check_order_size o)
  unfolding check_order_size
  check_order_size-Returns o i p s q n r = record { at = λ o' h. ground arith }

  make_order-Returns :
      (kind : OrderIntentType ⊎ String) (a : OrderArgs F) → Returns IsValid (make_order kind a)
  unfolding make_order
  make_order-Returns kind a = Returns-bind (require_text-IsText a.intent_id _) λ i hi.
      Returns-bind (require_text-IsText a.operation_id _) λ p hp.
        Returns-bind (require_text-IsText a.symbol _) λ s hs.
          Returns-bind (Returns-any (normalize_enum a.side)) λ d _.
            Returns-bind (Returns-any (normalize_enum kind)) λ k _.
              Returns-bind (require_positive-IsNotAtMostZero a.quantity _) λ q hq.
                Returns-bind (require_positive-IsNotAtMostZero a.notional _) λ n hn.
                  Returns-bind (require_positive-IsNotAtMostZero a.price _)
                    λ r hr. check_order_size-Returns _ hi hp hs hq hn hr

  -- An order intent that is built has stripped, non-empty identifiers, and a size if it enters or
  -- closes a position, and none of its numbers compares as at most zero, as a NaN does not.
  pub make_order-IsValid :
      (kind : OrderIntentType ⊎ String) (a : OrderArgs F) {o : OrderIntent F}
      → make_order kind a ≡ ok o
      → IsValid o
  make_order-IsValid kind a h = (make_order-Returns kind a).at _ h

  -- The arguments that a valid intent was built from.
  abbrev pub args_of : OrderIntent F → OrderArgs F
  args_of o = record {
    intent_id = o.intent_id;
    operation_id = o.operation_id;
    symbol = o.symbol;
    side = inl o.side;
    quantity = o.quantity;
    notional = o.notional;
    price = o.price;
    trade_id = o.trade_id;
    signal_event_id = o.signal_event_id;
    metadata = o.metadata;
  }

  -- A valid intent passes validation unchanged.
  pub make_order_fixed :
      (o : OrderIntent F) → IsValid o → make_order (inl o.intent_type) (args_of o) ≡ ok o
  unfolding make_order normalize_enum check_order_size
  make_order_fixed o v = rw (
    require_text_fixed o.intent_id "intent_id" v.intent_id,
    require_text_fixed o.operation_id "operation_id" v.operation_id,
    require_text_fixed o.symbol "symbol" v.symbol,
    require_positive_fixed o.quantity "quantity" v.quantity,
    require_positive_fixed o.notional "notional" v.notional,
    require_positive_fixed o.price "price" v.price,
    v.sized,
  )
