-- ===== src/Execution/Semantics.antt =====
-- execution/order_semantics.py: the intents that an operation of a strategy stands for.
-- An operation's optional attributes are options; `metadata` is what `_metadata_from_operation`
-- returns, of which the code reads four numbers.
use chainer_trader.Prelude.{
  Bool, false, not, ◌&&◌, ◌||◌, Option, none, some, List, [], ◌∷◌, String, Result, ok, err, ◌>>=◌,
  or_else, if◌then◌else◌,
}
use chainer_trader.Prelude.Int.{ℤ}
use chainer_trader.Prelude.Float.{Float}
use chainer_trader.Prelude.Text.{join, is_empty}
use chainer_trader.Prelude.Text.Show.{show_int}
use chainer_trader.Execution.Payload.{Fields}
use chainer_trader.Execution.Enums.{ValueError}
use chainer_trader.Execution.Kinds.{ExecutionSide}
use chainer_trader.Execution.Order.{OrderIntent}
use chainer_trader.Execution.Risk.{RiskIntent}

-- `OperateType` of utils/operate.py
pub data OperateType : Type 0 where
  unknown buy sell long short close_all risk_update : OperateType

-- `OperateType.name`
abbrev pub operate_name : OperateType → String
operate_name OperateType.unknown = "UNKNOWN"
operate_name OperateType.buy = "BUY"
operate_name OperateType.sell = "SELL"
operate_name OperateType.long = "LONG"
operate_name OperateType.short = "SHORT"
operate_name OperateType.close_all = "CLOSE"
operate_name OperateType.risk_update = "RISK_UPDATE"

pub data SemanticsError : Type 0 where
  invalid : ValueError → SemanticsError
  stop_required needs_native : SemanticsError
  not_positive_finite : String → SemanticsError
  misplaced : String → SemanticsError

-- An `Operate` with the attributes that are set on it. `price_text` is its price printed by
-- `:.12g`, and the last four fields are the prices and the id read from its metadata.
pub record Operation (F : Type 0) : Type 0 where
  pub otype : OperateType
  pub dtime : ℤ
  pub price : Option F
  pub price_text : String
  pub stop_loss : Option F
  pub take_profit : Option F
  pub signal_event_id : Option String
  pub breakeven_new_stop : Option F
  pub protection_order_id : Option String
  pub metadata : Fields F
  pub trade_stop_price : Option F
  pub trade_initial_stop_price : Option F
  pub suggested_stop_price : Option F
  pub trade_take_profit : Option F
  pub framework_trade_id : Option String

pub record Selection (F : Type 0) : Type 0 where
  pub order : Option (OrderIntent F)
  pub risk : Option (RiskIntent F)

-- a text that is present and not empty
abbrev present : Option String → Option String
present none = none
present (some s) = if is_empty s then none else some s

-- `a or b`, where b is a text
abbrev or_text : Option String → String → String
or_text none d = d
or_text (some s) d = s

module _ {F : Type 0} where
  -- `_intent_id`
  pub intent_id_of : Operation F → String
  intent_id_of op = elim (present op.signal_event_id) [
    | some s ↦ join "intent:" s
    | none ↦ join "intent:" (join (operate_name op.otype) (join ":" (show_int op.dtime)))
  ]

  -- `_operation_id`
  unfoldable pub operation_id_of : Operation F → String
  operation_id_of op =
      or_text (present op.signal_event_id) (
        join (operate_name op.otype) (join ":" (join (show_int op.dtime) (join ":" op.price_text))))

  -- `str(trade_id or _trade_id_from_operation(op) or _intent_id(op))`
  unfoldable pub resolved_trade_id : Option String → Operation F → String
  unfolding intent_id_of
  resolved_trade_id trade_id op =
      or_text (or_else (present trade_id) (present op.framework_trade_id)) (intent_id_of op)

module _ {F : Type 0} ⦃fl : Float F⦄ where
  -- `_first_number`
  unfoldable pub first_number : List (Option F) → Option F
  first_number [] = none
  first_number (none ∷ vs) = first_number vs
  first_number (some x ∷ vs) =
      let rest = first_number vs in if fl.lt fl.zero_f x && fl.is_finite x then some x else rest

  -- `_stop_price_from_operation`
  unfoldable pub stop_price_of : Operation F → Option F
  unfolding first_number
  stop_price_of op = first_number (
      op.stop_loss ∷ op.trade_stop_price ∷ op.trade_initial_stop_price ∷ op.suggested_stop_price
      ∷ [])

  -- `_take_profit_price_from_operation`
  unfoldable pub take_profit_of : Operation F → Option F
  unfolding first_number
  take_profit_of op = first_number (op.take_profit ∷ op.trade_take_profit ∷ [])

  -- `_validated_positive`, on a price that may be None
  unfoldable pub validated_positive : String → Option F → Result SemanticsError (Option F)
  validated_positive name none = ok none
  validated_positive name (some x) =
      if fl.le x fl.zero_f || not (fl.is_finite x)
      then err (not_positive_finite name)
      else ok (some x)

  -- `x >= y` and `x <= y` with `x` present
  abbrev not_below : Option F → F → Bool
  not_below none y = false
  not_below (some x) y = fl.le y x

  abbrev not_above : Option F → F → Bool
  not_above none y = false
  not_above (some x) y = fl.le x y

  -- the comparisons with the entry price
  unfoldable pub check_places :
      ExecutionSide → Option F → Option F → Option F → Result SemanticsError (Unit {0})
  check_places side none stop target = ok tt
  check_places ExecutionSide.long (some e) stop target =
      if not_below stop e
      then err (misplaced "stop_price")
      else if not_above target e
      then err (misplaced "take_profit_price")
      else ok tt
  check_places ExecutionSide.short (some e) stop target =
      if not_above stop e
      then err (misplaced "stop_price")
      else if not_below target e
      then err (misplaced "take_profit_price")
      else ok tt

  -- `validate_protection_prices`
  unfoldable pub validate_protection_prices :
      ExecutionSide → Option F → Option F → Option F → Result SemanticsError (Unit {0})
  unfolding validated_positive check_places
  validate_protection_prices side entry_price stop_price take_profit_price = do
    e ← validated_positive "entry_price" entry_price
    stop ← validated_positive "stop_price" stop_price
    target ← validated_positive "take_profit_price" take_profit_price
    check_places side e stop target
