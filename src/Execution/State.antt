-- ===== src/Execution/State.antt =====
-- execution/state.py: the record of an intent's execution, and how it is built from an intent.
use chainer_trader.Prelude.{
  ◌≡◌, Returns, ap, ◌∙◌, subst, sym, ◌>>◌, Bool, Option, none, some, String, Result, ok, err, ◌>>=◌,
  from_option, if◌then◌else◌,
}
use chainer_trader.Prelude.Int.{ℤ, pos, leb_ℤ}
use chainer_trader.Prelude.Float.{Float}
use chainer_trader.Prelude.Text.{is_empty, join}
use chainer_trader.Prelude.Text.Show.{show_int}
use chainer_trader.Execution.Payload.{Fields}
use chainer_trader.Execution.Enums.{ValueError, required, bad_task_id}
use chainer_trader.Execution.Kinds.{
  GatewayMode, ExecutionStatus, gateway_mode_enum, execution_status_enum, order_intent_type_value,
  protection_intent_type_value,
}
use chainer_trader.Execution.Order.{OrderIntent, order_key, order_to_dict}
use chainer_trader.Execution.Risk.{RiskIntent, risk_key, risk_to_dict}

pub record ExecutionStateRecord (F : Type 0) : Type 0 where
  pub idempotency_key : String
  pub intent_id : String
  pub operation_id : String
  pub gateway : GatewayMode
  pub staged_execution_mode : String
  pub symbol : String
  pub order_role : String
  pub status : ExecutionStatus
  pub trade_id : Option String
  pub exchange_order_id : Option String
  pub protection_id : Option String
  pub quantity : F
  pub price : Option F
  pub stop_price : Option F
  pub take_profit_price : Option F
  pub raw_payload : Fields F
  pub created_at : ℤ
  pub updated_at : ℤ
  pub task_id : Option ℤ

-- `if not value: raise ValueError`
require_present : String → String → Result ValueError (Unit {0})
require_present value name = if is_empty value then err (required name) else ok tt

check_task_id : Option ℤ → Result ValueError (Unit {0})
check_task_id none = ok tt
check_task_id (some n) = if leb_ℤ n (pos 0) then err bad_task_id else ok tt

module _ {F : Type 0} where
  -- the checks of `ExecutionStateRecord.__post_init__`, on a record whose enumerations are members
  unfoldable pub record_checks : ExecutionStateRecord F → Result ValueError (Unit {0})
  unfolding require_present check_task_id
  record_checks r = do
    require_present r.idempotency_key "idempotency_key"
    require_present r.intent_id "intent_id"
    require_present r.operation_id "operation_id"
    require_present r.symbol "symbol"
    require_present r.order_role "order_role"
    check_task_id r.task_id

  -- `ExecutionStateRecord(...)`
  unfoldable pub check_record : ExecutionStateRecord F → Result ValueError (ExecutionStateRecord F)
  check_record r = do record_checks r; ok r

-- `_state_idempotency_key`
unfoldable pub state_idempotency_key : Option ℤ → String → String
unfolding show_int
state_idempotency_key none key = key
state_idempotency_key (some task) key = join "task:" (join (show_int task) (join ":" key))

-- What both constructors take beside the intent.
pub record StateArgs : Type 0 where
  pub task_id : Option ℤ
  pub gateway : GatewayMode
  pub staged_execution_mode : String
  pub status : ExecutionStatus
  pub exchange_order_id : Option String
  pub timestamp : ℤ

module _ {F : Type 0} ⦃fl : Float F⦄ where
  -- the record of `ExecutionStateRecord.from_order_intent`, before its checks
  unfoldable pub order_record : OrderIntent F → StateArgs → ExecutionStateRecord F
  unfolding order_key order_to_dict state_idempotency_key
  order_record i a = record {
    idempotency_key = state_idempotency_key a.task_id (order_key i);
    intent_id = i.intent_id;
    operation_id = i.operation_id;
    gateway = a.gateway;
    staged_execution_mode = a.staged_execution_mode;
    symbol = i.symbol;
    order_role = order_intent_type_value i.intent_type;
    status = a.status;
    trade_id = i.trade_id;
    exchange_order_id = a.exchange_order_id;
    protection_id = none;
    quantity = from_option fl.zero_f i.quantity;
    price = i.price;
    stop_price = none;
    take_profit_price = none;
    raw_payload = order_to_dict i;
    created_at = a.timestamp;
    updated_at = a.timestamp;
    task_id = a.task_id;
  }

  -- `ExecutionStateRecord.from_order_intent`
  unfoldable pub from_order_intent :
      OrderIntent F → StateArgs → Result ValueError (ExecutionStateRecord F)
  unfolding order_record check_record
  from_order_intent i a = check_record (order_record i a)

module _ {F : Type 0} where
  -- the record of `ExecutionStateRecord.from_risk_intent`, before its checks
  risk_record : RiskIntent F → Option String → StateArgs → ExecutionStateRecord F
  unfolding risk_key risk_to_dict state_idempotency_key
  risk_record i protection_id a = record {
    idempotency_key = state_idempotency_key a.task_id (risk_key i);
    intent_id = i.intent_id;
    operation_id = i.operation_id;
    gateway = a.gateway;
    staged_execution_mode = a.staged_execution_mode;
    symbol = i.symbol;
    order_role = protection_intent_type_value i.protection_type;
    status = a.status;
    trade_id = some i.trade_id;
    exchange_order_id = a.exchange_order_id;
    protection_id = protection_id;
    quantity = i.quantity;
    price = none;
    stop_price = i.stop_price;
    take_profit_price = i.take_profit_price;
    raw_payload = risk_to_dict i;
    created_at = a.timestamp;
    updated_at = a.timestamp;
    task_id = a.task_id;
  }

  -- `ExecutionStateRecord.from_risk_intent`
  pub from_risk_intent :
      RiskIntent F → Option String → StateArgs → Result ValueError (ExecutionStateRecord F)
  unfolding risk_record check_record
  from_risk_intent i protection_id a = check_record (risk_record i protection_id a)

pub record ExecutionStateReservation (F : Type 0) : Type 0 where
  pub state : ExecutionStateRecord F
  pub created : Bool

-- A check that lets a value through returns that value.
check-same :
    {X A : Type 0} (c : Result X (Unit {0})) (a : A) {b : A} → (c >>= λ _. ok a) ≡ ok b → b ≡ a
check-same (ok u) a h = cc
check-same (err e) a h = cc

module _ {F : Type 0} where
  -- The checks return the record that they were given.
  pub check_record-same :
      (r : ExecutionStateRecord F)
      → Returns (λ r'. (r' ≡ r) × (check_record r' ≡ ok r')) (check_record r)
  unfolding check_record
  check_record-same r = record {
    at = λ r' h.
        let same = check-same (record_checks r) r h in
        (same, subst (λ x. check_record x ≡ ok x) (sym same) (h ∙ ap ok same));
  }

module _ {F : Type 0} ⦃fl : Float F⦄ where
  -- An order intent's record is under its key, and passes its checks.
  pub from_order_intent-Returns :
      (i : OrderIntent F) (a : StateArgs)
      → Returns
          (λ r.
            (r.idempotency_key ≡ state_idempotency_key a.task_id (order_key i))
            × (check_record r ≡ ok r))
          (from_order_intent i a)
  unfolding from_order_intent
  from_order_intent-Returns i a = record {
    at = λ r h.
        let same = (check_record-same (order_record i a)).at r h in
        (ap (λ (x : ExecutionStateRecord F). x.idempotency_key) same.0, same.1);
  }

module _ {F : Type 0} where
  pub from_risk_intent-Returns :
      (i : RiskIntent F) (p : Option String) (a : StateArgs)
      → Returns
          (λ r.
            (r.idempotency_key ≡ state_idempotency_key a.task_id (risk_key i))
            × (check_record r ≡ ok r))
          (from_risk_intent i p a)
  unfolding from_risk_intent
  from_risk_intent-Returns i p a = record {
    at = λ r h.
        let same = (check_record-same (risk_record i p a)).at r h in
        (ap (λ (x : ExecutionStateRecord F). x.idempotency_key) same.0, same.1);
  }
