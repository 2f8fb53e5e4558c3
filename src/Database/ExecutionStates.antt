-- ===== src/Database/ExecutionStates.antt =====
-- database/execution_state.py: the rows of `execution_states`, which has a unique key.
pub mod Keys
pub mod Race
use chainer_trader.Prelude.{
  ◌⊎◌, inr, ℕ, zero, suc, Bool, true, false, not, ◌&&◌, ◌||◌, Option, none, some, List, [], ◌∷◌,
  String, Result, ok, err, if◌then◌else◌, keep, ◌==◌,
}
use chainer_trader.Prelude.Raise
use chainer_trader.Prelude.Exec.{Exec, pure, raise, lift, gets, ◌>>=◌}
use chainer_trader.Prelude.Int.{ℤ, eqb_ℤ}
use chainer_trader.Prelude.Text.{str_eq}
use chainer_trader.Execution.Payload.{Fields}
use chainer_trader.Execution.Enums.{ValueError, normalize_enum}
use chainer_trader.Execution.Kinds.{
  GatewayMode, ExecutionStatus, gateway_mode_enum, execution_status_enum, gateway_mode_value,
  execution_status_value,
}
use chainer_trader.Execution.State.{ExecutionStateRecord, ExecutionStateReservation, check_record}
use chainer_trader.Database.Rows.{Rows}

-- `ExecutionStateModel`, less its serial number
pub record StateRow (F : Type 0) : Type 0 where
  pub idempotency_key : String
  pub intent_id : String
  pub operation_id : String
  pub gateway : String
  pub staged_execution_mode : String
  pub symbol : String
  pub trade_id : Option String
  pub order_role : String
  pub status : String
  pub exchange_order_id : Option String
  pub protection_id : Option String
  pub quantity : F
  pub price : Option F
  pub stop_price : Option F
  pub take_profit_price : Option F
  pub raw_payload : Fields F
  pub created_at : ℤ
  pub updated_at : ℤ
  pub task_id : Option ℤ

pub data StoreError : Type 0 where
  -- a row that is no valid record
  bad_row : ValueError → StoreError
  -- `execution state save failed for …`
  save_failed : String → StoreError

abbrev pub lift_value_error : {A : Type 0} → Result ValueError A → Result StoreError A
lift_value_error (ok a) = ok a
lift_value_error (err e) = err (bad_row e)

-- whether a status is in `TERMINAL_STATUSES`
is_terminal : String → Bool
is_terminal s =
    str_eq s "canceled" || str_eq s "rejected" || str_eq s "skipped" || str_eq s "failed"

module _ {F : Type 0} where
  -- the `defaults` of `save`, with the key
  pub row_of : ExecutionStateRecord F → StateRow F
  row_of r = record {
    idempotency_key = r.idempotency_key;
    intent_id = r.intent_id;
    operation_id = r.operation_id;
    gateway = gateway_mode_value r.gateway;
    staged_execution_mode = r.staged_execution_mode;
    symbol = r.symbol;
    trade_id = r.trade_id;
    order_role = r.order_role;
    status = execution_status_value r.status;
    exchange_order_id = r.exchange_order_id;
    protection_id = r.protection_id;
    quantity = r.quantity;
    price = r.price;
    stop_price = r.stop_price;
    take_profit_price = r.take_profit_price;
    raw_payload = r.raw_payload;
    created_at = r.created_at;
    updated_at = r.updated_at;
    task_id = r.task_id;
  }

  -- `model_to_execution_state`
  pub model_to_execution_state : StateRow F → Result ValueError (ExecutionStateRecord F)
  unfolding normalize_enum check_record
  model_to_execution_state row = Raise.◌>>=◌ (normalize_enum (inr row.gateway)) λ gateway.
      Raise.◌>>=◌ (normalize_enum (inr row.status)) λ status. check_record (record {
        idempotency_key = row.idempotency_key;
        intent_id = row.intent_id;
        operation_id = row.operation_id;
        gateway = gateway;
        staged_execution_mode = row.staged_execution_mode;
        symbol = row.symbol;
        order_role = row.order_role;
        status = status;
        trade_id = row.trade_id;
        exchange_order_id = row.exchange_order_id;
        protection_id = row.protection_id;
        quantity = row.quantity;
        price = row.price;
        stop_price = row.stop_price;
        take_profit_price = row.take_profit_price;
        raw_payload = row.raw_payload;
        created_at = row.created_at;
        updated_at = row.updated_at;
        task_id = row.task_id;
      })

module _ {F : Type 0} where
  -- whether a reservation was made
  abbrev pub was_created : Result StoreError (ExecutionStateReservation F) → Bool
  was_created (ok x) = x.created
  was_created (err e) = false

module _ {T F : Type 0} (db : Rows T (StateRow F)) where
  abbrev pub found : Option (StateRow F) → Result StoreError (Option (ExecutionStateRecord F))
  found none = ok none
  found (some row) = Raise.◌>>=◌ (lift_value_error (model_to_execution_state row)) λ r. ok (some r)

  -- `get_by_idempotency_key`
  pub get_by_idempotency_key : String → Exec StoreError T (Option (ExecutionStateRecord F))
  get_by_idempotency_key key t = (found (db.find key t), t)

  -- the creation in `save`, and the second update after an `IntegrityError`
  pub create_or_update : ExecutionStateRecord F → T → T
  unfolding row_of
  create_or_update r t = elim (db.create r.idempotency_key (row_of r) t) [
    | none ↦ (db.update r.idempotency_key (row_of r) t).1
    | some t' ↦ t'
  ]

  -- the writes of `save`
  pub write : ExecutionStateRecord F → T → T
  unfolding create_or_update
  write r t =
      let (updated, t') = db.update r.idempotency_key (row_of r) t in
      if updated == 0 then create_or_update r t' else t'

  abbrev saved :
      String → Option (ExecutionStateRecord F) → Result StoreError (ExecutionStateRecord F)
  saved key none = err (save_failed key)
  saved key (some r) = ok r

  -- `save`
  pub save : ExecutionStateRecord F → Exec StoreError T (ExecutionStateRecord F)
  unfolding write get_by_idempotency_key
  save r t =
      (do row ← get_by_idempotency_key r.idempotency_key; lift (saved r.idempotency_key row))
        (write r t)

  abbrev pub reserve_unless :
      ExecutionStateRecord F
      → Option (ExecutionStateRecord F)
      → Exec StoreError T (ExecutionStateReservation F)
  reserve_unless r (some existing) = pure (record { state = existing; created = false })
  reserve_unless r none = do row ← save r; pure (record { state = row; created = true })

  -- `reserve`
  unfoldable pub reserve : ExecutionStateRecord F → Exec StoreError T (ExecutionStateReservation F)
  unfolding get_by_idempotency_key save
  reserve r = do existing ← get_by_idempotency_key r.idempotency_key; reserve_unless r existing

abbrev has_task : ℤ → Option ℤ → Bool
has_task n none = false
has_task n (some m) = eqb_ℤ m n

module _ {F : Type 0} where
  records_of : List (StateRow F) → Result ValueError (List (ExecutionStateRecord F))
  unfolding model_to_execution_state
  records_of [] = ok []
  records_of (row ∷ rows) =
      Raise.◌>>=◌ (model_to_execution_state row)
        λ r. Raise.◌>>=◌ (records_of rows) λ rs. ok (r ∷ rs)

  -- `list_open_by_symbol`, on the rows in order of creation
  unfoldable list_open_by_symbol :
      String → List (StateRow F) → Result ValueError (List (ExecutionStateRecord F))
  unfolding records_of is_terminal
  list_open_by_symbol symbol rows =
      records_of (keep (λ row. str_eq row.symbol symbol && not (is_terminal row.status)) rows)

  -- `list_open_by_task`, on the rows in order of creation
  unfoldable list_open_by_task :
      ℤ → List (StateRow F) → Result ValueError (List (ExecutionStateRecord F))
  unfolding records_of is_terminal
  list_open_by_task task rows =
      records_of (keep (λ row. has_task task row.task_id && not (is_terminal row.status)) rows)
