-- ===== src/Kernel/Orchestrator.antt =====
-- `ExecutionOrchestrator`: reserve the intent's key, call the gateway, save the result.
-- The gateway is not code of this component: it is a function from the calls made so far and the
-- call at hand to a result or an exception. The clock is a function of the number of readings.
pub mod Once
pub mod Reserved
pub mod Stuck
use chainer_trader.Prelude.{
  ℕ, suc, ◌⊎◌, inl, inr, Bool, true, false, Option, none, some, List, [], ◌∷◌, String, Result, ok,
  err,
}
use chainer_trader.Prelude.Exec.{Exec, pure, lift, gets, ◌>>=◌, ◌>>◌}
use chainer_trader.Prelude.Int.{ℤ}
use chainer_trader.Prelude.Float.{Float}
use chainer_trader.Execution.Payload.{text, field, end}
use chainer_trader.Execution.Enums.{ValueError}
use chainer_trader.Execution.Kinds.{
  GatewayMode, ExecutionStatus, ExecutionReason, OrderIntentType, RiskIntentAction,
}
use chainer_trader.Execution.Order.{OrderIntent, OrderArgs, close, order_key}
use chainer_trader.Execution.Risk.{RiskIntent, risk_key}
use chainer_trader.Execution.Outcome.{ExecutionResult}
use chainer_trader.Execution.State.{
  ExecutionStateRecord, ExecutionStateReservation, StateArgs, from_order_intent, from_risk_intent,
}
use chainer_trader.Database.Rows.{Rows}
use chainer_trader.Database.ExecutionStates.{StateRow, StoreError, reserve, save}

-- the methods of `ExecutionGateway` that the orchestrator calls
pub data Call (F : Type 0) : Type 0 where
  open_position : OrderIntent F → Call F
  close_position : OrderIntent F → Call F
  cancel_order : OrderIntent F → Call F
  place_protection : RiskIntent F → Call F
  replace_protection : RiskIntent F → Call F

pub data KernelError : Type 0 where
  invalid : ValueError → KernelError
  store : StoreError → KernelError
  -- an exception of the gateway
  gateway_raised : String → KernelError

-- The state store's table, the calls that reached the gateway with the keys that they were made
-- under, the newest first, and how often the clock was read.
pub record World (T F : Type 0) : Type 0 where
  pub table : T
  pub calls : List (String × Call F)
  pub readings : ℕ

-- the attributes of the orchestrator
pub record Config : Type 0 where
  pub gateway_mode : GatewayMode
  pub staged_execution_mode : String
  pub has_store : Bool

abbrev pub Gateway : Type 0 → Type 0
Gateway F = List (String × Call F) → Call F → Result String (ExecutionResult F)

abbrev pub or_invalid : {A : Type 0} → Result ValueError A → Result KernelError A
or_invalid (ok a) = ok a
or_invalid (err e) = err (invalid e)

abbrev pub or_store : {A : Type 0} → Result StoreError A → Result KernelError A
or_store (ok a) = ok a
or_store (err e) = err (store e)

abbrev pub or_raised : {A : Type 0} → Result String A → Result KernelError A
or_raised (ok a) = ok a
or_raised (err e) = err (gateway_raised e)

module _ {F : Type 0} where
  -- `_duplicate_result`
  abbrev pub duplicate_result : String → String → String → ExecutionResult F
  duplicate_result intent_id operation_id key = record {
    intent_id = intent_id;
    operation_id = operation_id;
    status = ExecutionStatus.skipped;
    reason = some ExecutionReason.duplicate_intent;
    gateway_order_id = none;
    capability = none;
    events = [];
    metadata = field "idempotency_key" (text key) end;
  }

  -- the method that an order intent goes to
  abbrev pub order_call : OrderIntent F → Call F
  order_call i = elim i.intent_type [
    | OrderIntentType.entry ↦ open_position i
    | OrderIntentType.close ↦ close_position i
    | OrderIntentType.cancel ↦ cancel_order i
  ]

  -- the order intent that cancels a protection
  abbrev pub cancel_args : RiskIntent F → OrderArgs F
  cancel_args i = record {
    intent_id = i.intent_id;
    operation_id = i.operation_id;
    symbol = i.symbol;
    side = inl i.side;
    quantity = some i.quantity;
    notional = none;
    price = none;
    trade_id = some i.trade_id;
    signal_event_id = i.signal_event_id;
    metadata = i.metadata;
  }

  abbrev cancel_call : Result ValueError (OrderIntent F) → Result ValueError (Call F)
  cancel_call (ok o) = ok (cancel_order o)
  cancel_call (err e) = err e

module _ {F : Type 0} ⦃fl : Float F⦄ where
  -- the method that a risk intent goes to; the intent of a cancellation is built on the way
  pub risk_call : RiskIntent F → Result ValueError (Call F)
  unfolding close
  risk_call i = elim i.action [
    | RiskIntentAction.replace_protection ↦ ok (replace_protection i)
    | RiskIntentAction.cancel_protection ↦ cancel_call (close (cancel_args i))
    | RiskIntentAction.place_protection ↦ ok (place_protection i)
  ]

abbrev pub state_args : Config → ExecutionStatus → Option String → ℤ → StateArgs
state_args cfg status order_id timestamp = record {
  task_id = none;
  gateway = cfg.gateway_mode;
  staged_execution_mode = cfg.staged_execution_mode;
  status = status;
  exchange_order_id = order_id;
  timestamp = timestamp;
}

-- the coroutine, unless the reservation found a duplicate
abbrev pub unless_duplicate : {X S A : Type 0} → Bool → Exec X S A → A → Exec X S A
unless_duplicate true go duplicate = go
unless_duplicate false go duplicate = pure duplicate

module _ {T F : Type 0} ⦃fl : Float F⦄ (db : Rows T (StateRow F)) (gateway : Gateway F)
    (clock : ℕ → ℤ) (cfg : Config) where
  abbrev Act : Type 0 → Type 0
  Act A = Exec KernelError (World T F) A

  pub now : Act ℤ
  now w = (ok (clock w.readings), record w { readings = suc w.readings })

  pub with_table : {A : Type 0} → Exec StoreError T A → Act A
  with_table m w = let (r, t) = m w.table in (or_store r, record w { table = t })

  pub reserve_built : ExecutionStateRecord F → Act Bool
  unfolding with_table
  reserve_built r = do reservation ← with_table (reserve db r); pure reservation.created

  -- `_reserve_order` and `_reserve_risk`, on the record that they build at a time
  pub reserve_record : (ℤ → Result ValueError (ExecutionStateRecord F)) → Act Bool
  unfolding now reserve_built
  reserve_record build = elim cfg.has_store [
    | false ↦ pure true
    | true ↦ do timestamp ← now; r ← lift (or_invalid (build timestamp)); reserve_built r
  ]

  -- `_save_order_result` and `_save_risk_result`
  pub save_record : (ℤ → Result ValueError (ExecutionStateRecord F)) → Act (Unit {0})
  unfolding now with_table
  save_record build = elim cfg.has_store [
    | false ↦ pure tt
    | true ↦ do
      timestamp ← now
      r ← lift (or_invalid (build timestamp))
      with_table (save db r)
      pure tt
  ]

  -- a call of the gateway under a key
  pub submit : String → Call F → Act (ExecutionResult F)
  submit key c w = (or_raised (gateway w.calls c), record w { calls = (key, c) ∷ w.calls })

  -- what follows a reservation: the call and the saving of its result, or the duplicate's result
  pub submit_and_save :
      String
      → Result ValueError (Call F)
      → (ExecutionResult F → ℤ → Result ValueError (ExecutionStateRecord F))
      → Act (ExecutionResult F)
  unfolding submit save_record
  submit_and_save key call build = do
    c ← lift (or_invalid call)
    result ← submit key c
    save_record (build result)
    pure result

  -- `execute_order`
  pub execute_order : OrderIntent F → Act (ExecutionResult F)
  unfolding reserve_record submit_and_save
  execute_order i = do
    created ←
        reserve_record (λ t. from_order_intent i (state_args cfg ExecutionStatus.submitted none t))
    unless_duplicate created
        (submit_and_save (order_key i) (ok (order_call i))
          (λ r t. from_order_intent i (state_args cfg r.status r.gateway_order_id t)))
        (duplicate_result i.intent_id i.operation_id (order_key i))

  -- `execute_risk`
  pub execute_risk : RiskIntent F → Act (ExecutionResult F)
  unfolding reserve_record submit_and_save risk_call
  execute_risk i = do
    created ←
        reserve_record
          (λ t. from_risk_intent i none (state_args cfg ExecutionStatus.submitted none t))
    unless_duplicate created
        (submit_and_save (risk_key i) (risk_call i) (λ r t.
          from_risk_intent i r.gateway_order_id (state_args cfg r.status r.gateway_order_id t)))
        (duplicate_result i.intent_id i.operation_id (risk_key i))

  -- An intent that a strategy hands to the orchestrator, and a run of them; an exception ends the
  -- coroutine of its own intent.
  pub execute : OrderIntent F ⊎ RiskIntent F → World T F → World T F
  unfolding execute_order execute_risk
  execute (inl i) w = (execute_order i w).1
  execute (inr i) w = (execute_risk i w).1

  unfoldable pub run : List (OrderIntent F ⊎ RiskIntent F) → World T F → World T F
  unfolding execute
  run [] w = w
  run (i ∷ is) w = run is (execute i w)
