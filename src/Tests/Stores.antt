-- ===== src/Tests/Stores.antt =====
-- The theorems on the collections and on the orchestrator at concrete tables.
use chainer_trader.Prelude.{
  Bool, keep, err, ℕ, ◌≡◌, refl, inl, true, false, none, some, List, [], ◌∷◌, String, ok, arith,
  if◌then◌else◌,
}
use chainer_trader.Prelude.Int.{ℤ, pos, ◌+ℤ◌}
use chainer_trader.Prelude.Float.{Float, OrderLaws, int_float, int_float-OrderLaws}
use chainer_trader.Prelude.Text.{str_eq, strip}
use chainer_trader.Execution.Payload.{end}
use chainer_trader.Execution.Kinds.{ExecutionSide, OrderIntentType, ExecutionStatus, GatewayMode}
use chainer_trader.Execution.Order.{OrderIntent}
use chainer_trader.Execution.State.{ExecutionStateRecord, record_checks, check_record}
use chainer_trader.Database.Rows.{assoc_rows, assoc_rows-RowLaws}
use chainer_trader.Database.ExecutionStates.{
  StateRow, row_of, model_to_execution_state, reserve, was_created,
}
use chainer_trader.Database.ExecutionStates.Keys.{reserve-exact, model_to_execution_state-row_of}
use chainer_trader.Database.ExecutionStates.Race.{Stage, asking, is_made, reserve_both}
use chainer_trader.Database.ExecutionStates.Race.Made.{reserve_both-created}
use chainer_trader.Database.Funds
use chainer_trader.Database.Funds.{
  FundArgs, Reservation, normal_asset, reserved_on, amounts, is_of_account,
}
use chainer_trader.Database.Funds.Filters.{count_of}
use chainer_trader.Database.Funds.Sound.{
  Op, reserves, spends, releases, sweeps, IsSound, run-IsSound,
}
use chainer_trader.Database.Funds.Sound
use chainer_trader.Database.Funds.Capacity
use chainer_trader.Database.Funds.Capacity.{reserve-fits}
use chainer_trader.Kernel.Orchestrator.Stuck.{submitted_args, execute_order_stuck}
use chainer_trader.Execution.Order.{order_key}
use chainer_trader.Execution.State.{order_record, from_order_intent}
use chainer_trader.Kernel.Orchestrator.{
  execute_order, gateway_raised, order_call, duplicate_result, World, Config, Gateway, run,
}
use chainer_trader.Kernel.Orchestrator.Reserved.{Distinct}
use chainer_trader.Kernel.Orchestrator.Once.{run_submits_once}

instance float_ℤ : Float ℤ
float_ℤ = int_float

abbrev order_built : OrderIntent ℤ
order_built = record {
  intent_id = "intent:7";
  operation_id = "op";
  symbol = "BTCUSDT";
  side = ExecutionSide.long;
  intent_type = OrderIntentType.entry;
  quantity = some (pos 2);
  notional = none;
  price = some (pos 100);
  trade_id = none;
  signal_event_id = none;
  metadata = end;
}

-- a gateway that answers every call, with the status submitted
abbrev test_gateway : Gateway ℤ
test_gateway calls call = ok (record {
  intent_id = "intent:7";
  operation_id = "op";
  status = ExecutionStatus.submitted;
  reason = none;
  gateway_order_id = some "x1";
  capability = none;
  events = [];
  metadata = end;
})

abbrev test_config : Config
test_config = record {
  gateway_mode = GatewayMode.binance_live;
  staged_execution_mode = "auto_trade";
  has_store = true;
}

abbrev new_world : World (List (String × StateRow ℤ)) ℤ
new_world = record { table = []; calls = []; readings = 0 }

-- the same order twice
run_submits_once_example :
    Distinct
      (run assoc_rows test_gateway pos test_config
        (inl order_built ∷ inl order_built ∷ [])
        new_world).calls
run_submits_once_example =
    run_submits_once assoc_rows assoc_rows-RowLaws test_gateway pos test_config
      (inl order_built ∷ inl order_built ∷ []) new_world refl refl

-- a gateway that is not reached
abbrev raising_gateway : Gateway ℤ
raising_gateway calls call = err "timeout"

abbrev reserved_at : ℕ → ExecutionStateRecord ℤ
reserved_at n = order_record order_built (submitted_args pos test_config n)

reserved_at_lem :
    (n : ℕ) → from_order_intent order_built (submitted_args pos test_config n) ≡ ok (reserved_at n)
unfolding from_order_intent check_record record_checks order_record
reserved_at_lem n = refl

execute_order_stuck_example :
    let (result, after) =
      execute_order assoc_rows raising_gateway pos test_config order_built new_world in
    let (second, later) =
      execute_order assoc_rows raising_gateway pos test_config order_built after in
    (result ≡ err (gateway_raised "timeout"))
    × (after.calls ≡ ((order_key order_built, order_call order_built) ∷ []))
    × (assoc_rows.find (order_key order_built) after.table ≡ some (row_of (reserved_at 0)))
    × (second ≡ ok (duplicate_result "intent:7" "op" (order_key order_built)))
    × (later.calls ≡ after.calls)
    × (later.table ≡ after.table)
execute_order_stuck_example =
    execute_order_stuck assoc_rows assoc_rows-RowLaws raising_gateway pos test_config order_built
      new_world "timeout" (reserved_at 0) (reserved_at 1) refl (reserved_at_lem 0)
      (reserved_at_lem 1) refl refl

abbrev test_record : ExecutionStateRecord ℤ
test_record = record {
  idempotency_key = "intent:7:op:entry";
  intent_id = "intent:7";
  operation_id = "op";
  gateway = GatewayMode.binance_live;
  staged_execution_mode = "auto_trade";
  symbol = "BTCUSDT";
  order_role = "entry";
  status = ExecutionStatus.submitted;
  trade_id = none;
  exchange_order_id = none;
  protection_id = none;
  quantity = pos 2;
  price = some (pos 100);
  stop_price = none;
  take_profit_price = none;
  raw_payload = end;
  created_at = pos 0;
  updated_at = pos 0;
  task_id = none;
}

test_record_lem : check_record test_record ≡ ok test_record
unfolding check_record record_checks
test_record_lem = refl

model_to_execution_state-row_of_example :
    model_to_execution_state (row_of test_record) ≡ ok test_record
model_to_execution_state-row_of_example =
    model_to_execution_state-row_of test_record test_record_lem

abbrev no_rows : List (String × StateRow ℤ)
no_rows = []

reserve-exact_example :
    (was_created (reserve assoc_rows test_record no_rows).0 ≡ true)
    × ((j : String)
        → assoc_rows.find j (reserve assoc_rows test_record no_rows).1
          ≡ (if str_eq test_record.idempotency_key j then some (row_of test_record) else none))
reserve-exact_example =
    reserve-exact assoc_rows assoc_rows-RowLaws test_record no_rows test_record_lem

-- after the queries, the first coroutine's update, the second's, and their creations, alternating
abbrev turns : List Bool
turns = true ∷ false ∷ false ∷ true ∷ true ∷ false ∷ false ∷ true ∷ []

abbrev both_asking : Stage ℤ × Stage ℤ × List (String × StateRow ℤ)
both_asking = (asking, asking, no_rows)

reserve_both-created_example :
    (is_made (reserve_both assoc_rows test_record test_record (true ∷ false ∷ turns) both_asking).0
      ≡ true)
    × (is_made
          (reserve_both assoc_rows test_record test_record (true ∷ false ∷ turns) both_asking).1
        ≡ true)
reserve_both-created_example =
    reserve_both-created assoc_rows assoc_rows-RowLaws test_record test_record no_rows turns
      test_record_lem test_record_lem refl refl (omega arith) (omega arith)

abbrev fund_args : FundArgs ℤ
fund_args = record {
  account_key = " main ";
  exchange = "binance";
  credential_id = none;
  user_id = none;
  task_id = pos 4;
  asset = "usdt";
  amount = pos 60;
  capacity = pos 100;
  reason = "start";
}

abbrev no_reservations : List (Reservation ℤ)
no_reservations = []

no_reservations-IsSound : IsSound no_reservations
unfolding count_of
no_reservations-IsSound = record { single = λ n a. omega arith; within = tt }

abbrev fund_ops : List (Op ℤ)
fund_ops =
    reserves fund_args
    ∷ spends (pos 4) "USDT" (pos 80)
    ∷ sweeps [] "stopped"
    ∷ reserves fund_args
    ∷ []

float_ℤ-OrderLaws : OrderLaws float_ℤ
unfolding float_ℤ
float_ℤ-OrderLaws = int_float-OrderLaws

run-IsSound_example : IsSound (Sound.run (pos 0) fund_ops no_reservations)
run-IsSound_example =
    run-IsSound float_ℤ-OrderLaws (pos 0) fund_ops no_reservations no_reservations-IsSound

fund_made : Capacity.was_created (Funds.reserve (pos 0) fund_args no_reservations).0 ≡ true
unfolding Funds.reserve float_ℤ Funds.create_within ◌+ℤ◌
fund_made = refl

reserve-fits_example :
    (float_ℤ.lt
        (float_ℤ.add (pos 100) (pos 0))
        (float_ℤ.add (reserved_on (strip " main ") (normal_asset "usdt") no_reservations) (pos 60))
      ≡ false)
    × (amounts (
          keep
            (is_of_account (strip " main ") (normal_asset "usdt"))
            (Funds.reserve (pos 0) fund_args no_reservations).1)
        ≡ (pos 60 ∷ []))
reserve-fits_example = reserve-fits (pos 0) fund_args no_reservations fund_made
