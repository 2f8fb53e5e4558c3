-- ===== src/Kernel/Orchestrator/Stuck.antt =====
-- What an exception of the gateway leaves behind.
use chainer_trader.Prelude.{
  ◌≡◌, refl, ℕ, suc, ◌∷◌, true, false, none, some, String, Result, ok, err,
}
use chainer_trader.Prelude.Int.{ℤ}
use chainer_trader.Prelude.Float.{Float}
use chainer_trader.Execution.Enums.{ValueError}
use chainer_trader.Execution.Kinds.{ExecutionStatus}
use chainer_trader.Execution.Order.{OrderIntent, order_key}
use chainer_trader.Execution.State.{
  StateArgs, from_order_intent-Returns, ExecutionStateRecord, check_record, from_order_intent,
  state_idempotency_key,
}
use chainer_trader.Database.Rows.{Rows, RowLaws}
use chainer_trader.Database.ExecutionStates.{StateRow, row_of, write}
use chainer_trader.Database.ExecutionStates.Keys.{reserve_absent, reserve_stored, find-write_own}
use chainer_trader.Kernel.Orchestrator.{
  World, Config, Gateway, gateway_raised, now, with_table, reserve_built, reserve_record, submit,
  submit_and_save, state_args, order_call, execute_order, duplicate_result,
}

-- the arguments of the record that is reserved when the clock was read `n` times
abbrev pub submitted_args : (ℕ → ℤ) → Config → ℕ → StateArgs
submitted_args clock cfg n = state_args cfg ExecutionStatus.submitted none (clock n)

module _ {T F : Type 0} ⦃fl : Float F⦄ (db : Rows T (StateRow F)) (laws : RowLaws db)
    (gateway : Gateway F) (clock : ℕ → ℤ) (cfg : Config) where
  reserve_record_fresh :
      (build : ℤ → Result ValueError (ExecutionStateRecord F)) (r : ExecutionStateRecord F)
      (w : World T F)
      → cfg.has_store ≡ true
      → build (clock w.readings) ≡ ok r
      → check_record r ≡ ok r
      → db.find r.idempotency_key w.table ≡ none
      → reserve_record db gateway clock cfg build w
        ≡ (ok true, record w { table = write db r w.table; readings = suc w.readings })
  unfolding reserve_record now reserve_built with_table
  reserve_record_fresh build r w stored built valid absent =
      rw (stored, built) (rw (reserve_absent db laws r w.table valid absent) refl)

  reserve_record_taken :
      (build : ℤ → Result ValueError (ExecutionStateRecord F)) (r q : ExecutionStateRecord F)
      (w : World T F)
      → cfg.has_store ≡ true
      → build (clock w.readings) ≡ ok r
      → check_record q ≡ ok q
      → db.find r.idempotency_key w.table ≡ some (row_of q)
      → reserve_record db gateway clock cfg build w
        ≡ (ok false, record w { readings = suc w.readings })
  unfolding reserve_record now reserve_built with_table
  reserve_record_taken build r q w stored built valid present =
      rw (stored, built) (rw (reserve_stored db laws r q w.table valid present) refl)

  execute_order_raised :
      (i : OrderIntent F) (w : World T F) (e : String) (r : ExecutionStateRecord F)
      → cfg.has_store ≡ true
      → from_order_intent i (submitted_args clock cfg w.readings) ≡ ok r
      → check_record r ≡ ok r
      → db.find r.idempotency_key w.table ≡ none
      → gateway w.calls (order_call i) ≡ err e
      → execute_order db gateway clock cfg i w ≡ (
        err (gateway_raised e),
        record {
          table = write db r w.table;
          calls = (order_key i, order_call i) ∷ w.calls;
          readings = suc w.readings;
        },
      )
  unfolding execute_order submit_and_save submit
  execute_order_raised i w e r stored built valid absent raised =
      rw (reserve_record_fresh _ r w stored built valid absent) (rw raised refl)

  execute_order_taken :
      (i : OrderIntent F) (w : World T F) (r q : ExecutionStateRecord F)
      → cfg.has_store ≡ true
      → from_order_intent i (submitted_args clock cfg w.readings) ≡ ok r
      → check_record q ≡ ok q
      → db.find r.idempotency_key w.table ≡ some (row_of q)
      → execute_order db gateway clock cfg i w ≡ (
        ok (duplicate_result i.intent_id i.operation_id (order_key i)),
        record w { readings = suc w.readings },
      )
  unfolding execute_order
  execute_order_taken i w r q stored built valid present =
      rw (reserve_record_taken _ r q w stored built valid present) refl

  order_facts :
      (i : OrderIntent F) (n : ℕ) (r : ExecutionStateRecord F)
      → from_order_intent i (submitted_args clock cfg n) ≡ ok r
      → (r.idempotency_key ≡ order_key i) × (check_record r ≡ ok r)
  unfolding state_idempotency_key
  order_facts i n r h = (from_order_intent-Returns i (submitted_args clock cfg n)).at r h

  -- With a state store, when the gateway raises on an order intent whose key has no row: the call
  -- is the last that was made, and the key's row is the one that was reserved; when the intent is
  -- executed again, it is answered as a duplicate, no call is made and the table stays.
  pub execute_order_stuck :
      (i : OrderIntent F) (w : World T F) (e : String) (r q : ExecutionStateRecord F)
      → cfg.has_store ≡ true
      → from_order_intent i (submitted_args clock cfg w.readings) ≡ ok r
      → from_order_intent i (submitted_args clock cfg (suc w.readings)) ≡ ok q
      → db.find (order_key i) w.table ≡ none
      → gateway w.calls (order_call i) ≡ err e
      → let (result, after) = execute_order db gateway clock cfg i w in
        let (second, later) = execute_order db gateway clock cfg i after in
        (result ≡ err (gateway_raised e))
        × (after.calls ≡ ((order_key i, order_call i) ∷ w.calls))
        × (db.find (order_key i) after.table ≡ some (row_of r))
        × (second ≡ ok (duplicate_result i.intent_id i.operation_id (order_key i)))
        × (later.calls ≡ after.calls)
        × (later.table ≡ after.table)
  execute_order_stuck i w e r q stored built again absent raised =
      let first = order_facts i w.readings r built in
      let next = order_facts i (suc w.readings) q again in
      let row = find-write_own db laws r (order_key i) w.table first.0 in
      rw (execute_order_raised i w e r stored built first.1 (rw first.0 absent) raised) (
        rw
          (execute_order_taken i
            (record {
              table = write db r w.table;
              calls = (order_key i, order_call i) ∷ w.calls;
              readings = suc w.readings;
            })
            q r stored again first.1 (rw next.0 row))
          (refl, refl, row, refl, refl, refl))
