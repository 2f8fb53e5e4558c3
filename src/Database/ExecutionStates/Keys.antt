-- ===== src/Database/ExecutionStates/Keys.antt =====
-- What the collection's writes do to the row of each key, from the laws of the table.
use chainer_trader.Prelude.{
  refl, false, Result, err, is_none, ◌&&◌, ◌≡◌, inl, inr, true, none, some, String, ok, arith,
  Option-cases, if◌then◌else◌,
}
use chainer_trader.Prelude.Raise
use chainer_trader.Prelude.Exec.{continue}
use chainer_trader.Prelude.Text.{str_eq, str_eq_iff}
use chainer_trader.Execution.Enums.{ValueError, normalize_enum}
use chainer_trader.Execution.Kinds.{
  gateway_mode_enum, execution_status_enum, find-gateway_mode_value, find-execution_status_value,
}
use chainer_trader.Execution.State.{ExecutionStateRecord, check_record}
use chainer_trader.Database.Rows.{Rows, RowLaws}
use chainer_trader.Database.ExecutionStates.{
  StateRow, was_created, lift_value_error, reserve_unless, row_of, model_to_execution_state, write,
  create_or_update, save, reserve, get_by_idempotency_key,
}

module _ {F : Type 0} where
  -- A record that passes its checks is read back from its row as it was.
  pub model_to_execution_state-row_of :
      (r : ExecutionStateRecord F)
      → check_record r ≡ ok r
      → model_to_execution_state (row_of r) ≡ ok r
  unfolding model_to_execution_state normalize_enum row_of
  model_to_execution_state-row_of r h =
      rw (find-gateway_mode_value r.gateway, find-execution_status_value r.status) h

module _ {T F : Type 0} (db : Rows T (StateRow F)) (laws : RowLaws db) where
  find-create_or_update :
      (r : ExecutionStateRecord F) (j : String) (t : T)
      → db.find r.idempotency_key t ≡ none
      → db.find j (create_or_update db r t)
        ≡ (if str_eq r.idempotency_key j then some (row_of r) else db.find j t)
  unfolding create_or_update
  find-create_or_update r j t absent =
      let made = laws.create_absent r.idempotency_key (row_of r) t absent in
      rw (made.1, create_or_update) (made.2 j)

  -- A write sets the row of its key, present or not, and leaves every other row.
  pub find-write :
      (r : ExecutionStateRecord F) (j : String) (t : T)
      → db.find j (write db r t)
        ≡ (if str_eq r.idempotency_key j then some (row_of r) else db.find j t)
  unfolding write
  find-write r j t = elim (Option-cases (db.find r.idempotency_key t)) [
    | inl absent ↦
        rw (laws.update_absent r.idempotency_key (row_of r) t absent)
          (find-create_or_update r j t absent)
    | inr (x, present) ↦
        rw (laws.update_present r.idempotency_key (row_of r) x t present)
          (laws.find-update r.idempotency_key j (row_of r) x t present)
  ]

  find-write_self :
      (r : ExecutionStateRecord F) (t : T)
      → db.find r.idempotency_key (write db r t) ≡ some (row_of r)
  find-write_self r t =
      ground
        (arith, find-write r r.idempotency_key t, str_eq_iff r.idempotency_key r.idempotency_key)

  -- Saving a valid record returns it and writes its row.
  pub save_lem :
      (r : ExecutionStateRecord F) (t : T)
      → check_record r ≡ ok r
      → save db r t ≡ (ok r, write db r t)
  unfolding save get_by_idempotency_key
  save_lem r t h = rw (find-write_self r t, model_to_execution_state-row_of r h)

  pub reserve_absent :
      (r : ExecutionStateRecord F) (t : T)
      → check_record r ≡ ok r
      → db.find r.idempotency_key t ≡ none
      → reserve db r t ≡ (ok (record { state = r; created = true }), write db r t)
  unfolding reserve get_by_idempotency_key
  reserve_absent r t h absent = rw absent (rw (save_lem r t h))

  reserve_known :
      (r : ExecutionStateRecord F) (t : T) (v : Result ValueError (ExecutionStateRecord F))
      → let (r', t') =
          continue (Raise.◌>>=◌ (lift_value_error v) λ x. ok (some x)) (reserve_unless db r) t in
        (t' ≡ t) × (was_created r' ≡ false)
  reserve_known r t (ok x) = (refl, refl)
  reserve_known r t (err e) = (refl, refl)

  pub reserve_present :
      (r : ExecutionStateRecord F) (t : T) {x : StateRow F}
      → db.find r.idempotency_key t ≡ some x
      → ((reserve db r t).1 ≡ t) × (was_created (reserve db r t).0 ≡ false)
  unfolding reserve get_by_idempotency_key
  reserve_present r t {x} present = rw present (reserve_known r t (model_to_execution_state x))

  -- A valid record is reserved exactly when its key has no row: then its row is written, and every
  -- other row stays; if the key has a row, nothing is written.
  pub reserve-exact :
      (r : ExecutionStateRecord F) (t : T)
      → check_record r ≡ ok r
      → (was_created (reserve db r t).0 ≡ is_none (db.find r.idempotency_key t))
        × ((j : String)
            → db.find j (reserve db r t).1 ≡ (
                if is_none (db.find r.idempotency_key t) && str_eq r.idempotency_key j
                then some (row_of r)
                else db.find j t))
  reserve-exact r t h = elim (Option-cases (db.find r.idempotency_key t)) [
    | inl absent ↦ rw (reserve_absent r t h absent, absent) (refl, λ j. find-write r j t)
    | inr (x, present) ↦
        let same = reserve_present r t present in rw (same.0, same.1, present) (refl, λ j. refl)
  ]

  -- A second reservation under the key of a stored record finds that record.
  pub reserve_stored :
      (r q : ExecutionStateRecord F) (t : T)
      → check_record q ≡ ok q
      → db.find r.idempotency_key t ≡ some (row_of q)
      → reserve db r t ≡ (ok (record { state = q; created = false }), t)
  unfolding reserve get_by_idempotency_key
  reserve_stored r q t valid stored = rw stored (rw (model_to_execution_state-row_of q valid))

  pub find-write_own :
      (r : ExecutionStateRecord F) (k : String) (t : T)
      → r.idempotency_key ≡ k
      → db.find k (write db r t) ≡ some (row_of r)
  find-write_own r k t e = rw (← e) (find-write_self r t)
