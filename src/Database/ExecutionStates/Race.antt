-- ===== src/Database/ExecutionStates/Race.antt =====
-- Two coroutines in `ExecutionStateCol.reserve` at once. `reserve` awaits its query and then its
-- writes, outside a transaction, so another coroutine can run at each `await`.
pub mod Moved
pub mod Made
use chainer_trader.Prelude.{
  ◌≡◌, refl, ap, sym, subst, ◌∙◌, ◌⊎◌, inl, inr, ℕ, suc, ◌-◌, ◌≤◌, Bool, true, false, Option, none,
  some, List, [], ◌∷◌, String, Result, ok, err, ◌==◌, if◌then◌else◌, arith,
}
use chainer_trader.Execution.State.{ExecutionStateRecord, ExecutionStateReservation, check_record}
use chainer_trader.Database.Rows.{Rows, RowLaws}
use chainer_trader.Database.ExecutionStates.{
  StateRow, StoreError, save_failed, was_created, lift_value_error, row_of, found,
  get_by_idempotency_key,
}
use chainer_trader.Database.ExecutionStates.Keys.{model_to_execution_state-row_of}
use chainer_trader.Prelude.Raise
use chainer_trader.Prelude.Text.{str_eq, str_eq_iff}

-- Where a coroutine in `reserve` is: before its query, before the first update of `save`, before the
-- creation, before the update after an `IntegrityError`, before the last query, or at its end.
pub data Stage (F : Type 0) : Type 0 where
  asking updating creating reupdating reading : Stage F
  done : Result StoreError (ExecutionStateReservation F) → Stage F

module _ {F : Type 0} where
  abbrev pub asked : Result StoreError (Option (ExecutionStateRecord F)) → Stage F
  asked (err e) = done (err e)
  asked (ok none) = updating
  asked (ok (some x)) = done (ok (record { state = x; created = false }))

  abbrev pub read_back : String → Result StoreError (Option (ExecutionStateRecord F)) → Stage F
  read_back key (err e) = done (err e)
  read_back key (ok none) = done (err (save_failed key))
  read_back key (ok (some x)) = done (ok (record { state = x; created = true }))

  abbrev pub is_made : Stage F → Bool
  is_made (done r) = was_created r
  is_made _ = false

module _ {T F : Type 0} where
  abbrev pub updated : ℕ × T → Stage F × T
  updated (n, t) = (if n == 0 then creating else reading, t)

  abbrev pub created : T → Option T → Stage F × T
  created t none = (reupdating, t)
  created t (some t') = (reading, t')

module _ {T F : Type 0} (db : Rows T (StateRow F)) where
  -- a coroutine runs to its next `await`
  pub step : ExecutionStateRecord F → Stage F → T → Stage F × T
  unfolding row_of get_by_idempotency_key
  step q asking t = let (r, t') = get_by_idempotency_key db q.idempotency_key t in (asked r, t')
  step q updating t = updated (db.update q.idempotency_key (row_of q) t)
  step q creating t = created t (db.create q.idempotency_key (row_of q) t)
  step q reupdating t = (reading, (db.update q.idempotency_key (row_of q) t).1)
  step q reading t =
      let (r, t') = get_by_idempotency_key db q.idempotency_key t in
      (read_back q.idempotency_key r, t')
  step q (done r) t = (done r, t)

  -- Both coroutines by a schedule: `true` runs the first, `false` the second.
  pub reserve_both :
      ExecutionStateRecord F
      → ExecutionStateRecord F
      → List Bool
      → Stage F × Stage F × T
      → Stage F × Stage F × T
  unfolding step
  reserve_both r s [] w = w
  reserve_both r s (true ∷ turns) (a, b, t) =
      let (a', t') = step r a t in reserve_both r s turns (a', b, t')
  reserve_both r s (false ∷ turns) (a, b, t) =
      let (b', t') = step s b t in reserve_both r s turns (a, b', t')

abbrev pub turns_of : Bool → List Bool → ℕ
turns_of b [] = 0
turns_of true (true ∷ turns) = suc (turns_of true turns)
turns_of true (false ∷ turns) = turns_of true turns
turns_of false (false ∷ turns) = suc (turns_of false turns)
turns_of false (true ∷ turns) = turns_of false turns
