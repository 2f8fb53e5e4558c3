-- ===== src/Kernel/Orchestrator/Once.antt =====
-- Each idempotency key reaches the gateway at most once.
use chainer_trader.Prelude.{
  ◌≡◌, ◌⊎◌, inl, inr, ℕ, Bool, true, false, none, List, [], ◌∷◌, String, Result, ok, err, is_some,
  Returns,
}
use chainer_trader.Prelude.Exec.{continue, keeps_continue}
use chainer_trader.Prelude.Int.{ℤ}
use chainer_trader.Prelude.Float.{Float}
use chainer_trader.Execution.Enums.{ValueError}
use chainer_trader.Execution.Kinds.{ExecutionStatus}
use chainer_trader.Execution.Order.{OrderIntent, order_key}
use chainer_trader.Execution.Risk.{RiskIntent, risk_key}
use chainer_trader.Execution.Outcome.{ExecutionResult}
use chainer_trader.Execution.State.{
  ExecutionStateRecord, check_record, from_order_intent-Returns, from_risk_intent-Returns,
  from_order_intent, from_risk_intent, state_idempotency_key,
}
use chainer_trader.Database.Rows.{Rows, RowLaws}
use chainer_trader.Database.ExecutionStates.{StateRow}
use chainer_trader.Kernel.Orchestrator.Reserved.{
  Fresh, Distinct, Good, Reserved, Logged-Fresh, Quiet-Good, reserve_record-Reserved,
  save_record-Quiet,
}
use chainer_trader.Kernel.Orchestrator.{
  Call, World, Config, Gateway, KernelError, or_raised, reserve_record, save_record, submit,
  submit_and_save, unless_duplicate, state_args, order_call, risk_call, execute_order, execute_risk,
  execute, run,
}

module _ {T F : Type 0} ⦃fl : Float F⦄ (db : Rows T (StateRow F)) (laws : RowLaws db)
    (gateway : Gateway F) (clock : ℕ → ℤ) (cfg : Config) where
  submit_and_save-Good :
      (key : String) (call : Result ValueError (Call F))
      (build : ExecutionResult F → ℤ → Result ValueError (ExecutionStateRecord F)) (w : World T F)
      → ((r : ExecutionResult F) (n : ℤ) → Returns (λ x. check_record x ≡ ok x) (build r n))
      → Good db w
      → Fresh key w.calls
      → is_some (db.find key w.table) ≡ true
      → Good db (submit_and_save db gateway clock cfg key call build w).1
  unfolding submit_and_save submit
  submit_and_save-Good key (err e) build w b g fresh present = g
  submit_and_save-Good key (ok c) build w b g fresh present =
      let called : World T F = record w { calls = (key, c) ∷ w.calls } in
      let good : Good db called = record {
        logged = (present, g.logged);
        distinct = (fresh, g.distinct);
      } in
      keeps_continue (Good db) (or_raised (gateway w.calls c)) _ called good λ r _.
        let after = (save_record db gateway clock cfg (build r) called).1 in
        let kept : Good db after =
          Quiet-Good db (save_record-Quiet db laws gateway clock cfg (build r) called (b r)) good in
        keeps_continue (Good db) (save_record db gateway clock cfg (build r) called).0 _ after kept
          λ _ _. kept

  -- An intent's coroutine, from the results of its reservation.
  guarded-Good :
      (key : String) (w : World T F) (res : Result KernelError Bool × World T F)
      (go : World T F → Result KernelError (ExecutionResult F) × World T F) (d : ExecutionResult F)
      → Good db w
      → Reserved db key w.table w.calls res
      → ((s : World T F)
          → Good db s
          → Fresh key s.calls
          → is_some (db.find key s.table) ≡ true
          → Good db (go s).1)
      → Good db (continue res.0 (λ created. unless_duplicate created go d) res.1).1
  guarded-Good key w (ok true, s) go d g r k =
      k s (Quiet-Good db r.0 g) (rw r.0.calls (Logged-Fresh db key w.table w.calls r.1 g.logged))
        r.2
  guarded-Good key w (ok false, s) go d g r k = Quiet-Good db r g
  guarded-Good key w (err e, s) go d g r k = Quiet-Good db r g

  order-Reserved :
      (i : OrderIntent F) (w : World T F)
      → cfg.has_store ≡ true
      → Reserved db (order_key i) w.table w.calls (
          reserve_record db gateway clock cfg
            (λ n. from_order_intent i (state_args cfg ExecutionStatus.submitted none n))
            w)
  unfolding state_idempotency_key
  order-Reserved i w stored =
      reserve_record-Reserved db laws gateway clock cfg (order_key i) _ w stored
        λ n. from_order_intent-Returns i _

  valid_only :
      {k : String} {v : Result ValueError (ExecutionStateRecord F)}
      → Returns (λ r. (r.idempotency_key ≡ k) × (check_record r ≡ ok r)) v
      → Returns (λ r. check_record r ≡ ok r) v
  valid_only b = record { at = λ r h. (b.at r h).1 }

  execute_order-Good :
      (i : OrderIntent F) (w : World T F)
      → cfg.has_store ≡ true
      → Good db w
      → Good db (execute_order db gateway clock cfg i w).1
  unfolding execute_order
  execute_order-Good i w stored g =
      guarded-Good (order_key i) w _ _ _ g (order-Reserved i w stored) λ s gs fresh present.
        submit_and_save-Good (order_key i) (ok (order_call i))
          (λ r n. from_order_intent i (state_args cfg r.status r.gateway_order_id n)) s
          (λ r n. valid_only (from_order_intent-Returns i _)) gs fresh present

  risk-Reserved :
      (i : RiskIntent F) (w : World T F)
      → cfg.has_store ≡ true
      → Reserved db (risk_key i) w.table w.calls (
          reserve_record db gateway clock cfg
            (λ n. from_risk_intent i none (state_args cfg ExecutionStatus.submitted none n))
            w)
  unfolding state_idempotency_key
  risk-Reserved i w stored =
      reserve_record-Reserved db laws gateway clock cfg (risk_key i) _ w stored
        λ n. from_risk_intent-Returns i none _

  execute_risk-Good :
      (i : RiskIntent F) (w : World T F)
      → cfg.has_store ≡ true
      → Good db w
      → Good db (execute_risk db gateway clock cfg i w).1
  unfolding execute_risk
  execute_risk-Good i w stored g =
      guarded-Good (risk_key i) w _ _ _ g (risk-Reserved i w stored) λ s gs fresh present.
        submit_and_save-Good (risk_key i) (risk_call i)
          (λ r n.
            from_risk_intent i r.gateway_order_id (state_args cfg r.status r.gateway_order_id n))
          s (λ r n. valid_only (from_risk_intent-Returns i r.gateway_order_id _)) gs fresh present

  run-Good :
      (is : List (OrderIntent F ⊎ RiskIntent F)) (w : World T F)
      → cfg.has_store ≡ true
      → Good db w
      → Good db (run db gateway clock cfg is w)
  unfolding run execute
  run-Good [] w stored g = g
  run-Good (inl i ∷ is) w stored g =
      run-Good is (execute_order db gateway clock cfg i w).1 stored
        (execute_order-Good i w stored g)
  run-Good (inr i ∷ is) w stored g =
      run-Good is (execute_risk db gateway clock cfg i w).1 stored (execute_risk-Good i w stored g)

  -- With a state store, from any table and whatever the gateway answers or raises: in any run of
  -- intents, no two calls of the gateway are made under one idempotency key.
  pub run_submits_once :
      (is : List (OrderIntent F ⊎ RiskIntent F)) (w : World T F)
      → cfg.has_store ≡ true
      → w.calls ≡ []
      → Distinct (run db gateway clock cfg is w).calls
  run_submits_once is w stored none_yet =
      (run-Good is w stored
        (record { logged = rw none_yet tt; distinct = rw none_yet tt })).distinct
