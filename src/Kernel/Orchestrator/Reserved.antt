-- ===== src/Kernel/Orchestrator/Reserved.antt =====
-- What reserving and saving do to the table and to the calls of the gateway.
use chainer_trader.Prelude.{
  ◌≡◌, refl, inl, inr, ℕ, Bool, true, false, ◌&&◌, some, List, [], ◌∷◌, String, Result, ok, err,
  arith, is_some, is_none, Returns, subst, suc, Bool-cases, if◌then◌else◌,
}
use chainer_trader.Prelude.Exec.{continue, ◌>>=◌}
use chainer_trader.Prelude.Int.{ℤ}
use chainer_trader.Prelude.Float.{Float}
use chainer_trader.Prelude.Text.{str_eq, str_eq_iff}
use chainer_trader.Execution.Enums.{ValueError}
use chainer_trader.Execution.State.{ExecutionStateRecord, ExecutionStateReservation, check_record}
use chainer_trader.Database.Rows.{Rows, RowLaws}
use chainer_trader.Database.ExecutionStates.{
  StateRow, StoreError, was_created, row_of, reserve, save,
}
use chainer_trader.Database.ExecutionStates.Keys.{reserve-exact, save_lem, find-write}
use chainer_trader.Kernel.Orchestrator.{
  Call, World, Config, Gateway, KernelError, or_store, or_invalid, with_table, now, reserve_built,
  reserve_record, save_record,
}

module _ {F : Type 0} where
  -- No call of the list was made under the key.
  abbrev pub Fresh : String → List (String × Call F) → Type 0
  Fresh k [] = Unit
  Fresh k ((j, c) ∷ cs) = (str_eq j k ≡ false) × Fresh k cs

  -- No two calls of the list were made under one key.
  abbrev pub Distinct : List (String × Call F) → Type 0
  Distinct [] = Unit
  Distinct ((k, c) ∷ cs) = Fresh k cs × Distinct cs

module _ {T F : Type 0} (db : Rows T (StateRow F)) where
  -- The key of every call has a row.
  abbrev pub Logged : T → List (String × Call F) → Type 0
  Logged t [] = Unit
  Logged t ((k, c) ∷ cs) = (is_some (db.find k t) ≡ true) × Logged t cs

  -- Every key that has a row keeps one.
  abbrev pub Grows : T → T → Type 0
  Grows t t' = (j : String) → is_some (db.find j t) ≡ true → is_some (db.find j t') ≡ true

  pub Logged-Grows :
      (t t' : T) (cs : List (String × Call F)) → Grows t t' → Logged t cs → Logged t' cs
  Logged-Grows t t' [] g h = tt
  Logged-Grows t t' ((k, c) ∷ cs) g h = (g k h.0, Logged-Grows t t' cs g h.1)

  pub Logged-Fresh :
      (k : String) (t : T) (cs : List (String × Call F))
      → is_none (db.find k t) ≡ true
      → Logged t cs
      → Fresh k cs
  Logged-Fresh k t [] h l = tt
  Logged-Fresh k t ((j, c) ∷ cs) h l = (ground (arith, str_eq_iff j k), Logged-Fresh k t cs h l.1)

  pub record Good (w : World T F) : Type 0 where
    pub logged : Logged w.table w.calls
    pub distinct : Distinct w.calls

  -- A world that a block left with no new call and no row lost.
  pub record Quiet (t : T) (cs : List (String × Call F)) (w' : World T F) : Type 0 where
    pub calls : w'.calls ≡ cs
    pub grows : Grows t w'.table

  pub Quiet-Good : {w w' : World T F} → Quiet w.table w.calls w' → Good w → Good w'
  Quiet-Good {w} {w'} q g = record {
    logged = rw q.calls (Logged-Grows w.table w'.table w.calls q.grows g.logged);
    distinct = rw q.calls g.distinct;
  }

  -- What a reservation under a key did, by its result.
  abbrev pub Reserved :
      String → T → List (String × Call F) → Result KernelError Bool × World T F → Type 0
  Reserved k t cs (ok true, w') =
      Quiet t cs w' × (is_none (db.find k t) ≡ true) × (is_some (db.find k w'.table) ≡ true)
  Reserved k t cs (ok false, w') = Quiet t cs w'
  Reserved k t cs (err e, w') = Quiet t cs w'

module _ {T F : Type 0} ⦃fl : Float F⦄ (db : Rows T (StateRow F)) (laws : RowLaws db)
    (gateway : Gateway F) (clock : ℕ → ℤ) (cfg : Config) where
  -- the end of `reserve_built`, on the result and the table of the reservation
  flag_kept :
      (k : String) (w : World T F) (t : T) (row : StateRow F) (b : Bool)
      → b ≡ is_none (db.find k w.table)
      → ((j : String)
          → db.find j t
            ≡ (if is_none (db.find k w.table) && str_eq k j then some row else db.find j w.table))
      → Reserved db k w.table w.calls (ok b, record w { table = t })
  flag_kept k w t row true made found = (
    record { calls = refl; grows = λ j h. rw (found j) (ground arith) },
    ground arith,
    rw (found k) (ground (arith, str_eq_iff k k)),
  )
  flag_kept k w t row false made found = record {
    calls = refl;
    grows = λ j h. rw (found j) (ground arith);
  }

  call_cases :
      (k : String) (w : World T F) (t : T) (row : StateRow F)
      (res : Result StoreError (ExecutionStateReservation F))
      → was_created res ≡ is_none (db.find k w.table)
      → ((j : String)
          → db.find j t
            ≡ (if is_none (db.find k w.table) && str_eq k j then some row else db.find j w.table))
      → Reserved db k w.table w.calls
          (continue (or_store res) (λ x s. (ok x.created, s)) (record w { table = t }))
  call_cases k w t row (ok x) made found = flag_kept k w t row x.created made found
  call_cases k w t row (err e) made found = record {
    calls = refl;
    grows = λ j h. rw (found j) (ground arith);
  }

  reserve_built-Reserved :
      (r : ExecutionStateRecord F) (w : World T F)
      → check_record r ≡ ok r
      → Reserved db r.idempotency_key w.table w.calls (reserve_built db gateway clock cfg r w)
  unfolding reserve_built
  reserve_built-Reserved r w valid =
      let exact = reserve-exact db laws r w.table valid in
      call_cases r.idempotency_key w (reserve db r w.table).1 (row_of r) (reserve db r w.table).0
        exact.0 exact.1

  -- What `build` gives at any time, if it gives a record: a valid one under the key.
  abbrev pub Builds : String → (ℤ → Result ValueError (ExecutionStateRecord F)) → Type 0
  Builds k build =
      (n : ℤ) → Returns (λ r. (r.idempotency_key ≡ k) × (check_record r ≡ ok r)) (build n)

  reserve_read :
      (k : String) (w : World T F) (v : Result ValueError (ExecutionStateRecord F))
      → Returns (λ r. (r.idempotency_key ≡ k) × (check_record r ≡ ok r)) v
      → Reserved db k w.table w.calls
          (continue (or_invalid v) (reserve_built db gateway clock cfg) w)
  reserve_read k w (err e) b = record { calls = refl; grows = λ j h. h }
  reserve_read k w (ok r) b =
      let facts = b.at r refl in
      subst (λ x. Reserved db x w.table w.calls (reserve_built db gateway clock cfg r w)) facts.0
        (reserve_built-Reserved r w facts.1)

  pub reserve_record-Reserved :
      (k : String) (build : ℤ → Result ValueError (ExecutionStateRecord F)) (w : World T F)
      → cfg.has_store ≡ true
      → Builds k build
      → Reserved db k w.table w.calls (reserve_record db gateway clock cfg build w)
  unfolding reserve_record now
  reserve_record-Reserved k build w stored b = rw stored (
      reserve_read k (record w { readings = suc w.readings }) (build (clock w.readings))
        (b (clock w.readings)))

  -- Saving a result makes no call and loses no row.
  save_read :
      (w : World T F) (v : Result ValueError (ExecutionStateRecord F))
      → Returns (λ r. check_record r ≡ ok r) v
      → Quiet db w.table w.calls
          (continue
            (or_invalid v)
            (λ r. with_table db gateway clock cfg (save db r) >>= λ _ s. (ok tt, s))
            w).1
  unfolding with_table
  save_read w (err e) b = record { calls = refl; grows = λ j h. h }
  save_read w (ok r) b =
      rw (save_lem db laws r w.table (b.at r refl))
        (record { calls = refl; grows = λ j h. rw (find-write db laws r j w.table) (ground arith) })

  pub save_record-Quiet :
      (build : ℤ → Result ValueError (ExecutionStateRecord F)) (w : World T F)
      → ((n : ℤ) → Returns (λ r. check_record r ≡ ok r) (build n))
      → Quiet db w.table w.calls (save_record db gateway clock cfg build w).1
  unfolding save_record now
  save_record-Quiet build w b = elim (Bool-cases cfg.has_store) [
    | inl stored ↦ rw stored (
        save_read (record w { readings = suc w.readings }) (build (clock w.readings))
          (b (clock w.readings)))
    | inr bare ↦ rw bare (record { calls = refl; grows = λ j h. h })
  ]
