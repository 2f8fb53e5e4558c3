-- ===== src/Database/ExecutionStates/Race/Moved.antt =====
-- What one turn of a coroutine in `reserve` does, while another runs under the same key.
use chainer_trader.Prelude.{
  ◌≡◌, refl, sym, subst, ◌∙◌, ◌⊎◌, inl, inr, ℕ, ◌-◌, ◌≤◌, true, Option, none, some, String, ok,
  ◌==◌, if◌then◌else◌, arith,
}
use chainer_trader.Execution.State.{ExecutionStateRecord, check_record}
use chainer_trader.Database.Rows.{Rows, RowLaws}
use chainer_trader.Database.ExecutionStates.{
  StateRow, was_created, lift_value_error, row_of, found, get_by_idempotency_key,
}
use chainer_trader.Database.ExecutionStates.Keys.{model_to_execution_state-row_of}
use chainer_trader.Prelude.Raise
use chainer_trader.Prelude.Text.{str_eq, str_eq_iff}
use chainer_trader.Database.ExecutionStates.Race.{
  Stage, asking, updating, creating, reupdating, reading, done, updated, created, read_back, step,
}

module _ {T F : Type 0} (db : Rows T (StateRow F)) (laws : RowLaws db) (k : String) where
  -- the key's row is that of a valid record
  pub record IsStored (t : T) : Type 0 where
    pub stored : ExecutionStateRecord F
    pub valid : check_record stored ≡ ok stored
    pub row_is : db.find k t ≡ some (row_of stored)

  abbrev pub IsClean : T → Type 0
  IsClean t = (db.find k t ≡ none) ⊎ IsStored t

  -- what a coroutine relies on at a stage
  abbrev pub IsReady : Stage F → T → Type 0
  IsReady asking t = ⊥
  IsReady updating t = Unit
  IsReady creating t = Unit
  IsReady reupdating t = IsStored t
  IsReady reading t = IsStored t
  IsReady (done r) t = was_created r ≡ true

  abbrev pub left : Stage F → ℕ
  left asking = 5
  left updating = 4
  left creating = 3
  left reupdating = 2
  left reading = 1
  left (done r) = 0

  pub record IsMoved (a : Stage F) (t : T) (p : Stage F × T) : Type 0 where
    pub clean : IsClean p.1
    pub ready : IsReady p.0 p.1
    pub keeps : IsStored t → IsStored p.1
    pub nearer : left p.0 ≤ left a - 1

module _ {T F : Type 0} (db : Rows T (StateRow F)) (laws : RowLaws db) (q : ExecutionStateRecord F)
    (valid : check_record q ≡ ok q) where
  abbrev Stored : T → Type 0
  Stored t = IsStored db laws q.idempotency_key t

  abbrev Moved : Stage F → T → Stage F × T → Type 0
  Moved a t p = IsMoved db laws q.idempotency_key a t p

  written :
      (t : T) (o : Option (StateRow F))
      → db.find q.idempotency_key t
        ≡ (if str_eq q.idempotency_key q.idempotency_key then some (row_of q) else o)
      → Stored t
  written t o h = record {
    stored = q;
    valid = valid;
    row_is = h ∙ (rw ((str_eq_iff q.idempotency_key q.idempotency_key).1 refl) refl);
  }

  update-Stored : (t : T) → Stored t → Stored (db.update q.idempotency_key (row_of q) t).1
  update-Stored t s =
      written _ _ (
        laws.find-update q.idempotency_key q.idempotency_key (row_of q) (row_of s.stored) t
          s.row_is)

  wrote :
      (a b : Stage F) (t t' : T)
      → IsReady db laws q.idempotency_key b t'
      → left db laws q.idempotency_key b ≤ left db laws q.idempotency_key a - 1
      → Stored t'
      → Moved a t (b, t')
  wrote a b t t' ready near s = record {
    clean = inr s;
    ready = ready;
    keeps = λ _. s;
    nearer = near;
  }

  pub step-Moved :
      (a : Stage F) (t : T)
      → IsClean db laws q.idempotency_key t
      → IsReady db laws q.idempotency_key a t
      → Moved a t (step db q a t)
  unfolding step get_by_idempotency_key
  step-Moved asking t c h = elim h [ ]
  step-Moved updating t (inl absent) h =
      subst (λ p. Moved updating t (updated p))
        (sym (laws.update_absent q.idempotency_key (row_of q) t absent))
        (record { clean = inl absent; ready = tt; keeps = λ s. s; nearer = omega arith })
  step-Moved updating t (inr s) h =
      let p = db.update q.idempotency_key (row_of q) t in
      let kept = update-Stored t s in
      subst (λ n. Moved updating t (if n == 0 then creating else reading, p.1))
        (sym (laws.update_present q.idempotency_key (row_of q) (row_of s.stored) t s.row_is))
        (wrote updating reading t p.1 kept (omega arith) kept)
  step-Moved creating t (inl absent) h =
      let (t', e, rows) = laws.create_absent q.idempotency_key (row_of q) t absent in
      let kept = written t' _ (rows q.idempotency_key) in
      subst (λ o. Moved creating t (created t o)) (sym e)
        (wrote creating reading t t' kept (omega arith) kept)
  step-Moved creating t (inr s) h =
      subst (λ o. Moved creating t (created t o))
        (sym (laws.create_present q.idempotency_key (row_of q) (row_of s.stored) t s.row_is))
        (wrote creating reupdating t t s (omega arith) s)
  step-Moved reupdating t c s =
      let kept = update-Stored t s in wrote reupdating reading t _ kept (omega arith) kept
  step-Moved reading t c s =
      subst (λ o. Moved reading t (read_back q.idempotency_key (found db o), t)) (sym s.row_is)
        (subst
          (λ v.
            Moved reading t
              (read_back q.idempotency_key (Raise.◌>>=◌ (lift_value_error v) λ x. ok (some x)), t))
          (sym (model_to_execution_state-row_of s.stored s.valid))
          (record { clean = c; ready = refl; keeps = λ x. x; nearer = omega arith }))
  step-Moved (done r) t c h = record { clean = c; ready = h; keeps = λ s. s; nearer = omega arith }
