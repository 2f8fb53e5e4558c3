-- ===== src/Database/ExecutionStates/Race/Made.antt =====
-- What two coroutines in `reserve` are told, however their turns interleave.
use chainer_trader.Prelude.{
  ◌≡◌, refl, ap, sym, subst, ◌∙◌, inl, ℕ, ◌-◌, ◌≤◌, Bool, true, false, none, List, [], ◌∷◌, String,
  ok, arith,
}
use chainer_trader.Execution.State.{ExecutionStateRecord, check_record}
use chainer_trader.Database.Rows.{Rows, RowLaws}
use chainer_trader.Database.ExecutionStates.{StateRow, found, get_by_idempotency_key}
use chainer_trader.Database.ExecutionStates.Race.{
  Stage, asking, updating, creating, reupdating, reading, done, asked, is_made, step, reserve_both,
  turns_of,
}
use chainer_trader.Database.ExecutionStates.Race.Moved.{
  IsStored, IsClean, IsReady, left, IsMoved, step-Moved,
}

module _ {T F : Type 0} (db : Rows T (StateRow F)) (laws : RowLaws db) (k : String) where
  step-IsMoved :
      (q : ExecutionStateRecord F) (valid : check_record q ≡ ok q) (key_is : q.idempotency_key ≡ k)
      (a : Stage F) (t : T)
      → IsClean db laws k t
      → IsReady db laws k a t
      → IsMoved db laws k a t (step db q a t)
  step-IsMoved q valid key_is a t =
      subst
        (λ j. IsClean db laws j t → IsReady db laws j a t → IsMoved db laws j a t (step db q a t))
        key_is (step-Moved db laws q valid a t)

  still-IsReady :
      (a : Stage F) (t t' : T)
      → (IsStored db laws k t → IsStored db laws k t')
      → IsReady db laws k a t
      → IsReady db laws k a t'
  still-IsReady asking t t' f h = h
  still-IsReady updating t t' f h = h
  still-IsReady creating t t' f h = h
  still-IsReady reupdating t t' f h = f h
  still-IsReady reading t t' f h = f h
  still-IsReady (done r) t t' f h = h

  made_at_end :
      (a : Stage F) (t : T) → IsReady db laws k a t → left db laws k a ≤ 0 → is_made a ≡ true
  made_at_end asking t h e = ground (arith, e)
  made_at_end updating t h e = ground (arith, e)
  made_at_end creating t h e = ground (arith, e)
  made_at_end reupdating t h e = ground (arith, e)
  made_at_end reading t h e = ground (arith, e)
  made_at_end (done r) t h e = h

  -- Two coroutines of valid records with the key, after a number of turns each.
  record AreMoved (m n : ℕ) (a b : Stage F) (w : Stage F × Stage F × T) : Type 0 where
    first_ready : IsReady db laws k w.0 w.2
    second_ready : IsReady db laws k w.1 w.2
    first_nearer : left db laws k w.0 ≤ left db laws k a - m
    second_nearer : left db laws k w.1 ≤ left db laws k b - n

  module _ (r s : ExecutionStateRecord F) (vr : check_record r ≡ ok r) (vs : check_record s ≡ ok s)
      (kr : r.idempotency_key ≡ k) (ks : s.idempotency_key ≡ k) where
    reserve_both-AreMoved :
        (turns : List Bool) (a b : Stage F) (t : T)
        → IsClean db laws k t
        → IsReady db laws k a t
        → IsReady db laws k b t
        → AreMoved
            (turns_of true turns)
            (turns_of false turns)
            a
            b
            (reserve_both db r s turns (a, b, t))
    unfolding reserve_both
    reserve_both-AreMoved [] a b t c h j = record {
      first_ready = h;
      second_ready = j;
      first_nearer = omega arith;
      second_nearer = omega arith;
    }
    reserve_both-AreMoved (true ∷ turns) a b t c h j =
        let moved = step-IsMoved r vr kr a t c h in
        let rest =
          reserve_both-AreMoved turns (step db r a t).0 b (step db r a t).1 moved.clean moved.ready
            (still-IsReady b t _ moved.keeps j) in
        record {
          first_ready = rest.first_ready;
          second_ready = rest.second_ready;
          first_nearer = omega (arith, rest.first_nearer, moved.nearer);
          second_nearer = rest.second_nearer;
        }
    reserve_both-AreMoved (false ∷ turns) a b t c h j =
        let moved = step-IsMoved s vs ks b t c j in
        let rest =
          reserve_both-AreMoved turns a (step db s b t).0 (step db s b t).1 moved.clean
            (still-IsReady a t _ moved.keeps h) moved.ready in
        record {
          first_ready = rest.first_ready;
          second_ready = rest.second_ready;
          first_nearer = rest.first_nearer;
          second_nearer = omega (arith, rest.second_nearer, moved.nearer);
        }

module _ {T F : Type 0} (db : Rows T (StateRow F)) where
  -- the two queries, of a key that no row has
  queried :
      (r s : ExecutionStateRecord F) (t : T) (turns : List Bool)
      → db.find r.idempotency_key t ≡ none
      → db.find s.idempotency_key t ≡ none
      → reserve_both db r s (true ∷ false ∷ turns) (asking, asking, t)
        ≡ reserve_both db r s turns (updating, updating, t)
  unfolding reserve_both step get_by_idempotency_key
  queried r s t turns absent_r absent_s =
      ap
        (λ o.
          reserve_both db r s turns
            (asked (found db o), asked (found db (db.find s.idempotency_key t)), t))
        absent_r
      ∙ (ap (λ o. reserve_both db r s turns (updating, asked (found db o), t)) absent_s)

  -- If two coroutines reserve valid records under one key that no row has, and both make their query
  -- before either writes, then however their further steps interleave, when each has had four more
  -- turns, both are at their end and are told that they made the reservation.
  pub reserve_both-created :
      (laws : RowLaws db) (r s : ExecutionStateRecord F) (t : T) (turns : List Bool)
      → check_record r ≡ ok r
      → check_record s ≡ ok s
      → s.idempotency_key ≡ r.idempotency_key
      → db.find r.idempotency_key t ≡ none
      → 4 ≤ turns_of true turns
      → 4 ≤ turns_of false turns
      → (is_made (reserve_both db r s (true ∷ false ∷ turns) (asking, asking, t)).0 ≡ true)
        × (is_made (reserve_both db r s (true ∷ false ∷ turns) (asking, asking, t)).1 ≡ true)
  reserve_both-created laws r s t turns vr vs same absent m n =
      let absent_s = subst (λ j. db.find j t ≡ none) (sym same) absent in
      let moved =
        reserve_both-AreMoved db laws r.idempotency_key r s vr vs refl same turns updating updating
          t (inl absent) tt tt in
      subst (λ w. (is_made w.0 ≡ true) × (is_made w.1 ≡ true))
        (sym (queried r s t turns absent absent_s))
        (
          made_at_end db laws r.idempotency_key _ _ moved.first_ready
              (omega (arith, moved.first_nearer)),
          made_at_end db laws r.idempotency_key _ _ moved.second_ready
              (omega (arith, moved.second_nearer)),
        )
