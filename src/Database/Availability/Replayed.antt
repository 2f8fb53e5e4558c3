-- ===== src/Database/Availability/Replayed.antt =====
-- After any calls of the collection, its answers are those of the calls, replayed.
use Prim.Native.Nat.{ℕ}
use chainer_trader.Prelude.{
  ◌≡◌, refl, Bool, true, false, not, ◌&&◌, Option, none, some, List, [], ◌∷◌, String, Result, ok,
  inl, inr, ltb, leb, if◌then◌else◌, arith, Bool-cases, ap, ◌∙◌,
}
use chainer_trader.Database.Availability.{
  Key, key_eq, Availability, DbError, Table, with_earliest, earliest_of, lowest, highest, range_of,
  get_earliest_known_open_time, get_cached_open_time_range, update_earliest_known_open_time,
  update_cached_open_time_range, reaches, lower_earliest, widen, is_same, or_none,
}
use chainer_trader.Database.Availability.Window.{
  TableLaws, Call, known_from, cached_range, key_of, seen, replay, IsRow, window_of, key_eq_iff,
  step, run,
}

-- The row that a call leaves, of the row of its key.
abbrev widened : Option Availability → ℕ → ℕ → ℕ → String → Availability
widened none a b now s = record {
  earliest_known_open_time = none;
  cached_start_open_time = some a;
  cached_end_open_time = some b;
  updated_at = now;
  source = s;
}
widened (some r) a b now s = record r {
  cached_start_open_time = some (lowest r.cached_start_open_time a);
  cached_end_open_time = some (highest r.cached_end_open_time b);
  updated_at = now;
  source = s;
}

-- whether it changes the range
abbrev changes : Option Availability → ℕ → ℕ → Bool
changes none a b = true
changes (some r) a b = not (
    is_same (lowest r.cached_start_open_time a) r.cached_start_open_time
    && is_same (highest r.cached_end_open_time b) r.cached_end_open_time)

abbrev new_row : Call → Option Availability → Option Availability
new_row (known_from k n s) o = if reaches (earliest_of o) n then o else some (with_earliest n n s o)
new_row (cached_range k a b now s) o =
    if leb a b && changes o a b then some (widened o a b now s) else o

new_row-IsRow : (c : Call) (o : Option Availability) → IsRow o → IsRow (new_row c o)
new_row-IsRow (known_from k n s) o h = ground arith
new_row-IsRow (cached_range k a b now s) none h = ground arith
new_row-IsRow (cached_range k a b now s) (some r) h = ground arith

-- The row of a call's key stands for what the call makes known of its market.
new_row-seen :
    (c : Call) (o : Option Availability) → IsRow o → window_of (new_row c o) ≡ seen c (window_of o)
new_row-seen (known_from k n s) none h = ground arith
new_row-seen (known_from k n s) (some r) h = ground arith
new_row-seen (cached_range k a b now s) none h = ground arith
new_row-seen (cached_range k a b now s) (some r) h = ground arith

window-if :
    (b : Bool) (c : Call) (o p : Option Availability)
    → (b ≡ true → o ≡ p)
    → IsRow o
    → window_of (if b then new_row c o else p) ≡ (if b then seen c (window_of p) else window_of p)
window-if true c o p e h = new_row-seen c o h ∙ ap (λ q. seen c (window_of q)) (e refl)
window-if false c o p e h = refl

module _ {T : Type 0} (db : Table T) (laws : TableLaws db) where
  known_from_row :
      (j k : Key) (n : ℕ) (s : String) (t : T) (o : Option Availability)
      → laws.row k t ≡ o
      → laws.row j (lower_earliest db k n s (ok o) t).1
        ≡ (if key_eq k j then new_row (known_from k n s) o else laws.row j t)
  known_from_row j k n s t o e =
      ground
        (arith, laws.update_or_create_is k n n s t, laws.row-upserted k j n n s t, key_eq_iff k j)

  widen_row :
      (j k : Key) (a b now : ℕ) (s : String) (t : T) (o : Option Availability)
      → laws.row k t ≡ o
      → leb a b ≡ true
      → laws.row j (widen db k a b now s (ok o) t).1
        ≡ (if key_eq k j then new_row (cached_range k a b now s) o else laws.row j t)
  widen_row j k a b now s t none e h = ground (
    arith,
    laws.create_is k (widened none a b now s) t e,
    laws.row-created k j (widened none a b now s) t,
    key_eq_iff k j,
  )
  widen_row j k a b now s t (some r) e h = ground (
    arith,
    laws.save_is k (widened (some r) a b now s) r t e,
    laws.row-created k j (widened (some r) a b now s) t,
    key_eq_iff k j,
  )

  -- `update_cached_open_time_range`, by the answer to its query
  abbrev guarded : Key → ℕ → ℕ → ℕ → String → T → Result DbError (Option Availability) → T
  guarded k a b now s t r =
      (if ltb b a
        then (ok false, t)
        else if not db.has_cached_fields
        then (ok false, t)
        else widen db k a b now s r t).1

  guarded_row :
      (j k : Key) (a b now : ℕ) (s : String) (t : T) (o : Option Availability)
      → laws.row k t ≡ o
      → laws.row j (guarded k a b now s t (ok o))
        ≡ (if key_eq k j then new_row (cached_range k a b now s) o else laws.row j t)
  guarded_row j k a b now s t o e =
      let found = key_eq_iff k j in
      elim (Bool-cases (leb a b)) [
        | inl h ↦ ground (arith, laws.migrated, widen_row j k a b now s t o e h)
        | inr h ↦ ground arith
      ]

  row-step :
      (j : Key) (c : Call) (t : T)
      → laws.row j (step db c t)
        ≡ (if key_eq (key_of c) j then new_row c (laws.row (key_of c) t) else laws.row j t)
  unfolding update_earliest_known_open_time update_cached_open_time_range
  row-step j (known_from k n s) t =
      ap (λ r. laws.row j (lower_earliest db k n s r t).1) (laws.first_is k t)
      ∙ known_from_row j k n s t (laws.row k t) refl
  row-step j (cached_range k a b now s) t =
      ap (λ r. laws.row j (guarded k a b now s t r)) (laws.first_is k t)
      ∙ guarded_row j k a b now s t (laws.row k t) refl

  -- Every row has both ends of its range, in order, or none.
  pub record AreRows (t : T) : Type 0 where
    pub at : (j : Key) → IsRow (laws.row j t)

  step-AreRows : (c : Call) (t : T) → AreRows t → AreRows (step db c t)
  step-AreRows c t h = record {
    at = λ j. ground (
      arith,
      row-step j c t,
      h.at j,
      h.at (key_of c),
      new_row-IsRow c (laws.row (key_of c) t) (h.at (key_of c)),
    );
  }

  window-step :
      (j : Key) (c : Call) (t : T)
      → AreRows t
      → window_of (laws.row j (step db c t)) ≡ (
          if key_eq (key_of c) j
          then seen c (window_of (laws.row j t))
          else window_of (laws.row j t))
  window-step j c t h =
      ap window_of (row-step j c t)
      ∙ window-if (key_eq (key_of c) j) c (laws.row (key_of c) t) (laws.row j t)
          (λ e. ap (λ k. laws.row k t) ((key_eq_iff (key_of c) j).0 e)) (h.at (key_of c))

  run_rows :
      (j : Key) (cs : List Call) (t : T)
      → AreRows t
      → window_of (laws.row j (run db cs t)) ≡ replay j cs (window_of (laws.row j t))
  run_rows j [] t h = refl
  run_rows j (c ∷ cs) t h =
      run_rows j cs (step db c t) (step-AreRows c t h) ∙ ap (replay j cs) (window-step j c t h)

  -- After any calls, what the collection answers of a market is what the calls, replayed in order,
  -- make known of it: the least of the earliest times, and the hull of the ranges.
  pub run_refines_window :
      (j : Key) (cs : List Call) (t : T)
      → AreRows t
      → (get_cached_open_time_range db j (run db cs t)
          ≡ ok (replay j cs (window_of (laws.row j t))).cached)
        × (get_earliest_known_open_time db j (run db cs t)
            ≡ ok (replay j cs (window_of (laws.row j t))).earliest)
  unfolding get_cached_open_time_range get_earliest_known_open_time
  run_refines_window j cs t h =
      let w = run_rows j cs t h in
      let found = laws.first_is j (run db cs t) in
      (
        ap (λ b. if not b then ok none else or_none db range_of (db.first j (run db cs t)))
              laws.migrated
            ∙ ap (or_none db range_of) found
            ∙ ap (λ v. ok v.cached) w,
        ap (or_none db earliest_of) found ∙ ap (λ v. ok v.earliest) w,
      )
