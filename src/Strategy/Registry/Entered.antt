-- ===== src/Strategy/Registry/Entered.antt =====
-- What a registry finds after a series of entries.
use chainer_trader.Prelude.{
  ◌≡◌, refl, ◌∙◌, ℕ, ◌≤◌, Bool, true, false, ◌||◌, Option, none, some, List, [], ◌∷◌, String, arith,
  leb, ◌==◌,
}
use chainer_trader.Strategy.Registry.{
  by_id, TradeRegistry, register, allocate_trade_id, resolve, id_of, enter,
}

-- What the strategy does with the registry: a replacement reserves an id, and a trade is entered.
pub data Step (R : Type 0) : Type 0 where
  reserves : Step R
  enters : Option ℕ → Bool → Bool → R → String → Step R

-- whether a step enters a trade under an id that was reserved
abbrev pub takes : {R : Type 0} → ℕ → Step R → Bool
takes n (enters (some m) banned activate_trade r base) = m == n
takes n _ = false

-- A reserved id is one that was allocated before.
abbrev pub is_given : {R : Type 0} → Option ℕ → TradeRegistry R → Bool
is_given none g = true
is_given (some n) g = leb n g.trade_seq

module _ {R : Type 0} where
  abbrev pub step : Step R → TradeRegistry R → TradeRegistry R
  unfolding allocate_trade_id enter
  step reserves g = (allocate_trade_id g).1
  step (enters reserved banned activate_trade r base) g =
      enter reserved banned activate_trade r base g

  unfoldable pub run : List (Step R) → TradeRegistry R → TradeRegistry R
  unfolding step
  run [] g = g
  run (s ∷ ss) g = run ss (step s g)

  abbrev pub any_takes : ℕ → List (Step R) → Bool
  any_takes n [] = false
  any_takes n (s ∷ ss) = takes n s || any_takes n ss

  step-known :
      (n : ℕ) (s : Step R) (g : TradeRegistry R)
      → n ≤ g.trade_seq
      → takes n s ≡ false
      → (resolve (by_id n) (step s g) ≡ resolve (by_id n) g) × (n ≤ (step s g).trade_seq)
  unfolding step resolve enter id_of register allocate_trade_id
  step-known n reserves g h k = (refl, omega arith)
  step-known n (enters none banned activate_trade r base) g h k = ground arith
  step-known n (enters (some m) banned activate_trade r base) g h k = ground arith

  run-known :
      (n : ℕ) (ss : List (Step R)) (g : TradeRegistry R)
      → n ≤ g.trade_seq
      → any_takes n ss ≡ false
      → resolve (by_id n) (run ss g) ≡ resolve (by_id n) g
  unfolding run
  run-known n [] g h k = refl
  run-known n (s ∷ ss) g h k =
      let (same, low) = step-known n s g h (ground (arith, k)) in
      run-known n ss (step s g) low (ground (arith, k)) ∙ same

  enter-new :
      (reserved : Option ℕ) (banned activate_trade : Bool) (r : R) (base : String)
      (g : TradeRegistry R)
      → is_given reserved g ≡ true
      → (resolve (by_id (id_of reserved g).0) (enter reserved banned activate_trade r base g)
          ≡ some r)
        × ((id_of reserved g).0 ≤ (enter reserved banned activate_trade r base g).trade_seq)
  unfolding resolve enter id_of register allocate_trade_id
  enter-new none banned activate_trade r base g h = ground arith
  enter-new (some m) banned activate_trade r base g h = ground arith

  -- A trade that is entered, under a new id or under one that was reserved for it, banned or not, is
  -- found under that id for good: after any further entries, and reservations of ids by replacements,
  -- of which none takes the same reserved id, whatever the keys are.
  pub enter-resolve :
      (reserved : Option ℕ) (banned activate_trade : Bool) (r : R) (base : String)
      (g : TradeRegistry R) (ss : List (Step R))
      → is_given reserved g ≡ true
      → any_takes (id_of reserved g).0 ss ≡ false
      → resolve
          (by_id (id_of reserved g).0)
          (run ss (enter reserved banned activate_trade r base g))
        ≡ some r
  enter-resolve reserved banned activate_trade r base g ss h k =
      let (found, low) = enter-new reserved banned activate_trade r base g h in
      run-known (id_of reserved g).0 ss (enter reserved banned activate_trade r base g) low k
      ∙ found
