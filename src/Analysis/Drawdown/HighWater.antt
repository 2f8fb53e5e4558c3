-- ===== src/Analysis/Drawdown/HighWater.antt =====
-- The high-water mark and the maximum of the drawdowns.
use chainer_trader.Prelude.{◌≡◌, true, false, List, [], ◌∷◌, ◌++◌, arith, is_some}
use chainer_trader.Prelude.Float.{Float, OrderLaws}
use chainer_trader.Analysis.Drawdown.{
  Bar, MaxDrawdown, drawdown, first_peak, update_peak, update_full_drawdown, position_sign,
  against_active_peak, update_active_drawdown, next, run,
}

module _ {F : Type 0} ⦃fl : Float F⦄ where
  irrefl : (laws : OrderLaws fl) (x : F) → fl.lt x x ≡ false
  irrefl laws x = ground (arith, laws.lt_asym x x)

  -- what is not above a number is not above a greater one
  not_above_greater :
      (laws : OrderLaws fl) (a b x : F) → fl.lt a b ≡ true → fl.lt a x ≡ false → fl.lt b x ≡ false
  not_above_greater laws a b x h k = ground (arith, laws.lt_trans a b x)

  -- the part of the state that `_update_full_drawdown` writes stays in `_update_active_drawdown`
  active-peak :
      (b : Bar F) (s : MaxDrawdown F)
      → ((update_active_drawdown b s).peak_equity ≡ s.peak_equity)
        × ((update_active_drawdown b s).peak_time ≡ s.peak_time)
        × ((update_active_drawdown b s).max_dd ≡ s.max_dd)
  unfolding update_active_drawdown against_active_peak position_sign
  active-peak b s = ground arith

  peak-known :
      (laws : OrderLaws fl) (b : Bar F) (s : MaxDrawdown F) (x : F)
      → is_some s.peak_time ≡ true
      → fl.lt s.peak_equity x ≡ false
      → fl.lt (update_full_drawdown b s).peak_equity x ≡ false
  unfolding update_full_drawdown first_peak update_peak
  peak-known laws b s x started below = ground (arith, laws.lt_trans s.peak_equity b.equity x)

  peak-own :
      (laws : OrderLaws fl) (b : Bar F) (s : MaxDrawdown F)
      → (fl.lt (update_full_drawdown b s).peak_equity b.equity ≡ false)
        × (is_some (update_full_drawdown b s).peak_time ≡ true)
  unfolding update_full_drawdown first_peak update_peak
  peak-own laws b s = ground (arith, irrefl laws b.equity)

  max_dd-known :
      (laws : OrderLaws fl) (b : Bar F) (s : MaxDrawdown F) (x : F)
      → fl.lt s.max_dd x ≡ false
      → fl.lt (update_full_drawdown b s).max_dd x ≡ false
  unfolding update_full_drawdown first_peak update_peak
  max_dd-known laws b s x below = ground (
    arith,
    not_above_greater laws s.max_dd (drawdown b.equity b.equity) x,
    not_above_greater laws s.max_dd (drawdown s.peak_equity b.equity) x,
  )

  max_dd-own :
      (laws : OrderLaws fl) (b : Bar F) (s : MaxDrawdown F)
      → fl.lt (first_peak b s).peak_equity b.equity ≡ false
      → fl.lt fl.zero_f (first_peak b s).peak_equity ≡ true
      → fl.lt (update_full_drawdown b s).max_dd (drawdown (first_peak b s).peak_equity b.equity)
        ≡ false
  unfolding update_full_drawdown update_peak
  max_dd-own laws b s old positive =
      ground (arith, irrefl laws (drawdown (first_peak b s).peak_equity b.equity))

  next-peak :
      (laws : OrderLaws fl) (b : Bar F) (s : MaxDrawdown F) (x : F)
      → is_some s.peak_time ≡ true
      → fl.lt s.peak_equity x ≡ false
      → fl.lt (next b s).peak_equity x ≡ false
  unfolding next
  next-peak laws b s x started below =
      rw ((active-peak b (update_full_drawdown b s)).0) (peak-known laws b s x started below)

  next-own :
      (laws : OrderLaws fl) (b : Bar F) (s : MaxDrawdown F)
      → (fl.lt (next b s).peak_equity b.equity ≡ false) × (is_some (next b s).peak_time ≡ true)
  unfolding next
  next-own laws b s =
      rw
        ((active-peak b (update_full_drawdown b s)).0, (active-peak b (update_full_drawdown b s)).1)
        (peak-own laws b s)

  next-max_dd :
      (laws : OrderLaws fl) (b : Bar F) (s : MaxDrawdown F) (x : F)
      → fl.lt s.max_dd x ≡ false
      → fl.lt (next b s).max_dd x ≡ false
  unfolding next
  next-max_dd laws b s x below =
      rw ((active-peak b (update_full_drawdown b s)).2) (max_dd-known laws b s x below)

  next-own_dd :
      (laws : OrderLaws fl) (b : Bar F) (s : MaxDrawdown F)
      → fl.lt (first_peak b s).peak_equity b.equity ≡ false
      → fl.lt fl.zero_f (first_peak b s).peak_equity ≡ true
      → fl.lt (next b s).max_dd (drawdown (first_peak b s).peak_equity b.equity) ≡ false
  unfolding next
  next-own_dd laws b s old positive =
      rw ((active-peak b (update_full_drawdown b s)).2) (max_dd-own laws b s old positive)

  run-peak :
      (laws : OrderLaws fl) (bs : List (Bar F)) (s : MaxDrawdown F) (x : F)
      → is_some s.peak_time ≡ true
      → fl.lt s.peak_equity x ≡ false
      → fl.lt (run bs s).peak_equity x ≡ false
  unfolding run
  run-peak laws [] s x started below = below
  run-peak laws (b ∷ bs) s x started below =
      run-peak laws bs (next b s) x (next-own laws b s).1 (next-peak laws b s x started below)

  run-max_dd :
      (laws : OrderLaws fl) (bs : List (Bar F)) (s : MaxDrawdown F) (x : F)
      → fl.lt s.max_dd x ≡ false
      → fl.lt (run bs s).max_dd x ≡ false
  unfolding run
  run-max_dd laws [] s x below = below
  run-max_dd laws (b ∷ bs) s x below =
      run-max_dd laws bs (next b s) x (next-max_dd laws b s x below)

  -- After any run of bars, from any state: no bar of the run had a value of the account above the
  -- peak, when the comparisons of floats are those of an order.
  pub run-high_water :
      (laws : OrderLaws fl) (bs : List (Bar F)) (b : Bar F) (cs : List (Bar F)) (s : MaxDrawdown F)
      → fl.lt (run (bs ++ (b ∷ cs)) s).peak_equity b.equity ≡ false
  unfolding run
  run-high_water laws [] b cs s =
      run-peak laws cs (next b s) b.equity (next-own laws b s).1 (next-own laws b s).0
  run-high_water laws (a ∷ bs) b cs s = run-high_water laws bs b cs (next a s)

  -- The maximum drawdown of a run of bars is not below the drawdown at any bar of it that is not
  -- above the peak before it, if that peak is positive. At the first bar the peak before it is its
  -- own value. The comparisons of floats are assumed to be those of an order.
  pub run-not_understated :
      (laws : OrderLaws fl) (bs : List (Bar F)) (b : Bar F) (cs : List (Bar F)) (s : MaxDrawdown F)
      → fl.lt (first_peak b (run bs s)).peak_equity b.equity ≡ false
      → fl.lt fl.zero_f (first_peak b (run bs s)).peak_equity ≡ true
      → fl.lt
          (run (bs ++ (b ∷ cs)) s).max_dd
          (drawdown (first_peak b (run bs s)).peak_equity b.equity)
        ≡ false
  unfolding run
  run-not_understated laws [] b cs s old positive =
      run-max_dd laws cs (next b s) _ (next-own_dd laws b s old positive)
  run-not_understated laws (a ∷ bs) b cs s old positive =
      run-not_understated laws bs b cs (next a s) old positive
