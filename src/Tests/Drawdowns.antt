-- ===== src/Tests/Drawdowns.antt =====
-- The theorems on drawdowns at concrete bars.
use chainer_trader.Prelude.{◌≡◌, refl, true, false, List, [], ◌∷◌, ◌++◌}
use chainer_trader.Prelude.Int.{ℤ, pos, ◌*ℤ◌, ◌-ℤ◌}
use chainer_trader.Prelude.Float.{Float, OrderLaws, int_float, int_float-OrderLaws}
use chainer_trader.Analysis.Drawdown.{
  Bar, start, first_peak, drawdown, update_active_drawdown, position_sign, update_full_drawdown,
  update_peak, against_active_peak, next, run,
}
use chainer_trader.Analysis.Drawdown.HighWater.{run-high_water, run-not_understated}

instance float_ℤ : Float ℤ
float_ℤ = int_float

float_ℤ-OrderLaws : OrderLaws float_ℤ
unfolding float_ℤ
float_ℤ-OrderLaws = int_float-OrderLaws

abbrev bar : ℤ → ℤ → Bar ℤ
bar time equity = record { time = time; equity = equity; position_size = pos 1 }

-- up to 120, down to 90, up to 130
abbrev before : List (Bar ℤ)
before = bar (pos 1) (pos 100) ∷ bar (pos 2) (pos 120) ∷ []

run-high_water_example :
    float_ℤ.lt
      (run
        (before ++ (bar (pos 3) (pos 90) ∷ bar (pos 4) (pos 130) ∷ []))
        (start (pos 100))).peak_equity
      (pos 90)
    ≡ false
run-high_water_example =
    run-high_water float_ℤ-OrderLaws before (bar (pos 3) (pos 90)) (bar (pos 4) (pos 130) ∷ [])
      (start (pos 100))

old_peak :
    float_ℤ.lt
      (first_peak (bar (pos 3) (pos 90)) (run before (start (pos 100)))).peak_equity
      (pos 90)
    ≡ false
unfolding run start float_ℤ first_peak next update_active_drawdown position_sign
    update_full_drawdown update_peak drawdown ◌*ℤ◌ ◌-ℤ◌ against_active_peak
old_peak = refl

positive_peak :
    float_ℤ.lt float_ℤ.zero_f
      (first_peak (bar (pos 3) (pos 90)) (run before (start (pos 100)))).peak_equity
    ≡ true
unfolding run start float_ℤ first_peak next update_active_drawdown position_sign
    update_full_drawdown update_peak drawdown ◌*ℤ◌ ◌-ℤ◌ against_active_peak
positive_peak = refl

run-not_understated_example :
    float_ℤ.lt
      (run (before ++ (bar (pos 3) (pos 90) ∷ bar (pos 4) (pos 130) ∷ [])) (start (pos 100))).max_dd
      (drawdown
        (first_peak (bar (pos 3) (pos 90)) (run before (start (pos 100)))).peak_equity
        (pos 90))
    ≡ false
run-not_understated_example =
    run-not_understated float_ℤ-OrderLaws before (bar (pos 3) (pos 90)) (bar (pos 4) (pos 130) ∷ [])
      (start (pos 100)) old_peak positive_peak
