-- ===== src/Strategy/StopRisk/Tightens.antt =====
-- Stops only tighten.
use chainer_trader.Prelude.{
  ◌≡◌, refl, inl, inr, Bool, true, false, Option, none, some, String, arith, Bool-cases,
  if◌then◌else◌,
}
use chainer_trader.Prelude.Int.{ℤ}
use chainer_trader.Prelude.Float.{Float}
use chainer_trader.Prelude.Text.{str_eq}
use chainer_trader.Strategy.Context.{TradeContext}
use chainer_trader.Strategy.StopRisk.{
  Env, BreakevenAdjustment, TrailingStopAdjustment, adjust, adjustment_of, trail_of, short_of_entry,
  breakeven_adjustment, trailing_stop_adjustment,
}

absurd_some : {A B : Type 0} (o : Option A) {a : A} → o ≡ none → o ≡ some a → B
absurd_some o e h = cc

module _ {F : Type 0} ⦃fl : Float F⦄ where
  -- the second stop is nearer to profit than the first: higher for a long, lower for a short
  abbrev pub tighter : Bool → F → F → Bool
  tighter is_long old new = if is_long then fl.lt old new else fl.lt new old

  adjust-tighter :
      (env : Env F) (is_long : Bool) (entry risk stop : F) (step : ℤ) (made : Option F)
      {a : BreakevenAdjustment F}
      → adjust env is_long entry risk stop step made ≡ some a
      → (a.old_stop ≡ stop) × (tighter is_long a.old_stop a.new_stop ≡ true)
  unfolding adjust
  adjust-tighter env is_long entry risk stop step none h = cc
  adjust-tighter env is_long entry risk stop step (some x) h = ground arith

  -- an option without its value, or with a value
  adjustment-tighter :
      (env : Env F) (direction : String) (step : ℤ) (close : F) (entry stop initial : Option F)
      {a : BreakevenAdjustment F}
      → adjustment_of env direction step close entry stop initial ≡ some a
      → (stop ≡ some a.old_stop) × (tighter (str_eq direction "LONG") a.old_stop a.new_stop ≡ true)
  adjustment-tighter env direction step close (some e) (some s) (some i) {a} h =
      let is_long = str_eq direction "LONG" in
      let risk = if is_long then fl.sub e i else fl.sub i e in
      elim (Bool-cases (fl.le risk fl.zero_f)) [
        | inl bad ↦ absurd_some none refl (rw bad at h)
        | inr good ↦
            let b = adjust-tighter env is_long e risk s step _ (rw good at h) in (rw b.0 refl, b.1)
      ]
  adjustment-tighter env direction step close (some e) (some s) none h = cc
  adjustment-tighter env direction step close (some e) none i h = cc
  adjustment-tighter env direction step close none s i h = cc

  -- whether the first stop is not nearer to profit than the second
  abbrev pub behind : Bool → F → F → Bool
  behind is_long new old = if is_long then fl.le new old else fl.le old new

  trail-tighter :
      (direction : String) (best ratio : F) (entry initial stop : Option F)
      {a : TrailingStopAdjustment F}
      → trail_of direction best ratio entry initial stop ≡ some a
      → (stop ≡ some a.old_stop)
        × (behind (str_eq direction "LONG") a.new_stop a.old_stop ≡ false)
        × (short_of_entry (str_eq direction "LONG") a.new_stop entry ≡ false)
  trail-tighter direction best ratio entry (some i) (some s) {a} h = ground arith
  trail-tighter direction best ratio entry (some i) none h = cc
  trail-tighter direction best ratio entry none s h = cc

  module _ {O : Type 0} where
    -- `breakeven_adjustment` moves the stop that the trade has, and only towards profit: up for a
    -- long, and down for a short; only where breakeven is enabled.
    pub breakeven_adjustment-tighter :
        (env : Env F) (c : TradeContext F O) (close : F) {a : BreakevenAdjustment F}
        → breakeven_adjustment env c close ≡ some a
        → (c.enable_breakeven ≡ true)
          × (c.stop_price ≡ some a.old_stop)
          × (tighter (str_eq c.direction "LONG") a.old_stop a.new_stop ≡ true)
    unfolding breakeven_adjustment
    breakeven_adjustment-tighter env c close {a} h = elim (Bool-cases c.enable_breakeven) [
      | inl enabled ↦
          let b =
            adjustment-tighter env c.direction c.breakeven_step close c.entry_price c.stop_price
              c.initial_stop_price (rw enabled at h) in
          (enabled, b.0, b.1)
      | inr disabled ↦ absurd_some none refl (rw disabled at h)
    ]

    -- `trailing_stop_adjustment` moves the stop that the trade has, and the new stop is not behind
    -- the old one or at it, nor behind the entry price or at it where there is one: for a long it
    -- does not compare as at most either, and for a short as at least.
    pub trailing_stop_adjustment-tighter :
        (c : TradeContext F O) (best ratio : F) {a : TrailingStopAdjustment F}
        → trailing_stop_adjustment c best ratio ≡ some a
        → (c.stop_price ≡ some a.old_stop)
          × (behind (str_eq c.direction "LONG") a.new_stop a.old_stop ≡ false)
          × (short_of_entry (str_eq c.direction "LONG") a.new_stop c.entry_price ≡ false)
    unfolding trailing_stop_adjustment
    trailing_stop_adjustment-tighter c best ratio {a} h =
        elim (Bool-cases (fl.le ratio fl.zero_f)) [
          | inl off ↦ absurd_some none refl (rw off at h)
          | inr on ↦
              trail-tighter c.direction best ratio c.entry_price c.initial_stop_price c.stop_price
                (rw on at h)
        ]
