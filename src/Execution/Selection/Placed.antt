-- ===== src/Execution/Selection/Placed.antt =====
-- Where the prices of a selected protection lie.
use chainer_trader.Prelude.{
  ◌≡◌, refl, ◌>>=◌, Bool, true, false, not, ◌||◌, Option, none, some, [], ◌∷◌, String, Result, ok,
  err, arith, is_some, Returns, Returns-bind, Returns-any, Returns-ok,
}
use chainer_trader.Prelude.Float.{Float}
use chainer_trader.Execution.Enums.{ValueError}
use chainer_trader.Execution.Kinds.{ExecutionSide}
use chainer_trader.Execution.Order.{OrderIntent}
use chainer_trader.Execution.Risk.{RiskIntent, RiskArgs, place_protection}
use chainer_trader.Execution.Risk.Valid.{place_protection-kind}
use chainer_trader.Execution.Semantics.{
  Operation, Selection, first_number, stop_price_of, take_profit_of, resolved_trade_id,
  validated_positive, check_places, validate_protection_prices,
}
use chainer_trader.Execution.Selection.{
  or_invalid, risk_args, protect, select_protected, order_intent_of, select_order_semantics,
  is_risk_update,
}

module _ {F : Type 0} ⦃fl : Float F⦄ where
  -- whether a level is present and at the wrong side of the entry price
  abbrev at_or_over : Option F → Option F → Bool
  at_or_over (some e) (some x) = fl.le e x
  at_or_over _ _ = false

  abbrev at_or_under : Option F → Option F → Bool
  at_or_under (some e) (some x) = fl.le x e
  at_or_under _ _ = false

  abbrev is_misplaced : ExecutionSide → Option F → Option F → Option F → Bool
  is_misplaced ExecutionSide.long e stop target = at_or_over e stop || at_or_under e target
  is_misplaced ExecutionSide.short e stop target = at_or_under e stop || at_or_over e target

  abbrev is_misplaced_in : ExecutionSide → Option F → Option (RiskIntent F) → Bool
  is_misplaced_in side e none = false
  is_misplaced_in side e (some r) = is_misplaced side e r.stop_price r.take_profit_price

  validated_positive-same :
      (name : String) (v : Option F) → Returns (λ x. x ≡ v) (validated_positive name v)
  unfolding validated_positive
  validated_positive-same name v = record { at = λ x h. ground arith }

  check_places-Returns :
      (side : ExecutionSide) (e stop target : Option F)
      → Returns (λ _. is_misplaced side e stop target ≡ false) (check_places side e stop target)
  unfolding check_places
  check_places-Returns side e stop target = record { at = λ u h. ground arith }

  validate_protection_prices-Returns :
      (side : ExecutionSide) (e stop target : Option F)
      → Returns
          (λ _. is_misplaced side e stop target ≡ false)
          (validate_protection_prices side e stop target)
  unfolding validate_protection_prices
  validate_protection_prices-Returns side e stop target =
      Returns-bind (validated_positive-same _ e) λ x hx.
        Returns-bind (validated_positive-same _ stop) λ y hy.
          Returns-bind (validated_positive-same _ target)
            λ z hz. rw (hx, hy, hz) (check_places-Returns side e stop target)

  -- What a selection says of its protection.
  abbrev pub Guarded : Bool → ExecutionSide → Option F → Bool → Selection F → Type 0
  Guarded allow side e priced s =
      (is_misplaced_in side e s.risk ≡ false)
      × (is_some s.risk ≡ priced)
      × (not (is_some s.risk) || allow ≡ true)

  placed-Guarded :
      (order : Option (OrderIntent F)) (e stop target : Option F) (side : ExecutionSide)
      (a : RiskArgs F)
      → is_misplaced side e stop target ≡ false
      → Returns (Guarded true side e (is_some stop || is_some target)) (
          or_invalid (place_protection stop target a) >>= λ risk.
          ok (record { order = order; risk = some risk }))
  placed-Guarded order e stop target side a h = by_result (place_protection stop target a) refl
    where
      by_result :
          (made : Result ValueError (RiskIntent F))
          → place_protection stop target a ≡ made
          → Returns
              (Guarded true side e (is_some stop || is_some target))
              (or_invalid made >>= λ risk. ok (record { order = order; risk = some risk }))
      by_result (err x) m = record { at = λ s k. cc }
      by_result (ok r) m =
          let b = place_protection-kind stop target a m in
          Returns-ok (record { order = order; risk = some r }) (rw (b.1, b.2) h, rw b.3 refl, refl)

  protect-Guarded :
      (allow : Bool) (order : Option (OrderIntent F)) (e stop target : Option F)
      (side : ExecutionSide) (a : RiskArgs F)
      → Returns
          (Guarded allow side e (is_some stop || is_some target))
          (protect allow order e stop target side a)
  unfolding protect
  protect-Guarded false order e stop target side a = record { at = λ s k. cc }
  protect-Guarded true order e stop target side a =
      Returns-bind (validate_protection_prices-Returns side e stop target)
        λ _ h. placed-Guarded order e stop target side a h

  select_protected-Guarded :
      (allow : Bool) (order : Option (OrderIntent F)) (e stop target : Option F)
      (side : ExecutionSide) (a : RiskArgs F)
      → Returns
          (Guarded allow side e (is_some stop || is_some target))
          (select_protected allow order e stop target side a)
  unfolding select_protected
  select_protected-Guarded allow order e none none side a = Returns-ok _ (refl, refl, refl)
  select_protected-Guarded allow order e (some stop) target side a =
      protect-Guarded allow order e (some stop) target side a
  select_protected-Guarded allow order e none (some target) side a =
      protect-Guarded allow order e none (some target) side a

  -- For an operation that is no stop replacement, whatever `select_order_semantics` returns: it
  -- has a protection exactly when a stop or a target price is found, only where native protection
  -- is allowed, and on the right side of the entry price if there is one: for a long the stop is
  -- not at or over it and the target not at or under it, and for a short the other way round.
  pub select_order_semantics-Guarded :
      (op : Operation F) (symbol : String) (side : ExecutionSide) (quantity : F)
      (notional : Option F) (trade_id : Option String) (allow : Bool) {s : Selection F}
      → is_risk_update op.otype || is_some op.breakeven_new_stop ≡ false
      → select_order_semantics op symbol side quantity notional trade_id allow ≡ ok s
      → Guarded allow side
          (first_number (op.price ∷ []))
          (is_some (stop_price_of op) || is_some (take_profit_of op))
          s
  unfolding select_order_semantics
  select_order_semantics-Guarded op symbol side quantity notional trade_id allow {s} entry h =
      (Returns-bind (Returns-any (order_intent_of op.otype _)) λ order _.
          select_protected-Guarded allow order (first_number (op.price ∷ [])) (stop_price_of op)
            (take_profit_of op) side
            (risk_args op symbol side quantity (resolved_trade_id trade_id op))).at
        s (rw entry at h)
