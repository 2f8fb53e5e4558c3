-- ===== src/Execution/Risk/Valid.antt =====
-- What `RiskIntent.__post_init__` and the constructors establish.
use chainer_trader.Prelude.{
  ◌≡◌, refl, true, false, ◌&&◌, ◌||◌, if◌then◌else◌, Option, none, String, ok, arith, is_none,
  is_some, Returns, Returns-bind, Returns-any,
}
use chainer_trader.Prelude.Float.{Float}
use chainer_trader.Execution.Kinds.{ProtectionIntentType, RiskIntentAction, execution_side_enum}
use chainer_trader.Execution.Enums.{normalize_enum}
use chainer_trader.Execution.Order.Valid.{IsText, IsNotAtMostZero, require_text-IsText}
use chainer_trader.Execution.Order.{require_positive}
use chainer_trader.Execution.Risk.{
  RiskIntent, RiskArgs, make_risk, check_protection, require_positive_number, place_protection,
  is_place, is_replace, protection_type_for,
}

module _ {F : Type 0} ⦃fl : Float F⦄ where
  pub record IsValid (r : RiskIntent F) : Type 0 where
    pub intent_id : IsText r.intent_id
    pub operation_id : IsText r.operation_id
    pub symbol : IsText r.symbol
    pub trade_id : IsText r.trade_id
    pub quantity : fl.le r.quantity fl.zero_f ≡ false
    pub stop_price : IsNotAtMostZero r.stop_price
    pub take_profit_price : IsNotAtMostZero r.take_profit_price
    pub placed :
        (is_place r.action && (is_none r.stop_price && is_none r.take_profit_price)) ≡ false
    pub replaced : (is_replace r.action && is_none r.stop_price) ≡ false

  require_positive_number-Returns :
      (v : F) (n : String) → Returns (λ x. fl.le x fl.zero_f ≡ false) (require_positive_number v n)
  unfolding require_positive_number
  require_positive_number-Returns v n = record { at = λ x h. ground arith }

  -- the intent that is built, and the parts that its constructor fixes
  pub record Built (kind : ProtectionIntentType) (action : RiskIntentAction)
      (stop target : Option F) (r : RiskIntent F) : Type 0 where
    pub valid : IsValid r
    pub kind_lem : r.protection_type ≡ kind
    pub action_lem : r.action ≡ action
    pub stop_lem : r.stop_price ≡ stop
    pub target_lem : r.take_profit_price ≡ target

  check_protection-Built :
      (kind : ProtectionIntentType) (action : RiskIntentAction) (stop target : Option F)
      (r : RiskIntent F)
      → IsText r.intent_id
      → IsText r.operation_id
      → IsText r.symbol
      → IsText r.trade_id
      → fl.le r.quantity fl.zero_f ≡ false
      → (r.stop_price ≡ stop) × IsNotAtMostZero r.stop_price
      → (r.take_profit_price ≡ target) × IsNotAtMostZero r.take_profit_price
      → r.protection_type ≡ kind
      → r.action ≡ action
      → Returns (Built kind action stop target) (check_protection r)
  unfolding check_protection
  check_protection-Built kind action stop target r i p s t q a b k c = record {
    at = λ r' h. ground arith;
  }

  require_positive-same :
      (v : Option F) (n : String)
      → Returns (λ x. (x ≡ v) × IsNotAtMostZero x) (require_positive v n)
  unfolding require_positive
  require_positive-same v n = record { at = λ x h. ground arith }

  -- A risk intent that is built names its trade, has a quantity and prices not at most zero, carries the
  -- price that its action needs, and has the type, action and prices that its constructor gave.
  make_risk-Built :
      (kind : ProtectionIntentType) (action : RiskIntentAction) (stop target : Option F)
      (replaced : Option String) (a : RiskArgs F)
      → Returns (Built kind action stop target) (make_risk kind action stop target replaced a)
  unfolding make_risk
  make_risk-Built kind action stop target replaced a =
      Returns-bind (require_text-IsText a.intent_id _) λ i hi.
        Returns-bind (require_text-IsText a.operation_id _) λ p hp.
          Returns-bind (require_text-IsText a.symbol _) λ s hs.
            Returns-bind (require_text-IsText a.trade_id _) λ t ht.
              Returns-bind (Returns-any (normalize_enum a.side)) λ d _.
                Returns-bind (require_positive_number-Returns a.quantity _) λ q hq.
                  Returns-bind (require_positive-same stop _) λ x hx.
                    Returns-bind (require_positive-same target _) λ y hy.
                      check_protection-Built kind action stop target _ hi hp hs ht hq hx hy refl
                        refl

  -- `RiskIntent.place_protection` returns only valid intents with the two prices that it was given,
  -- of which one is present; the intent is a bracket when both are, a stop-loss when only the stop
  -- is, and a take-profit when only the target is.
  pub place_protection-kind :
      (stop target : Option F) (a : RiskArgs F) {r : RiskIntent F}
      → place_protection stop target a ≡ ok r
      → IsValid r
        × (r.stop_price ≡ stop)
        × (r.take_profit_price ≡ target)
        × (is_some stop || is_some target ≡ true)
        × (r.protection_type ≡ (
            if is_some stop && is_some target
            then ProtectionIntentType.bracket
            else if is_some stop
            then ProtectionIntentType.stop_loss
            else ProtectionIntentType.take_profit))
  unfolding place_protection
  place_protection-kind stop target a {r} h =
      let b =
        (make_risk-Built (protection_type_for stop target) RiskIntentAction.place_protection stop
            target none a).at
          r h in
      ground (arith, b)
