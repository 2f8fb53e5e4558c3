-- ===== src/Gateway/Protection/Armed.antt =====
-- The answers of the live gateway to protections.
use chainer_trader.Prelude.{
  ◌≡◌, refl, ap, sym, subst, ◌∙◌, Bool, true, false, Option, none, some, List, [], ◌∷◌, String,
  Result, ok, err, Returns, Returns-ok, Returns-err, from_option, if◌then◌else◌,
}
use chainer_trader.Prelude.Exec.{Exec}
use chainer_trader.Prelude.Float.{Float}
use chainer_trader.Common.Interval.{Symbol}
use chainer_trader.Execution.Payload.{Value, text}
use chainer_trader.Execution.Kinds.{GatewayCapability, ExecutionEventType, ExecutionReason}
use chainer_trader.Execution.Risk.{RiskIntent}
use chainer_trader.Execution.Outcome.{ExecutionResult, accepted, from_accepted, unsupported}
use chainer_trader.Gateway.Payloads.{order_ids}
use chainer_trader.Gateway.Events.{risk_price}
use chainer_trader.Gateway.Exchange.{Exchange}
use chainer_trader.Execution.Order.{OrderIntent}
use chainer_trader.Gateway.Live.{open_position, close_position}
use chainer_trader.Gateway.Live.Answers.{IsAnswer, market-IsAnswer}
use chainer_trader.Gateway.Protection.{
  if_verified, native_of, native_protection_result, protected, by_method, place_protection,
  replace_protection, verified_by, missing, replace_method, needed, protection_method,
}

module _ {F X : Type 0} ⦃fl : Float F⦄ (repr : Value F → String) (ex : Exchange F X)
    (mode : String) where
  abbrev Answers : RiskIntent F → Result String (ExecutionResult F) → Type 0
  Answers i r = Returns (IsAnswer i.intent_id i.operation_id) r

  if_verified-IsAnswer :
      (i : RiskIntent F) (type : ExecutionEventType) (payload : Value F) (ids : List String)
      (b : Result String Bool)
      → Answers i (if_verified repr ex mode i type payload ids b)
  unfolding from_accepted accepted
  if_verified-IsAnswer i type payload ids (err e) = Returns-err e
  if_verified-IsAnswer i type payload ids (ok true) =
      Returns-ok _
        (record { intent_is = refl; operation_is = refl; has_order = refl; has_no_reason = refl })
  if_verified-IsAnswer i type payload ids (ok false) =
      Returns-ok _
        (record { intent_is = refl; operation_is = refl; has_order = refl; has_no_reason = refl })

  native_of-IsAnswer :
      (i : RiskIntent F) (type : ExecutionEventType) (payload : Value F)
      (ids : Result String (List String)) (x : X)
      → Answers i (native_of repr ex mode i type payload ids x).0
  unfolding accepted
  native_of-IsAnswer i type payload (err e) x = Returns-err e
  native_of-IsAnswer i type payload (ok []) x =
      Returns-ok _
        (record { intent_is = refl; operation_is = refl; has_order = refl; has_no_reason = refl })
  native_of-IsAnswer i type payload (ok (a ∷ ids)) x =
      if_verified-IsAnswer i type payload (a ∷ ids) _

  protected-IsAnswer :
      (i : RiskIntent F) (price : Option F) (type : ExecutionEventType)
      (r : Result String (Value F) × X)
      → Answers i (protected repr ex mode i price type r).0
  unfolding native_protection_result accepted
  protected-IsAnswer i price type (err e, x) =
      Returns-ok _
        (record { intent_is = refl; operation_is = refl; has_order = refl; has_no_reason = refl })
  protected-IsAnswer i price type (ok payload, x) =
      native_of-IsAnswer i type payload (order_ids repr payload) x

  by_method-IsAnswer :
      (i : RiskIntent F) (c : GatewayCapability) (price : Option F) (type : ExecutionEventType)
      (m : Option (Exec String X (Value F))) (x : X)
      → Answers i (by_method repr ex mode i c price type m x).0
  unfolding unsupported accepted
  by_method-IsAnswer i c price type none x =
      Returns-ok _
        (record { intent_is = refl; operation_is = refl; has_order = refl; has_no_reason = refl })
  by_method-IsAnswer i c price type (some call) x = protected-IsAnswer i price type (call x)

  replaced-IsAnswer :
      (i : RiskIntent F) (b : Bool) (x : X) (later : Result String (ExecutionResult F) × X)
      → Answers i later.0
      → Answers i
          (if b
            then (
              ok (
                  missing repr ex mode i ExecutionReason.protection_missing i.stop_price "missing"
                    (text "replacement_of_order_id")),
              x,
            )
            else later).0
  unfolding accepted
  replaced-IsAnswer i true x later h =
      Returns-ok _
        (record { intent_is = refl; operation_is = refl; has_order = refl; has_no_reason = refl })
  replaced-IsAnswer i false x later h = h

  protection-IsAnswer :
      (i : RiskIntent F) (x : X)
      → Answers i (place_protection repr ex mode i x).0
        × Answers i (replace_protection repr ex mode i x).0
  unfolding place_protection replace_protection
  protection-IsAnswer i x = (
    by_method-IsAnswer i (needed i.stop_price i.take_profit_price)
        (risk_price i.stop_price i.take_profit_price) ExecutionEventType.protection_armed
        (protection_method repr ex mode i i.stop_price i.take_profit_price) x,
    replaced-IsAnswer i _ x _ (
        by_method-IsAnswer i GatewayCapability.breakeven_replacement i.stop_price
          ExecutionEventType.protection_replaced
          (replace_method repr ex mode i (from_option "" i.replacement_of_order_id)) x),
  )

  -- What the live gateway returns answers the intent, whatever the exchange does: opening, closing,
  -- placing and replacing return a result that is accepted exactly if it has an order's id, and has a
  -- reason exactly if it is not accepted.
  pub gateway-IsAnswer :
      (o : OrderIntent F) (i : RiskIntent F) (x : X)
      → (Returns (IsAnswer o.intent_id o.operation_id) (open_position repr ex mode o x).0
          × Returns (IsAnswer o.intent_id o.operation_id) (close_position repr ex mode o x).0)
        × Returns (IsAnswer i.intent_id i.operation_id) (place_protection repr ex mode i x).0
        × Returns (IsAnswer i.intent_id i.operation_id) (replace_protection repr ex mode i x).0
  gateway-IsAnswer o i x =
      (market-IsAnswer repr ex mode o x, (protection-IsAnswer i x).0, (protection-IsAnswer i x).1)

  -- A verifier that confirms no order.
  pub record IsNever (v : Symbol → List String → Exec String X Bool) : Type 0 where
    pub at : (s : Symbol) (ids : List String) (x : X) → (v s ids x).0 ≡ ok false

  abbrev IsRefused : ExecutionResult F → Type 0
  IsRefused r = accepted r ≡ false

  native_of-IsRefused :
      (v : Symbol → List String → Exec String X Bool) (i : RiskIntent F) (type : ExecutionEventType)
      (payload : Value F) (ids : Result String (List String)) (x : X)
      → ex.verify_order_ids ≡ some v
      → IsNever v
      → Returns IsRefused (native_of repr ex mode i type payload ids x).0
  unfolding accepted
  native_of-IsRefused v i type payload (err e) x h n = Returns-err e
  native_of-IsRefused v i type payload (ok []) x h n = Returns-ok _ refl
  native_of-IsRefused v i type payload (ok (a ∷ ids)) x h n =
      let refused =
        ap (λ o. (verified_by repr ex mode o i.symbol (a ∷ ids) x).0) h ∙ n.at _ (a ∷ ids) x in
      subst (λ b. Returns IsRefused (if_verified repr ex mode i type payload (a ∷ ids) b))
        (sym refused) (Returns-ok _ refl)

  protected-IsRefused :
      (v : Symbol → List String → Exec String X Bool) (i : RiskIntent F) (price : Option F)
      (type : ExecutionEventType) (r : Result String (Value F) × X)
      → ex.verify_order_ids ≡ some v
      → IsNever v
      → Returns IsRefused (protected repr ex mode i price type r).0
  unfolding native_protection_result accepted
  protected-IsRefused v i price type (err e, x) h n = Returns-ok _ refl
  protected-IsRefused v i price type (ok payload, x) h n =
      native_of-IsRefused v i type payload (order_ids repr payload) x h n

  by_method-IsRefused :
      (v : Symbol → List String → Exec String X Bool) (i : RiskIntent F) (c : GatewayCapability)
      (price : Option F) (type : ExecutionEventType) (m : Option (Exec String X (Value F))) (x : X)
      → ex.verify_order_ids ≡ some v
      → IsNever v
      → Returns IsRefused (by_method repr ex mode i c price type m x).0
  unfolding unsupported accepted
  by_method-IsRefused v i c price type none x h n = Returns-ok _ refl
  by_method-IsRefused v i c price type (some call) x h n =
      protected-IsRefused v i price type (call x) h n

  -- A protection that the exchange's verifier does not confirm is never reported as accepted.
  pub place_protection_verified :
      (v : Symbol → List String → Exec String X Bool) (i : RiskIntent F) (x : X)
      → ex.verify_order_ids ≡ some v
      → IsNever v
      → Returns IsRefused (place_protection repr ex mode i x).0
  unfolding place_protection
  place_protection_verified v i x h n =
      by_method-IsRefused v i (needed i.stop_price i.take_profit_price)
        (risk_price i.stop_price i.take_profit_price) ExecutionEventType.protection_armed
        (protection_method repr ex mode i i.stop_price i.take_profit_price) x h n
