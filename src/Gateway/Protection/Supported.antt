-- ===== src/Gateway/Protection/Supported.antt =====
-- A protection is refused as unsupported exactly when the gateway does not announce its capability.
use chainer_trader.Prelude.{
  ◌≡◌, refl, sym, ap, ◌∙◌, Bool, true, false, not, Option, none, some, List, [], ◌∷◌, ◌++◌, String,
  Result, ok, err, is_some, is_none, Returns, Returns-ok, Returns-err, Returns-map, arith,
}
use chainer_trader.Prelude.Exec.{Exec}
use chainer_trader.Prelude.Float.{Float}
use chainer_trader.Prelude.Text.{str_eq}
use chainer_trader.Execution.Payload.{Value}
use chainer_trader.Execution.Kinds.{
  ExecutionReason, execution_reason_value, GatewayCapability, ExecutionEventType,
}
use chainer_trader.Execution.Risk.{RiskIntent}
use chainer_trader.Execution.Outcome.{ExecutionResult, from_accepted, unsupported}
use chainer_trader.Gateway.Payloads.{order_ids}
use chainer_trader.Gateway.Events.{supports, has_capability}
use chainer_trader.Gateway.Exchange.{Exchange, capabilities, if_method, supported_of}
use chainer_trader.Gateway.Protection.{
  if_verified, native_of, native_protection_result, protected, by_method, needed, protection_method,
  place_protection, given,
}

abbrev is_unsupported_reason : Option ExecutionReason → Bool
is_unsupported_reason none = false
is_unsupported_reason (some r) = str_eq (execution_reason_value r) "unsupported_capability"

-- `result.reason == ExecutionReason.UNSUPPORTED_CAPABILITY`
abbrev pub is_unsupported : {F : Type 0} → ExecutionResult F → Bool
is_unsupported r = is_unsupported_reason r.reason

given_none : {A B : Type 0} (f : A → B) (m : Option A) → is_none (given f m) ≡ not (is_some m)
given_none f none = refl
given_none f (some a) = refl

-- the list that the gateway makes of the methods
abbrev listed : Bool → Bool → Bool → Bool → List GatewayCapability
listed a b c d =
    (GatewayCapability.market_entry ∷ GatewayCapability.market_close
      ∷ GatewayCapability.cancel_order ∷ GatewayCapability.reconcile ∷ [])
    ++ if_method a GatewayCapability.protective_stop
    ++ if_method b GatewayCapability.take_profit_limit
    ++ if_method c GatewayCapability.oco_protection
    ++ if_method d GatewayCapability.breakeven_replacement

listed_stop :
    (a b c d : Bool) → has_capability GatewayCapability.protective_stop (listed a b c d) ≡ a
unfolding has_capability
listed_stop true b c d = refl
listed_stop false b c d = ground arith

listed_target :
    (a b c d : Bool) → has_capability GatewayCapability.take_profit_limit (listed a b c d) ≡ b
unfolding has_capability
listed_target a b c d = ground arith

listed_oco : (a b c d : Bool) → has_capability GatewayCapability.oco_protection (listed a b c d) ≡ c
unfolding has_capability
listed_oco a b c d = ground arith

module _ {F X : Type 0} ⦃fl : Float F⦄ (repr : Value F → String) (ex : Exchange F X)
    (mode : String) where
  abbrev IsTried : ExecutionResult F → Type 0
  IsTried r = is_unsupported r ≡ false

  if_verified-IsTried :
      (i : RiskIntent F) (type : ExecutionEventType) (payload : Value F) (ids : List String)
      (b : Result String Bool)
      → Returns IsTried (if_verified repr ex mode i type payload ids b)
  unfolding from_accepted
  if_verified-IsTried i type payload ids (err e) = Returns-err e
  if_verified-IsTried i type payload ids (ok true) = Returns-ok _ refl
  if_verified-IsTried i type payload ids (ok false) = Returns-ok _ refl

  native_of-IsTried :
      (i : RiskIntent F) (type : ExecutionEventType) (payload : Value F)
      (ids : Result String (List String)) (x : X)
      → Returns IsTried (native_of repr ex mode i type payload ids x).0
  native_of-IsTried i type payload (err e) x = Returns-err e
  native_of-IsTried i type payload (ok []) x = Returns-ok _ refl
  native_of-IsTried i type payload (ok (a ∷ ids)) x = if_verified-IsTried i type payload (a ∷ ids) _

  protected-IsTried :
      (i : RiskIntent F) (price : Option F) (type : ExecutionEventType)
      (r : Result String (Value F) × X)
      → Returns IsTried (protected repr ex mode i price type r).0
  unfolding native_protection_result
  protected-IsTried i price type (err e, x) = Returns-ok _ refl
  protected-IsTried i price type (ok payload, x) =
      native_of-IsTried i type payload (order_ids repr payload) x

  by_method_unsupported :
      (i : RiskIntent F) (c : GatewayCapability) (price : Option F) (type : ExecutionEventType)
      (m : Option (Exec String X (Value F))) (x : X)
      → Returns (λ r. is_unsupported r ≡ is_none m) (by_method repr ex mode i c price type m x).0
  unfolding unsupported
  by_method_unsupported i c price type none x = Returns-ok _ refl
  by_method_unsupported i c price type (some call) x = protected-IsTried i price type (call x)

  -- the capabilities are those that the exchange has methods for
  method_supported :
      (i : RiskIntent F) (stop target : Option F)
      → ex.supported_gateway_capabilities ≡ none
      → is_none (protection_method repr ex mode i stop target)
        ≡ not (supports (capabilities ex) (needed stop target))
  unfolding capabilities protection_method
  method_supported i (some stop) (some target) h =
      given_none _ ex.new_oco_order
      ∙ ap not (sym (listed_oco _ _ _ _))
      ∙ ap (λ o. not (has_capability GatewayCapability.oco_protection (supported_of ex o))) (sym h)
  method_supported i (some stop) none h =
      given_none _ ex.new_stop_order
      ∙ ap not (sym (listed_stop _ _ _ _))
      ∙ ap (λ o. not (has_capability GatewayCapability.protective_stop (supported_of ex o))) (sym h)
  method_supported i none target h =
      given_none _ ex.new_take_profit_order
      ∙ ap not (sym (listed_target _ _ _ _))
      ∙ ap (λ o. not (has_capability GatewayCapability.take_profit_limit (supported_of ex o)))
          (sym h)

  -- When the exchange does not list its capabilities itself, a protection is refused as unsupported
  -- exactly if the gateway does not announce the capability that it needs.
  pub place_protection_unsupported :
      (i : RiskIntent F) (x : X)
      → ex.supported_gateway_capabilities ≡ none
      → Returns
          (λ r.
            is_unsupported r
            ≡ not (supports (capabilities ex) (needed i.stop_price i.take_profit_price)))
          (place_protection repr ex mode i x).0
  unfolding place_protection
  place_protection_unsupported i x h =
      Returns-map (λ r e. e ∙ method_supported i i.stop_price i.take_profit_price h)
        (by_method_unsupported i (needed i.stop_price i.take_profit_price) _ _
          (protection_method repr ex mode i i.stop_price i.take_profit_price) x)
