-- ===== src/Gateway/Live/Answers.antt =====
-- The answers of the live gateway to market orders.
use chainer_trader.Prelude.{
  ◌≡◌, refl, List, [], ◌∷◌, String, Result, ok, err, is_some, is_none, Returns, Returns-ok,
  Returns-err,
}
use chainer_trader.Prelude.Float.{Float}
use chainer_trader.Execution.Payload.{Value}
use chainer_trader.Execution.Order.{OrderIntent}
use chainer_trader.Execution.Outcome.{ExecutionResult, accepted, from_accepted}
use chainer_trader.Gateway.Payloads.{order_ids}
use chainer_trader.Gateway.Events.{accepted_order_result}
use chainer_trader.Gateway.Exchange.{Exchange}
use chainer_trader.Gateway.Live.{
  order_result, answered, submit_market, open_position, close_position,
}

-- A result that answers an intent: it is accepted exactly if it has an order's id, and has a reason
-- exactly if it is not.
pub record IsAnswer {F : Type 0} (intent_id operation_id : String) (r : ExecutionResult F)
    : Type 0 where
  pub intent_is : r.intent_id ≡ intent_id
  pub operation_is : r.operation_id ≡ operation_id
  pub has_order : is_some r.gateway_order_id ≡ accepted r
  pub has_no_reason : is_none r.reason ≡ accepted r

module _ {F X : Type 0} ⦃fl : Float F⦄ (repr : Value F → String) (ex : Exchange F X)
    (mode : String) where
  order_result-IsAnswer :
      (i : OrderIntent F) (payload : Value F) (ids : Result String (List String))
      → Returns (IsAnswer i.intent_id i.operation_id) (order_result repr ex mode i payload ids)
  unfolding accepted accepted_order_result from_accepted
  order_result-IsAnswer i payload (err e) = Returns-err e
  order_result-IsAnswer i payload (ok []) =
      Returns-ok _
        (record { intent_is = refl; operation_is = refl; has_order = refl; has_no_reason = refl })
  order_result-IsAnswer i payload (ok (a ∷ ids)) =
      Returns-ok _
        (record { intent_is = refl; operation_is = refl; has_order = refl; has_no_reason = refl })

  answered-IsAnswer :
      (i : OrderIntent F) (r : Result String (Value F))
      → Returns (IsAnswer i.intent_id i.operation_id) (answered repr ex mode i r)
  unfolding accepted
  answered-IsAnswer i (err e) =
      Returns-ok _
        (record { intent_is = refl; operation_is = refl; has_order = refl; has_no_reason = refl })
  answered-IsAnswer i (ok payload) = order_result-IsAnswer i payload (order_ids repr payload)

  pub market-IsAnswer :
      (i : OrderIntent F) (x : X)
      → Returns (IsAnswer i.intent_id i.operation_id) (open_position repr ex mode i x).0
        × Returns (IsAnswer i.intent_id i.operation_id) (close_position repr ex mode i x).0
  unfolding open_position close_position submit_market
  market-IsAnswer i x = (answered-IsAnswer i _, answered-IsAnswer i _)
