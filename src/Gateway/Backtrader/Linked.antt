-- ===== src/Gateway/Backtrader/Linked.antt =====
-- The orders of a protection in a backtest.
use chainer_trader.Prelude.{
  ◌≡◌, refl, not, Option, none, some, List, [], ◌∷◌, String, Result, ok, err,
}
use chainer_trader.Prelude.Exec.{pure, continue, keeps_continue}
use chainer_trader.Prelude.Float.{Float}
use chainer_trader.Execution.Payload.{Value}
use chainer_trader.Execution.Risk.{RiskIntent}
use chainer_trader.Gateway.Backtrader.{
  Call, Submission, submission, Broker, is_long, protective, place_protection, place_orders,
  place_target,
}

-- An order at a price that closes the intent's position: on the other side, of its size, of its trade.
pub record IsClosing {F : Type 0} (i : RiskIntent F) (exectype role : String) (price : F)
    (s : Submission F) : Type 0 where
  pub side_is : s.is_buy ≡ not (is_long i.side)
  pub size_is : s.size ≡ some i.quantity
  pub trade_is : s.trade_id ≡ some i.trade_id
  pub exectype_is : s.exectype ≡ some exectype
  pub role_is : s.role ≡ role
  pub price_is : s.price ≡ some price

abbrev pub IsStop : {F : Type 0} → RiskIntent F → F → Submission F → Type 0
IsStop i p s = IsClosing i "stop" "stop" p s

abbrev pub IsTarget : {F : Type 0} → RiskIntent F → F → Submission F → Type 0
IsTarget i p s = IsClosing i "limit" "take_profit" p s

-- The calls of a protection by its two prices, the newest first: a stop if there is a stop's price,
-- and after it a target if there is a target's, unless the stop's order was refused. The target is
-- linked to what the broker answered to the stop.
abbrev pub IsProtection :
    {F : Type 0} → Broker F → RiskIntent F → Option F → Option F → List (Call F) → Type 0
IsProtection b i none none [] = Unit
IsProtection b i none (some q) (submission t ∷ []) = IsTarget i q t
IsProtection b i (some p) none (submission s ∷ []) = IsStop i p s
IsProtection b i (some p) (some q) (submission s ∷ []) =
    IsStop i p s × ((e : String) × (b [] (submission s) ≡ err e))
IsProtection b i (some p) (some q) (submission t ∷ submission s ∷ []) =
    IsTarget i q t × IsStop i p s × (b [] (submission s) ≡ ok t.oco)
IsProtection b i _ _ _ = ⊥

module _ {F : Type 0} ⦃fl : Float F⦄ (repr : Value F → String) (broker : Broker F)
    (mode : String) where
  closing :
      (i : RiskIntent F) (exectype : String) (price : F) (oco : Option String) (role : String)
      → IsClosing i exectype role price (protective i exectype price oco role)
  closing i exectype price oco role = record {
    side_is = refl;
    size_is = refl;
    trade_is = refl;
    exectype_is = refl;
    role_is = refl;
    price_is = refl;
  }

  abbrev stop_call : RiskIntent F → F → Call F
  stop_call i s = submission (protective i "stop" s none "stop")

  -- what follows the answer to the stop
  abbrev after_stop : RiskIntent F → F → Option F → Result String (Option String) → List (Call F)
  after_stop i s target r =
      let placed =
        continue {B = Option String × List (Option String)} r (λ order. pure (order, order ∷ []))
          (stop_call i s ∷ []) in
      (continue placed.0 (λ o. place_target repr broker mode i target o.0 o.1) placed.1).1

  after_stop-IsProtection :
      (i : RiskIntent F) (s : F) (target : Option F) (r : Result String (Option String))
      → broker [] (stop_call i s) ≡ r
      → IsProtection broker i (some s) target (after_stop i s target r)
  after_stop-IsProtection i s none (err e) h = closing i "stop" s none "stop"
  after_stop-IsProtection i s (some p) (err e) h = (closing i "stop" s none "stop", (e, h))
  after_stop-IsProtection i s none (ok order) h = closing i "stop" s none "stop"
  after_stop-IsProtection i s (some p) (ok order) h =
      let target = submission (protective i "limit" p order "take_profit") in
      let linked : IsProtection broker i (some s) (some p) (target ∷ stop_call i s ∷ []) =
        (closing i "limit" p order "take_profit", closing i "stop" s none "stop", h) in
      keeps_continue (IsProtection broker i (some s) (some p)) (broker (stop_call i s ∷ []) target)
        _ (target ∷ stop_call i s ∷ []) linked (λ a e. linked)

  place_orders-IsProtection :
      (i : RiskIntent F) (stop target : Option F)
      → IsProtection broker i stop target (place_orders repr broker mode i stop target []).1
  place_orders-IsProtection i none none = tt
  place_orders-IsProtection i none (some p) =
      keeps_continue (IsProtection broker i none (some p)) (broker [] _) _ _
        (closing i "limit" p none "take_profit") (λ a e. closing i "limit" p none "take_profit")
  place_orders-IsProtection i (some s) none = after_stop-IsProtection i s none _ refl
  place_orders-IsProtection i (some s) (some p) = after_stop-IsProtection i s (some p) _ refl

  -- Whatever the broker answers, the calls of a protection are those of its prices: a stop order at
  -- the stop's price, then a limit order at the target's price that is linked to the broker's answer
  -- to the stop, each on the side that closes the position, of its size and of its trade. Only if the
  -- broker raises on the stop is a target that has a price not placed.
  pub place_protection-IsProtection :
      (i : RiskIntent F)
      → IsProtection broker i i.stop_price i.take_profit_price
          (place_protection repr broker mode i []).1
  unfolding place_protection
  place_protection-IsProtection i =
      let placed = place_orders-IsProtection i i.stop_price i.take_profit_price in
      keeps_continue (IsProtection broker i i.stop_price i.take_profit_price)
        (place_orders repr broker mode i i.stop_price i.take_profit_price []).0 _
        (place_orders repr broker mode i i.stop_price i.take_profit_price []).1 placed
        (λ a e. placed)
