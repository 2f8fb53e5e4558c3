-- ===== src/Strategy/Adapter.antt =====
-- `BacktraderStrategyExecutionAdapter` of strategy/backtrader_adapter.py: the orders of one trade. The
-- strategy's `buy`, `sell` and `cancel`, its position and its orders are backtrader's, so they are
-- parameters: functions of the calls made so far, the newest first.
pub mod Opposed
use chainer_trader.Prelude.{
  ◌≡◌, ℕ, Bool, true, false, not, Option, none, some, List, [], ◌∷◌, String, Result, ok, err,
  or_else, is_none, if◌then◌else◌,
}
use chainer_trader.Prelude.Exec.{Exec, pure, gets, ◌>>=◌, ◌>>◌}
use chainer_trader.Prelude.Float.{Float}
use chainer_trader.Prelude.Text.{str_eq}
use chainer_trader.Strategy.Context.{TradeContext}

-- The arguments of `strategy.buy` or `strategy.sell`.
pub record Submission (F O : Type 0) : Type 0 where
  pub is_buy : Bool
  pub size : Option F
  pub exectype : Option String
  pub price : Option F
  pub trade_id : ℕ
  pub oco : Option O
  pub role : String

pub data Call (F O : Type 0) : Type 0 where
  submission : Submission F O → Call F O
  cancellation : O → Call F O

pub record Broker (F O : Type 0) : Type 0 where
  -- an order, if one is made
  pub submit : List (Call F O) → Submission F O → Result String (Option O)
  pub cancel : List (Call F O) → O → Result String (Unit {0})
  -- `order.alive()` and `order.size`
  pub alive : List (Call F O) → O → Result String Bool
  pub order_size : O → F
  -- `strategy.position.size`
  pub position : List (Call F O) → F

-- the calls, and the trade's context, which the adapter changes
pub record World (F O : Type 0) : Type 0 where
  pub calls : List (Call F O)
  pub ctx : TradeContext F O

abbrev pub is_long : String → Bool
is_long direction = str_eq direction "LONG"

module _ {F O : Type 0} ⦃fl : Float F⦄ (broker : Broker F O) where
  abbrev pub Act : Type 0 → Type 0
  Act A = Exec String (World F O) A

  abbrev pub submit : Submission F O → Act (Option O)
  submit s w = (broker.submit w.calls s, record w { calls = submission s ∷ w.calls })

  abbrev pub set_stop : Option O → Act (Unit {0})
  set_stop o w = (ok tt, record w { ctx = record w.ctx { stop_order = o } })

  abbrev pub set_target : Option O → Act (Unit {0})
  set_target o w = (ok tt, record w { ctx = record w.ctx { tp_order = o } })

  -- `position_size` and `close_size`
  abbrev pub position_size : World F O → F
  position_size w = broker.position w.calls

  unfoldable pub close_size : World F O → F
  close_size w =
      let size = position_size w in if fl.lt size fl.zero_f then fl.sub fl.zero_f size else size

  abbrev pub order_of :
      TradeContext F O
      → Bool
      → Option F
      → Option String
      → Option F
      → Option O
      → String
      → Submission F O
  order_of c is_buy size exectype price oco role = record {
    is_buy = is_buy;
    size = size;
    exectype = exectype;
    price = price;
    trade_id = c.trade_id;
    oco = oco;
    role = role;
  }

  -- the stop that goes with an entry
  abbrev pub stop_of_entry : TradeContext F O → Option O → Option F → Act (Option O)
  stop_of_entry c none stop = pure none
  stop_of_entry c (some entry) none = pure (some entry)
  stop_of_entry c (some entry) (some stop) =
      submit (
        order_of c (not (is_long c.direction)) (some (broker.order_size entry)) (some "stop")
          (some stop) none "stop")
      >>= λ order. (set_stop order >> pure (some entry))

  unfoldable pub open_entry : Act (Option O)
  open_entry w =
      let c = w.ctx in
      (submit (order_of c (is_long c.direction) none none none none "entry") >>= λ entry.
      stop_of_entry c entry c.stop_price)
        w

  unfoldable pub close_position : Option O → Act (Option O)
  unfolding close_size
  close_position oco w =
      if fl.le (close_size w) fl.zero_f
      then (ok none, w)
      else submit
          (order_of w.ctx (not (fl.lt fl.zero_f (position_size w))) (some (close_size w)) none none
            oco "exit")
          w

  abbrev pub unless_raised : Act (Unit {0}) → Result String (Unit {0}) → Act (Unit {0})
  unless_raised forget (ok u) = pure tt
  unless_raised forget (err e) = forget

  -- what follows `order.alive()`: an order that lives is cancelled and kept, unless that raises
  abbrev pub cancelled_if : Act (Unit {0}) → O → Result String Bool → Act (Unit {0})
  cancelled_if forget o (ok true) w =
      unless_raised forget (broker.cancel w.calls o) (record w { calls = cancellation o ∷ w.calls })
  cancelled_if forget o (ok false) w = forget w
  cancelled_if forget o (err e) w = forget w

  abbrev pub cancel_by : Act (Unit {0}) → Option O → Act (Unit {0})
  cancel_by forget none w = (ok tt, w)
  cancel_by forget (some o) w = cancelled_if forget o (broker.alive w.calls o) w

  unfoldable pub cancel_stop : Act (Unit {0})
  cancel_stop w = cancel_by (set_stop none) w.ctx.stop_order w

  unfoldable pub cancel_take_profit : Act (Unit {0})
  cancel_take_profit w = cancel_by (set_target none) w.ctx.tp_order w

  abbrev pub stop_at : TradeContext F O → F → Option F → Act (Option O)
  stop_at c size none = pure none
  stop_at c size (some stop) =
      if fl.le size fl.zero_f
      then pure none
      else (cancel_stop
          >> (submit (
                order_of c (not (is_long c.direction)) (some size) (some "stop") (some stop)
                  (or_else c.tp_order c.stop_order) "stop")
              >>= λ order. (set_stop order >> pure order)))

  unfoldable pub place_or_replace_stop : Act (Option O)
  unfolding close_size cancel_stop
  place_or_replace_stop w = stop_at w.ctx (close_size w) w.ctx.stop_price w

  abbrev pub target_at : TradeContext F O → F → Option F → Act (Option O)
  target_at c size none = pure none
  target_at c size (some target) =
      if fl.le size fl.zero_f
      then pure none
      else (cancel_take_profit
          >> (gets (λ w. w.ctx.stop_order) >>= λ stop.
              (submit (
                  order_of c (not (is_long c.direction)) (some size) (some "limit") (some target)
                    stop "take_profit")
                >>= λ order. (set_target order >> pure order))))

  unfoldable pub place_or_replace_take_profit : Act (Option O)
  unfolding close_size cancel_take_profit
  place_or_replace_take_profit w = target_at w.ctx (close_size w) w.ctx.tp_price w
