-- ===== src/Strategy/Adapter/Opposed.antt =====
-- What the adapter's methods send to the broker for one trade.
use chainer_trader.Prelude.{
  ◌≡◌, refl, ap, ℕ, Bool, true, false, not, Option, none, some, ◌∷◌, String, Result, ok, err,
  is_some, All, if◌then◌else◌,
}
use chainer_trader.Prelude.Exec.{keeps_continue, pure, ◌>>=◌}
use chainer_trader.Prelude.Float.{Float}
use chainer_trader.Strategy.Context.{TradeContext}
use chainer_trader.Strategy.Adapter.{
  Submission, Call, submission, cancellation, Broker, World, is_long, submit, set_stop, set_target,
  stop_of_entry, open_entry, close_position, unless_raised, cancelled_if, cancel_by, cancel_stop,
  cancel_take_profit, stop_at, target_at, close_size, Act,
}

-- An order of a trade: at the market, or on the side that closes the trade's direction.
pub data IsOwn {F O : Type 0} (direction : String) (trade_id : ℕ) (s : Submission F O)
    : Type 0 where
  at_market : s.trade_id ≡ trade_id → s.exectype ≡ none → IsOwn direction trade_id s
  protective :
      s.trade_id ≡ trade_id
      → is_some s.exectype ≡ true
      → s.is_buy ≡ not (is_long direction)
      → IsOwn direction trade_id s

abbrev pub IsOwnCall : {F O : Type 0} → String → ℕ → Call F O → Type 0
IsOwnCall direction trade_id (submission s) = IsOwn direction trade_id s
IsOwnCall direction trade_id (cancellation o) = Unit {0}

-- The context keeps its direction and number, and the orders are the trade's own.
pub record IsKept {F O : Type 0} (direction : String) (trade_id : ℕ) (w : World F O) : Type 0 where
  pub direction_is : w.ctx.direction ≡ direction
  pub trade_id_is : w.ctx.trade_id ≡ trade_id
  pub calls_are : All (IsOwnCall direction trade_id) w.calls

module _ {F O : Type 0} ⦃fl : Float F⦄ (broker : Broker F O) where
  module _ (d : String) (n : ℕ) where
    abbrev Kept : World F O → Type 0
    Kept w = IsKept d n w

    pub if_keeps :
        {A : Type 0} (b : Bool) (p q : Result String A × World F O)
        → Kept p.1
        → Kept q.1
        → Kept (if b then p else q).1
    if_keeps true p q h k = h
    if_keeps false p q h k = k

    set_stop-IsKept : (o : Option O) (w : World F O) → Kept w → Kept (set_stop broker o w).1
    set_stop-IsKept o w h = record {
      direction_is = h.direction_is;
      trade_id_is = h.trade_id_is;
      calls_are = h.calls_are;
    }

    set_target-IsKept : (o : Option O) (w : World F O) → Kept w → Kept (set_target broker o w).1
    set_target-IsKept o w h = record {
      direction_is = h.direction_is;
      trade_id_is = h.trade_id_is;
      calls_are = h.calls_are;
    }

    -- an order, and what its answer is written to
    submitted-IsKept :
        (w : World F O) (s : Submission F O) {A : Type 0} (rest : Option O → Act broker A)
        → IsOwn d n s
        → Kept w
        → ((o : Option O) (v : World F O) → Kept v → Kept (rest o v).1)
        → Kept ((submit broker s >>= rest) w).1
    submitted-IsKept w s rest own h k =
        let sent = record w { calls = submission s ∷ w.calls } in
        let kept : Kept sent = record {
          direction_is = h.direction_is;
          trade_id_is = h.trade_id_is;
          calls_are = (own, h.calls_are);
        } in
        keeps_continue Kept (broker.submit w.calls s) rest sent kept (λ o e. k o sent kept)

    unless_raised-IsKept :
        (forget : Act broker (Unit {0})) (w : World F O) (r : Result String (Unit {0}))
        → ((v : World F O) → Kept v → Kept (forget v).1)
        → Kept w
        → Kept (unless_raised broker forget r w).1
    unless_raised-IsKept forget w (ok u) k h = h
    unless_raised-IsKept forget w (err e) k h = k w h

    cancelled_if-IsKept :
        (forget : Act broker (Unit {0})) (o : O) (r : Result String Bool) (w : World F O)
        → ((v : World F O) → Kept v → Kept (forget v).1)
        → Kept w
        → Kept (cancelled_if broker forget o r w).1
    cancelled_if-IsKept forget o (ok true) w k h =
        unless_raised-IsKept forget (record w { calls = cancellation o ∷ w.calls })
          (broker.cancel w.calls o) k
          (record {
            direction_is = h.direction_is;
            trade_id_is = h.trade_id_is;
            calls_are = (tt, h.calls_are);
          })
    cancelled_if-IsKept forget o (ok false) w k h = k w h
    cancelled_if-IsKept forget o (err e) w k h = k w h

    cancel_by-IsKept :
        (forget : Act broker (Unit {0})) (o : Option O) (w : World F O)
        → ((v : World F O) → Kept v → Kept (forget v).1)
        → Kept w
        → Kept (cancel_by broker forget o w).1
    cancel_by-IsKept forget none w k h = h
    cancel_by-IsKept forget (some o) w k h = cancelled_if-IsKept forget o _ w k h

    pub cancel_stop-IsKept : (w : World F O) → Kept w → Kept (cancel_stop broker w).1
    unfolding cancel_stop
    cancel_stop-IsKept w h =
        cancel_by-IsKept (set_stop broker none) w.ctx.stop_order w (set_stop-IsKept none) h

    pub cancel_take_profit-IsKept : (w : World F O) → Kept w → Kept (cancel_take_profit broker w).1
    unfolding cancel_take_profit
    cancel_take_profit-IsKept w h =
        cancel_by-IsKept (set_target broker none) w.ctx.tp_order w (set_target-IsKept none) h

    stop_of_entry-IsKept :
        (c : TradeContext F O) (entry : Option O) (stop : Option F) (w : World F O)
        → c.direction ≡ d
        → c.trade_id ≡ n
        → Kept w
        → Kept (stop_of_entry broker c entry stop w).1
    stop_of_entry-IsKept c none stop w same number h = h
    stop_of_entry-IsKept c (some entry) none w same number h = h
    stop_of_entry-IsKept c (some entry) (some stop) w same number h =
        submitted-IsKept w _ _ (protective number refl (ap (λ x. not (is_long x)) same)) h
          λ o v kept. set_stop-IsKept o v kept

    pub open_entry-IsKept : (w : World F O) → Kept w → Kept (open_entry broker w).1
    unfolding open_entry
    open_entry-IsKept w h = submitted-IsKept w _ _ (at_market h.trade_id_is refl) h λ o v kept.
        stop_of_entry-IsKept w.ctx o w.ctx.stop_price v h.direction_is h.trade_id_is kept

    submitted_last-IsKept :
        (w : World F O) (s : Submission F O) → IsOwn d n s → Kept w → Kept (submit broker s w).1
    submitted_last-IsKept w s own h = record {
      direction_is = h.direction_is;
      trade_id_is = h.trade_id_is;
      calls_are = (own, h.calls_are);
    }

    pub close_position-IsKept :
        (oco : Option O) (w : World F O) → Kept w → Kept (close_position broker oco w).1
    unfolding close_position close_size
    close_position-IsKept oco w h =
        if_keeps _ (ok none, w) (submit broker _ w) h
          (submitted_last-IsKept w _ (at_market h.trade_id_is refl) h)

    branch-IsKept :
        {A : Type 0} (b : Bool) (m : Act broker (Option A)) (w : World F O)
        → Kept w
        → Kept (m w).1
        → Kept ((if b then pure none else m) w).1
    branch-IsKept true m w h k = h
    branch-IsKept false m w h k = k

    pub stop_at-IsKept :
        (c : TradeContext F O) (size : F) (stop : Option F) (w : World F O)
        → c.direction ≡ d
        → c.trade_id ≡ n
        → Kept w
        → Kept (stop_at broker c size stop w).1
    stop_at-IsKept c size none w same number h = h
    stop_at-IsKept c size (some stop) w same number h =
        let cancelled = cancel_stop-IsKept w h in
        branch-IsKept (fl.le size fl.zero_f) _ w h (
          keeps_continue Kept (cancel_stop broker w).0 _ (cancel_stop broker w).1 cancelled λ u e.
            submitted-IsKept (cancel_stop broker w).1 _ _
              (protective number refl (ap (λ x. not (is_long x)) same)) cancelled
              λ o v kept. set_stop-IsKept o v kept)

    pub target_at-IsKept :
        (c : TradeContext F O) (size : F) (target : Option F) (w : World F O)
        → c.direction ≡ d
        → c.trade_id ≡ n
        → Kept w
        → Kept (target_at broker c size target w).1
    target_at-IsKept c size none w same number h = h
    target_at-IsKept c size (some target) w same number h =
        let cancelled = cancel_take_profit-IsKept w h in
        branch-IsKept (fl.le size fl.zero_f) _ w h (
          keeps_continue Kept (cancel_take_profit broker w).0 _ (cancel_take_profit broker w).1
            cancelled
            λ u e.
              submitted-IsKept (cancel_take_profit broker w).1 _ _
                (protective number refl (ap (λ x. not (is_long x)) same)) cancelled
                λ o v kept. set_target-IsKept o v kept)
