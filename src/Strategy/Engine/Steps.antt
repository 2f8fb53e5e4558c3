-- ===== src/Strategy/Engine/Steps.antt =====
-- The steps in which base_strategy.py moves a trade through its life cycle, and what its status says
-- of it.
use chainer_trader.Prelude.{◌≡◌, Bool, some, true, false, not, ◌&&◌, ◌||◌, Option, String, is_some}
use chainer_trader.Strategy.Context.{TradeStatus, TradeContext, ExitReason}
use chainer_trader.Strategy.Engine.{
  ExitArgs, cancel_entry, mark_entry_opening, mark_entry_filled, mark_entry_failed, request_exit,
  mark_exit_closing, mark_exit_confirm_failed, mark_exit_filled, finalize_exit_reason,
  mark_exit_failed,
}

-- whether the trade's entry order may be placed
abbrev pub is_waiting : TradeStatus → Bool
is_waiting TradeStatus.pending_entry_confirm = true
is_waiting TradeStatus.opening = true
is_waiting _ = false

-- whether the trade holds a position
abbrev pub is_held : TradeStatus → Bool
is_held TradeStatus.active = true
is_held TradeStatus.pending_exit_confirm = true
is_held TradeStatus.closing = true
is_held _ = false

abbrev pub is_exit_pending : TradeStatus → Bool
is_exit_pending TradeStatus.pending_exit_confirm = true
is_exit_pending _ = false

abbrev pub is_closed : TradeStatus → Bool
is_closed TradeStatus.closed = true
is_closed _ = false

abbrev pub is_cancelled : TradeStatus → Bool
is_cancelled TradeStatus.cancelled = true
is_cancelled _ = false

module _ {F O : Type 0} where
  -- What the status of a trade says of its fields.
  pub record IsConsistent (c : TradeContext F O) : Type 0 where
    -- a trade that holds a position has the prices that stops and targets are computed from
    pub priced :
        not (is_held c.status)
          || is_some c.entry_price && (is_some c.initial_stop_price && is_some c.stop_price)
        ≡ true
    -- a trade that waits for an exit's confirmation knows the reason and the bar to confirm
    pub exit_known :
        not (is_exit_pending c.status)
          || is_some c.pending_exit_reason && is_some c.exit_key_kline_ref
        ≡ true
    pub sold : not (is_closed c.status) || is_some c.exit_price ≡ true
    pub explained : not (is_cancelled c.status) || is_some c.cancel_reason ≡ true

  -- A call of the engine, at a status at which base_strategy.py makes it: a confirmation's at the
  -- status that waits for it, an order's report at the status that the order was placed at.
  pub data Step : TradeContext F O → TradeContext F O → Type 0 where
    cancels : (r : String) (c : TradeContext F O) → Step c (cancel_entry r c)
    opens :
        (o : Option O) (c : TradeContext F O)
        → is_waiting c.status ≡ true
        → Step c (mark_entry_opening o c)
    fills :
        (price stop : F) (c : TradeContext F O)
        → c.status ≡ TradeStatus.opening
        → Step c (mark_entry_filled price stop c)
    entry_fails :
        (r : String) (c : TradeContext F O)
        → c.status ≡ TradeStatus.opening
        → Step c (mark_entry_failed r c)
    asks_active :
        (a : ExitArgs F) (c : TradeContext F O)
        → c.status ≡ TradeStatus.active
        → Step c (request_exit a c)
    asks_pending :
        (a : ExitArgs F) (c : TradeContext F O)
        → c.status ≡ TradeStatus.pending_exit_confirm
        → Step c (request_exit a c)
    closes :
        (o : Option O) (c : TradeContext F O)
        → is_held c.status ≡ true
        → Step c (mark_exit_closing o c)
    confirm_fails :
        (c : TradeContext F O)
        → c.status ≡ TradeStatus.pending_exit_confirm
        → Step c (mark_exit_confirm_failed c)
    -- the stop that `enter_trade` sets, and one that a breakeven or a trailing stop moves
    places_stop :
        (x : F) (c : TradeContext F O)
        → Step c (record c { initial_stop_price = some x; stop_price = some x })
    moves_stop : (x : F) (c : TradeContext F O) → Step c (record c { stop_price = some x })
    -- an exit, a stop or a target fills, and its reason is settled with it
    sells_for :
        (r : ExitReason F) (price : F) (value : Option F) (c : TradeContext F O)
        → Step c (mark_exit_filled price value (finalize_exit_reason r c))
    -- one that fills without a reason
    sells :
        (price : F) (value : Option F) (c : TradeContext F O)
        → Step c (mark_exit_filled price value c)
    exit_fails :
        (c : TradeContext F O) → c.status ≡ TradeStatus.closing → Step c (mark_exit_failed c)

  -- Some number of steps.
  pub data Steps : TradeContext F O → TradeContext F O → Type 0 where
    done : (c : TradeContext F O) → Steps c c
    next : (b c d : TradeContext F O) → Step b c → Steps c d → Steps b d
