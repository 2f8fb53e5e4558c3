-- ===== src/Strategy/Exit/Runs.antt =====
-- What the adapter's methods and `exit_trade` send to the broker for one trade.
use chainer_trader.Prelude.{
  ◌≡◌, refl, ◌∙◌, any, ℕ, Bool, true, false, Option, none, some, List, [], ◌∷◌, String,
  if◌then◌else◌,
}
use chainer_trader.Prelude.Exec.{◌>>◌, keeps_continue, pure}
use chainer_trader.Prelude.Float.{Float}
use chainer_trader.Prelude.Int.{ℤ, eqb_ℤ}
use chainer_trader.Strategy.Context.{TradeContext, KlineRef}
use chainer_trader.Strategy.Engine.{request_exit, mark_exit_closing, set_pending_exit_reason}
use chainer_trader.Strategy.Exit.{
  Reads, ExitCall, kline_ref_by_bar_index, asked, closing, close_now, change, need_confirm_of,
  exit_asked, exit_now, exit_at, exit_found,
}
use chainer_trader.Strategy.Adapter.{
  Broker, World, open_entry, close_position, cancel_stop, cancel_take_profit, place_or_replace_stop,
  place_or_replace_take_profit, close_size, Act,
}
use chainer_trader.Strategy.Adapter.Opposed.{
  IsKept, if_keeps, cancel_stop-IsKept, cancel_take_profit-IsKept, open_entry-IsKept,
  close_position-IsKept, stop_at-IsKept, target_at-IsKept,
}

-- a call of one of the adapter's methods, or of `exit_trade` for the trade at some bar
pub data Method (F O : Type 0) : Type 0 where
  call_open_entry call_cancel_stop call_cancel_take_profit call_place_or_replace_stop
        call_place_or_replace_take_profit :
      Method F O
  call_exit_trade : Reads F → ExitCall → List ℤ → Method F O
  call_close_position : Option O → Method F O

module _ {F O : Type 0} ⦃fl : Float F⦄ (broker : Broker F O) where
  abbrev pub call : Method F O → World F O → World F O
  call call_open_entry w = (open_entry broker w).1
  call (call_exit_trade reads a banned) w = (exit_found broker reads a banned w).1
  call (call_close_position oco) w = (close_position broker oco w).1
  call call_cancel_stop w = (cancel_stop broker w).1
  call call_cancel_take_profit w = (cancel_take_profit broker w).1
  call call_place_or_replace_stop w = (place_or_replace_stop broker w).1
  call call_place_or_replace_take_profit w = (place_or_replace_take_profit broker w).1

  -- the methods are called one after the other, whether they raise or not
  unfoldable pub run : List (Method F O) → World F O → World F O
  run [] w = w
  run (m ∷ ms) w = run ms (call m w)

  module _ (d : String) (n : ℕ) where
    abbrev Kept : World F O → Type 0
    Kept w = IsKept d n w

    either-IsKept :
        {A : Type 0} (b : Bool) (m n : Act broker A) (w : World F O)
        → Kept (m w).1
        → Kept (n w).1
        → Kept ((if b then m else n) w).1
    either-IsKept true m n w h k = h
    either-IsKept false m n w h k = k

    module _ (reads : Reads F) where
      closing-IsKept : (o : Option O) (w : World F O) → Kept w → Kept (closing broker reads o w).1
      unfolding closing mark_exit_closing
      closing-IsKept none w h = h
      closing-IsKept (some o) w h = record {
        direction_is = h.direction_is;
        trade_id_is = h.trade_id_is;
        calls_are = h.calls_are;
      }

      close_now-IsKept : (w : World F O) → Kept w → Kept (close_now broker reads w).1
      unfolding close_now
      close_now-IsKept w h = if_keeps broker d n _ _ _ h (
          keeps_continue Kept (close_position broker none w).0 (closing broker reads)
            (close_position broker none w).1 (close_position-IsKept broker d n none w h)
            λ o e.
              closing-IsKept o (close_position broker none w).1
                (close_position-IsKept broker d n none w h))

      -- the cancellations, and the order of the exit
      cancelled-IsKept :
          (w : World F O)
          → Kept w
          → Kept ((cancel_stop broker >> (cancel_take_profit broker >> close_now broker reads)) w).1
      cancelled-IsKept w h =
          let stopped = cancel_stop-IsKept broker d n w h in
          let both = cancel_take_profit-IsKept broker d n (cancel_stop broker w).1 stopped in
          keeps_continue Kept (cancel_stop broker w).0 _ (cancel_stop broker w).1 stopped λ u e.
            keeps_continue Kept (cancel_take_profit broker (cancel_stop broker w).1).0 _
              (cancel_take_profit broker (cancel_stop broker w).1).1 both
              λ v f. close_now-IsKept (cancel_take_profit broker (cancel_stop broker w).1).1 both

      changed-IsKept :
          (f : TradeContext F O → TradeContext F O) (w : World F O)
          → (f w.ctx).direction ≡ w.ctx.direction
          → (f w.ctx).trade_id ≡ w.ctx.trade_id
          → Kept w
          → Kept (record w { ctx = f w.ctx })
      changed-IsKept f w same number h = record {
        direction_is = same ∙ h.direction_is;
        trade_id_is = number ∙ h.trade_id_is;
        calls_are = h.calls_are;
      }

      exit_asked-IsKept :
          (a : ExitCall) (key : KlineRef F) (w : World F O)
          → Kept w
          → Kept (exit_asked broker reads a key w).1
      unfolding exit_asked exit_now asked request_exit set_pending_exit_reason
      exit_asked-IsKept a key w h =
          let kept = changed-IsKept (asked broker reads a key) w refl refl h in
          either-IsKept (need_confirm_of broker reads a) (pure none) (exit_now broker reads)
            (record w { ctx = asked broker reads a key w.ctx }) kept
            (cancelled-IsKept (record w { ctx = asked broker reads a key w.ctx }) kept)

      exit_at-IsKept :
          (a : ExitCall) (banned : List ℤ) (key : KlineRef F) (w : World F O)
          → Kept w
          → Kept (exit_at broker reads a banned key w).1
      unfolding exit_at
      exit_at-IsKept a banned key w h =
          either-IsKept (any (eqb_ℤ a.key_bar_index) banned)
            (change broker reads (λ c. record c { exit_key_banned = true }))
            (exit_asked broker reads a key) w
            (changed-IsKept (λ c. record c { exit_key_banned = true }) w refl refl h)
            (exit_asked-IsKept a key w h)

      exit_found-IsKept :
          (a : ExitCall) (banned : List ℤ) (w : World F O)
          → Kept w
          → Kept (exit_found broker reads a banned w).1
      unfolding exit_found
      exit_found-IsKept a banned w h =
          if_keeps broker d n _ _ _
            (keeps_continue Kept (kline_ref_by_bar_index reads a.key_bar_index)
              (exit_at broker reads a banned) w h (λ key e. exit_at-IsKept a banned key w h))
            h

    call-IsKept : (m : Method F O) (w : World F O) → Kept w → Kept (call m w)
    unfolding place_or_replace_stop place_or_replace_take_profit
    call-IsKept call_open_entry w h = open_entry-IsKept broker d n w h
    call-IsKept (call_exit_trade reads a banned) w h = exit_found-IsKept reads a banned w h
    call-IsKept (call_close_position oco) w h = close_position-IsKept broker d n oco w h
    call-IsKept call_cancel_stop w h = cancel_stop-IsKept broker d n w h
    call-IsKept call_cancel_take_profit w h = cancel_take_profit-IsKept broker d n w h
    call-IsKept call_place_or_replace_stop w h =
        stop_at-IsKept broker d n w.ctx (close_size broker w) w.ctx.stop_price w h.direction_is
          h.trade_id_is h
    call-IsKept call_place_or_replace_take_profit w h =
        target_at-IsKept broker d n w.ctx (close_size broker w) w.ctx.tp_price w h.direction_is
          h.trade_id_is h

    runs-IsKept : (ms : List (Method F O)) (w : World F O) → Kept w → Kept (run ms w)
    unfolding run
    runs-IsKept [] w h = h
    runs-IsKept (m ∷ ms) w h = runs-IsKept ms (call m w) (call-IsKept m w h)

  -- Whatever the broker answers and raises, and whichever methods of the adapter and exits are called
  -- for a trade, in any order: the trade keeps its number and direction, each order carries that number, and
  -- an order that is not at the market is on the side that closes the direction.
  pub run-IsKept :
      (ms : List (Method F O)) (c : TradeContext F O)
      → IsKept c.direction c.trade_id (run ms (record { calls = []; ctx = c }))
  run-IsKept ms c =
      runs-IsKept c.direction c.trade_id ms _
        (record { direction_is = refl; trade_id_is = refl; calls_are = tt })
