-- ===== src/Strategy/Engine/Priced.antt =====
-- What the steps of a trade keep.
use chainer_trader.Prelude.{
  ◌≡◌, refl, inl, inr, Bool, true, false, not, ◌&&◌, ◌||◌, arith, is_some, Bool-cases,
}
use chainer_trader.Prelude.Float.{Float}
use chainer_trader.Strategy.Context.{TradeStatus, TradeContext}
use chainer_trader.Strategy.Engine.{
  TradeArgs, ExitArgs, create_trade, cancel_entry, mark_entry_opening, mark_entry_filled,
  mark_entry_failed, request_exit, set_pending_exit_reason, mark_exit_closing,
  mark_exit_confirm_failed, mark_exit_filled, mark_exit_failed,
}
use chainer_trader.Strategy.Engine.Steps.{
  is_held, is_exit_pending, IsConsistent, Step, cancels, opens, fills, entry_fails, asks_active,
  asks_pending, closes, confirm_fails, places_stop, moves_stop, sells_for, sells, exit_fails, Steps,
  done, next,
}

-- a status at which base_strategy.py asks for an exit
abbrev is_asked : TradeStatus → Bool
is_asked TradeStatus.active = true
is_asked TradeStatus.pending_exit_confirm = true
is_asked _ = false

is_asked_held : (s : TradeStatus) → is_asked s ≡ true → is_held s ≡ true
is_asked_held TradeStatus.active h = refl
is_asked_held TradeStatus.pending_exit_confirm h = refl
is_asked_held TradeStatus.pending_entry_confirm h = cc
is_asked_held TradeStatus.opening h = cc
is_asked_held TradeStatus.closing h = cc
is_asked_held TradeStatus.closed h = cc
is_asked_held TradeStatus.cancelled h = cc

or_true : (b : Bool) → b || true ≡ true
or_true b = ground arith

module _ {F O : Type 0} where
  held_priced :
      (c : TradeContext F O)
      → is_held c.status ≡ true
      → IsConsistent c
      → is_some c.entry_price && (is_some c.initial_stop_price && is_some c.stop_price) ≡ true
  held_priced c e h = ground (arith, h.priced)

  ask_kept :
      (a : ExitArgs F) (c : TradeContext F O)
      → is_asked c.status ≡ true
      → IsConsistent c
      → IsConsistent (request_exit a c)
  unfolding request_exit set_pending_exit_reason
  ask_kept a c e h = elim (Bool-cases a.exit_need_confirm) [
    | inl asked ↦ record {
      priced = rw asked (held_priced c (is_asked_held c.status e) h);
      exit_known = rw asked refl;
      sold = rw asked refl;
      explained = rw asked refl;
    }
    | inr free ↦ record {
      priced = rw free h.priced;
      exit_known = rw free (or_true (not (is_exit_pending c.status)));
      sold = rw free h.sold;
      explained = rw free h.explained;
    }
  ]

  step-IsConsistent : (b c : TradeContext F O) → Step b c → IsConsistent b → IsConsistent c
  unfolding cancel_entry mark_entry_opening mark_entry_filled mark_entry_failed request_exit
      set_pending_exit_reason mark_exit_closing mark_exit_confirm_failed mark_exit_filled
      mark_exit_failed
  step-IsConsistent _ _ (cancels r c) h = record {
    priced = refl;
    exit_known = refl;
    sold = refl;
    explained = refl;
  }
  step-IsConsistent _ _ (opens o c e) h = record {
    priced = refl;
    exit_known = refl;
    sold = refl;
    explained = refl;
  }
  step-IsConsistent _ _ (fills price stop c e) h = record {
    priced = refl;
    exit_known = refl;
    sold = refl;
    explained = refl;
  }
  step-IsConsistent _ _ (entry_fails r c e) h = record {
    priced = refl;
    exit_known = refl;
    sold = refl;
    explained = refl;
  }
  step-IsConsistent _ _ (asks_active a c e) h = ask_kept a c (rw e refl) h
  step-IsConsistent _ _ (asks_pending a c e) h = ask_kept a c (rw e refl) h
  step-IsConsistent _ _ (closes o c e) h = record {
    priced = held_priced c e h;
    exit_known = refl;
    sold = refl;
    explained = refl;
  }
  step-IsConsistent _ _ (confirm_fails c e) h = record {
    priced = held_priced c (rw e refl) h;
    exit_known = refl;
    sold = refl;
    explained = refl;
  }
  step-IsConsistent _ _ (places_stop x c) h = record {
    priced = ground (arith, h.priced);
    exit_known = h.exit_known;
    sold = h.sold;
    explained = h.explained;
  }
  step-IsConsistent _ _ (moves_stop x c) h = record {
    priced = ground (arith, h.priced);
    exit_known = h.exit_known;
    sold = h.sold;
    explained = h.explained;
  }
  step-IsConsistent _ _ (sells_for r price value c) h = record {
    priced = refl;
    exit_known = refl;
    sold = refl;
    explained = refl;
  }
  step-IsConsistent _ _ (sells price value c) h = record {
    priced = refl;
    exit_known = refl;
    sold = refl;
    explained = refl;
  }
  step-IsConsistent _ _ (exit_fails c e) h = record {
    priced = held_priced c (rw e refl) h;
    exit_known = refl;
    sold = refl;
    explained = refl;
  }

  many-IsConsistent : (b c : TradeContext F O) → Steps b c → IsConsistent b → IsConsistent c
  many-IsConsistent _ _ (done c) h = h
  many-IsConsistent _ _ (next b c d s r) h = many-IsConsistent c d r (step-IsConsistent b c s h)

module _ {F O : Type 0} ⦃fl : Float F⦄ where
  create_trade-IsConsistent : (a : TradeArgs F) → IsConsistent {O = O} (create_trade a)
  unfolding create_trade
  create_trade-IsConsistent a = elim (Bool-cases a.entry_need_confirm) [
    | inl asked ↦ record {
      priced = rw asked refl;
      exit_known = rw asked refl;
      sold = rw asked refl;
      explained = rw asked refl;
    }
    | inr free ↦ record {
      priced = rw free refl;
      exit_known = rw free refl;
      sold = rw free refl;
      explained = rw free refl;
    }
  ]

  -- Whatever happens to a trade after `create_trade`: while it holds a position, its entry price and
  -- both stop prices are set; while it waits for an exit's confirmation, the reason and the bar are
  -- set; when it is closed its exit price is set, and when it is cancelled its reason.
  pub trade-IsConsistent :
      (a : TradeArgs F) (c : TradeContext F O) → Steps (create_trade a) c → IsConsistent c
  trade-IsConsistent a c s = many-IsConsistent (create_trade a) c s (create_trade-IsConsistent a)
