-- ===== src/Strategy/Exit/Reached.antt =====
-- An exit that needs no confirmation ends in a trade that is closing.
use chainer_trader.Prelude.{
  arith, ◌≡◌, refl, sym, subst, ℕ, ◌==◌, Bool, true, false, Option, none, some, List, ◌∷◌, String,
  Result, ok, err, any, if◌then◌else◌,
}
use chainer_trader.Prelude.Exec.{continue, ◌>>=◌, ◌>>◌}
use chainer_trader.Prelude.Float.{Float}
use chainer_trader.Prelude.Int.{ℤ, eqb_ℤ}
use chainer_trader.Strategy.Context.{TradeStatus, TradeContext, KlineRef}
use chainer_trader.Strategy.Engine.{mark_exit_closing}
use chainer_trader.Strategy.Registry.{TradeRef, resolve}
use chainer_trader.Strategy.Adapter.{
  Submission, Call, submission, submit, Broker, World, Act, unless_raised, cancelled_if, cancel_by,
  cancel_stop, cancel_take_profit, set_stop, set_target, close_size, close_position,
}
use chainer_trader.Strategy.Exit.{
  Reads, kline_ref_by_bar_index, ExitCall, can_exit, need_confirm_of, closing, close_now, exit_at,
  exit_asked, exit_now, exit_found, Strategy, exit_of, exit_trade, asked, written,
}

otherwise :
    {A : Type 0} (P : A → Type 0) (b : Bool) (p q : A) → b ≡ false → P q → P (if b then p else q)
otherwise P true p q e h = cc
otherwise P false p q e h = h

when : {A : Type 0} (P : A → Type 0) (b : Bool) (p q : A) → b ≡ true → P p → P (if b then p else q)
when P true p q e h = h
when P false p q e h = cc

module _ {F O : Type 0} ⦃fl : Float F⦄ where
  -- A broker that makes every order, of a position that is open.
  pub record IsFilling (broker : Broker F O) : Type 0 where
    pub makes :
        (calls : List (Call F O)) (s : Submission F O)
        → (o : O) × (broker.submit calls s ≡ ok (some o))
    pub holds : (w : World F O) → fl.le (close_size broker w) fl.zero_f ≡ false

  -- The trade is closing, and its order is what the broker answered to the newest call, the exit.
  pub record IsClosing (broker : Broker F O) (calls : List (Call F O)) (ctx : TradeContext F O)
      (order : Option O) : Type 0 where
    pub status_is : ctx.status ≡ TradeStatus.closing
    pub order_is : ctx.order ≡ order
    pub asked_last :
        (s : Submission F O) × (before : List (Call F O)) × (calls ≡ submission s ∷ before)
        × (s.role ≡ "exit")
        × (broker.submit before s ≡ ok order)

  module _ (broker : Broker F O) (reads : Reads F) where
    -- the answer and the end of a block
    abbrev IsDone : Result String (Option O) × World F O → Type 0
    IsDone p = (o : O) × (p.0 ≡ ok (some o)) × IsClosing broker p.1.calls p.1.ctx (some o)

    closing-IsDone :
        (w : World F O) (s : Submission F O) (o : O)
        → broker.submit w.calls s ≡ ok (some o)
        → s.role ≡ "exit"
        → IsDone (
            continue
              (broker.submit w.calls s)
              (closing broker reads)
              (record w { calls = submission s ∷ w.calls }))
    unfolding closing mark_exit_closing
    closing-IsDone w s o e role =
        subst
          (λ x.
            IsDone
              (continue x (closing broker reads) (record w { calls = submission s ∷ w.calls })))
          (sym e)
          (
            o,
            refl,
            record { status_is = refl; order_is = refl; asked_last = (s, w.calls, refl, role, e) },
          )

    ordered-IsDone :
        (h : IsFilling broker) (w : World F O) (s : Submission F O)
        → s.role ≡ "exit"
        → IsDone ((submit broker s >>= closing broker reads) w)
    ordered-IsDone h w s role = let (o, e) = h.makes w.calls s in closing-IsDone w s o e role

    close_position-IsDone :
        IsFilling broker
        → (w : World F O) → IsDone ((close_position broker none >>= closing broker reads) w)
    unfolding close_position close_size
    close_position-IsDone h w =
        otherwise {A = Result String (Option O) × World F O}
          (λ p. IsDone (continue p.0 (closing broker reads) p.1)) _ (ok none, w) _ (h.holds w)
          (ordered-IsDone h w _ refl)

    -- the order of the exit is made, and the trade is closing
    close_now-IsDone : IsFilling broker → (w : World F O) → IsDone (close_now broker reads w)
    unfolding close_now
    close_now-IsDone h w = otherwise IsDone _ (ok none, w) _ (h.holds w) (close_position-IsDone h w)

    unless_raised_done :
        (forget : Act broker (Unit {0})) (r : Result String (Unit {0})) (w : World F O)
        → ((v : World F O) → (forget v).0 ≡ ok tt)
        → (unless_raised broker forget r w).0 ≡ ok tt
    unless_raised_done forget (ok u) w k = refl
    unless_raised_done forget (err e) w k = k w

    cancelled_if_done :
        (forget : Act broker (Unit {0})) (o : O) (r : Result String Bool) (w : World F O)
        → ((v : World F O) → (forget v).0 ≡ ok tt)
        → (cancelled_if broker forget o r w).0 ≡ ok tt
    cancelled_if_done forget o (ok true) w k = unless_raised_done forget _ _ k
    cancelled_if_done forget o (ok false) w k = k w
    cancelled_if_done forget o (err e) w k = k w

    -- a cancellation never raises
    cancel_by_done :
        (forget : Act broker (Unit {0})) (o : Option O) (w : World F O)
        → ((v : World F O) → (forget v).0 ≡ ok tt)
        → (cancel_by broker forget o w).0 ≡ ok tt
    cancel_by_done forget none w k = refl
    cancel_by_done forget (some o) w k = cancelled_if_done forget o _ w k

    -- what follows a call that does not raise
    then-IsDone :
        (r : Result String (Unit {0})) (m : Act broker (Option O)) (w : World F O)
        → r ≡ ok tt
        → IsDone (m w)
        → IsDone (continue r (λ _. m) w)
    then-IsDone (ok u) m w e h = h
    then-IsDone (err x) m w e h = cc

    cancel_stop_done : (w : World F O) → (cancel_stop broker w).0 ≡ ok tt
    unfolding cancel_stop
    cancel_stop_done w = cancel_by_done (set_stop broker none) w.ctx.stop_order w (λ v. refl)

    cancel_take_profit_done : (w : World F O) → (cancel_take_profit broker w).0 ≡ ok tt
    unfolding cancel_take_profit
    cancel_take_profit_done w = cancel_by_done (set_target broker none) w.ctx.tp_order w (λ v. refl)

    -- whatever the cancellations raise, the exit is ordered after them
    cancelled-IsDone :
        IsFilling broker
        → (w : World F O)
        → IsDone ((cancel_stop broker >> (cancel_take_profit broker >> close_now broker reads)) w)
    cancelled-IsDone h w =
        then-IsDone (cancel_stop broker w).0 (cancel_take_profit broker >> close_now broker reads)
          (cancel_stop broker w).1 (cancel_stop_done w)
          (then-IsDone (cancel_take_profit broker (cancel_stop broker w).1).0
            (close_now broker reads) _ (cancel_take_profit_done (cancel_stop broker w).1)
            (close_now-IsDone h _))

    exit_at-IsDone :
        IsFilling broker
        → (a : ExitCall) (banned : List ℤ) (key : KlineRef F) (w : World F O)
        → any (eqb_ℤ a.key_bar_index) banned ≡ false
        → need_confirm_of broker reads a ≡ false
        → IsDone (exit_at broker reads a banned key w)
    unfolding exit_at exit_asked exit_now
    exit_at-IsDone h a banned key w free now =
        otherwise {A = Act broker (Option O)} (λ m. IsDone (m w)) _ _ _ free
          (otherwise {A = Act broker (Option O)}
            (λ m. IsDone (m (record w { ctx = asked broker reads a key w.ctx }))) _ _ _ now
            (cancelled-IsDone h _))

    found_at-IsDone :
        IsFilling broker
        → (a : ExitCall) (banned : List ℤ) (key : KlineRef F) (w : World F O)
          (r : Result String (KlineRef F))
        → r ≡ ok key
        → any (eqb_ℤ a.key_bar_index) banned ≡ false
        → need_confirm_of broker reads a ≡ false
        → IsDone (continue r (exit_at broker reads a banned) w)
    found_at-IsDone h a banned key w r e free now =
        subst (λ x. IsDone (continue x (exit_at broker reads a banned) w)) (sym e)
          (exit_at-IsDone h a banned key w free now)

    exit_found-IsDone :
        IsFilling broker
        → (a : ExitCall) (banned : List ℤ) (key : KlineRef F) (w : World F O)
        → can_exit w.ctx.status ≡ true
        → kline_ref_by_bar_index reads a.key_bar_index ≡ ok key
        → any (eqb_ℤ a.key_bar_index) banned ≡ false
        → need_confirm_of broker reads a ≡ false
        → IsDone (exit_found broker reads a banned w)
    unfolding exit_found
    exit_found-IsDone h a banned key w live e free now =
        when IsDone _ _ _ live (found_at-IsDone h a banned key w _ e free now)

    -- what `exit_trade` returns for a trade, and what it leaves
    abbrev pub IsExited : ℕ → Result String (Option ℕ) × Strategy F O → Type 0
    IsExited r p = (p.0 ≡ ok (some r)) × IsClosing broker p.1.calls (p.1.contexts r) p.1.order

    same : (r : ℕ) → (r == r) ≡ true
    same r = ground arith

    written-IsExited :
        (r : ℕ) (s : Strategy F O) (p : Result String (Option O) × World F O)
        → IsDone p
        → IsExited r (written broker reads r s p)
    written-IsExited r s (ok (some order), w) (o, e, h) =
        let order_is : some o ≡ some order = cc in
        (
          refl,
          when (λ c. IsClosing broker w.calls c (some order)) (r == r) w.ctx (s.contexts r) (same r)
              (subst (λ x. IsClosing broker w.calls w.ctx x) order_is h),
        )
    written-IsExited r s (ok none, w) (o, e, h) = cc
    written-IsExited r s (err x, w) (o, e, h) = cc

    -- When the broker makes every order and a position is open, an exit that needs no confirmation, of
    -- a trade that is active or waits for a confirmation, at a bar that can be read and is not banned,
    -- returns the trade, which is closing: the newest call is the exit, and its order, which
    -- `self.order` is too, is what the broker answered to it, whatever the cancellations of its stop and target raise.
    pub exit_trade-IsExited :
        IsFilling broker
        → (ref : TradeRef) (a : ExitCall) (key : KlineRef F) (r : ℕ) (s : Strategy F O)
        → resolve ref s.registry ≡ some r
        → can_exit (s.contexts r).status ≡ true
        → kline_ref_by_bar_index reads a.key_bar_index ≡ ok key
        → any (eqb_ℤ a.key_bar_index) s.registry.banned_exit_key_bar_index ≡ false
        → need_confirm_of broker reads a ≡ false
        → IsExited r (exit_trade broker reads ref a s)
    unfolding exit_trade exit_of
    exit_trade-IsExited h ref a key r s found live e free now =
        subst (λ x. IsExited r (exit_of broker reads x a s)) (sym found)
          (written-IsExited r s _ (exit_found-IsDone h a _ key _ live e free now))
