-- ===== src/Strategy/Exit.antt =====
-- `exit_trade` of strategy/base_strategy.py, with the bar that it reads. The bars of backtrader's
-- lines are a parameter, and log lines are left out.
pub mod Reached
pub mod Runs
use chainer_trader.Prelude.{
  ℕ, ◌==◌, or_else, Bool, true, false, Option, none, some, List, any, String, Result, ok, err,
  from_option, if◌then◌else◌,
}
use chainer_trader.Prelude.Exec.{pure, lift, ◌>>=◌, ◌>>◌}
use chainer_trader.Prelude.Float.{Float}
use chainer_trader.Prelude.Text.{is_empty}
use chainer_trader.Prelude.Int.{ℤ, ltb_ℤ, eqb_ℤ}
use chainer_trader.Strategy.Context.{TradeStatus, KlineRef, TradeContext}
use chainer_trader.Strategy.Engine.{request_exit, mark_exit_closing}
use chainer_trader.Strategy.Registry.{TradeRef, TradeRegistry, resolve}
use chainer_trader.Strategy.Adapter.{
  Broker, Call, World, Act, close_size, close_position, cancel_stop, cancel_take_profit,
}

-- What the strategy reads: its parameter, the index of the bar, and the bars at an index.
pub record Reads (F : Type 0) : Type 0 where
  pub chainer_need_confirm : Bool
  pub bar_idx : ℤ
  pub bar_at : ℤ → Result String (KlineRef F)

-- `_kline_ref_by_bar_index`
unfoldable pub kline_ref_by_bar_index : {F : Type 0} → Reads F → ℤ → Result String (KlineRef F)
kline_ref_by_bar_index reads k =
    if ltb_ℤ reads.bar_idx k then err "key_bar_index must not be in the future" else reads.bar_at k

-- the arguments of `exit_trade`, but for the trade's reference
pub record ExitCall : Type 0 where
  pub key_bar_index : ℤ
  pub need_confirm : Option Bool
  pub exit_reason_code : Option String
  pub exit_reason_label : Option String
  pub exit_reason_detail : Option String

-- the statuses in which an exit can be asked
abbrev pub can_exit : TradeStatus → Bool
can_exit TradeStatus.active = true
can_exit TradeStatus.pending_exit_confirm = true
can_exit _ = false

-- `a or b` on a text that may be missing
abbrev or_text : Option String → String → String
or_text a b = if is_empty (from_option "" a) then b else from_option "" a

module _ {F O : Type 0} ⦃fl : Float F⦄ (broker : Broker F O) (reads : Reads F) where
  abbrev pub change : (TradeContext F O → TradeContext F O) → Act broker (Option O)
  change f w = (ok none, record w { ctx = f w.ctx })

  -- what follows the order of the exit
  unfoldable pub closing : Option O → Act broker (Option O)
  unfolding mark_exit_closing
  closing none = pure none
  closing (some order) = change (mark_exit_closing (some order)) >> pure (some order)

  -- the order of an exit that needs no confirmation
  unfoldable pub close_now : Act broker (Option O)
  unfolding close_size close_position closing
  close_now w =
      if fl.le (close_size broker w) fl.zero_f
      then (ok none, w)
      else (close_position broker none >>= closing) w

  abbrev pub need_confirm_of : ExitCall → Bool
  need_confirm_of a = from_option reads.chainer_need_confirm a.need_confirm

  unfoldable pub asked : ExitCall → KlineRef F → TradeContext F O → TradeContext F O
  unfolding request_exit
  asked a key = request_exit (record {
    exit_key_bar_index = a.key_bar_index;
    exit_key_ref = key;
    exit_need_confirm = need_confirm_of a;
    reason_code = or_text a.exit_reason_code "unclassified_exit";
    reason_label = or_text a.exit_reason_label "未分类退出";
    reason_detail = a.exit_reason_detail;
  })

  unfoldable pub exit_now : Act broker (Option O)
  unfolding close_now cancel_stop cancel_take_profit
  exit_now = cancel_stop broker >> (cancel_take_profit broker >> close_now)

  unfoldable pub exit_asked : ExitCall → KlineRef F → Act broker (Option O)
  unfolding asked exit_now
  exit_asked a key = change (asked a key) >> (if need_confirm_of a then pure none else exit_now)

  unfoldable pub exit_at : ExitCall → List ℤ → KlineRef F → Act broker (Option O)
  unfolding exit_asked
  exit_at a banned key =
      if any (eqb_ℤ a.key_bar_index) banned
      then change (λ c. record c { exit_key_banned = true })
      else exit_asked a key

  -- the exit of a trade that was found; it returns the order that `self.order` is set to
  unfoldable pub exit_found : ExitCall → List ℤ → Act broker (Option O)
  unfolding kline_ref_by_bar_index exit_at
  exit_found a banned w =
      if can_exit w.ctx.status
      then (lift (kline_ref_by_bar_index reads a.key_bar_index) >>= exit_at a banned) w
      else (ok none, w)

-- A strategy: the contexts by reference, and `self.order`. Its own names of the registry's fields are
-- those fields.
pub record Strategy (F O : Type 0) : Type 0 where
  pub calls : List (Call F O)
  pub registry : TradeRegistry ℕ
  pub contexts : ℕ → TradeContext F O
  pub order : Option O

module _ {F O : Type 0} ⦃fl : Float F⦄ (broker : Broker F O) (reads : Reads F) where
  abbrev pub put : ℕ → TradeContext F O → (ℕ → TradeContext F O) → ℕ → TradeContext F O
  put r c contexts q = if q == r then c else contexts q

  -- what a call returns, and the order that it sets
  abbrev pub written :
      ℕ
      → Strategy F O
      → Result String (Option O) × World F O
      → Result String (Option ℕ) × Strategy F O
  written r s (ok order, w) = (
    ok (some r),
    record s { calls = w.calls; contexts = put r w.ctx s.contexts; order = or_else order s.order },
  )
  written r s (err e, w) = (err e, record s { calls = w.calls; contexts = put r w.ctx s.contexts })

  unfoldable pub exit_of :
      Option ℕ → ExitCall → Strategy F O → Result String (Option ℕ) × Strategy F O
  unfolding exit_found
  exit_of none a s = (ok none, s)
  exit_of (some r) a s = written r s (
      exit_found broker reads a s.registry.banned_exit_key_bar_index
        (record { calls = s.calls; ctx = s.contexts r }))

  unfoldable pub exit_trade :
      TradeRef → ExitCall → Strategy F O → Result String (Option ℕ) × Strategy F O
  unfolding exit_of
  exit_trade ref a s = exit_of (resolve ref s.registry) a s
