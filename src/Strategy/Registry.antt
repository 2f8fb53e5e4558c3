-- ===== src/Strategy/Registry.antt =====
-- `TradeRegistry` of strategy/lifecycle.py. Its dictionaries and `active_trade` share the contexts,
-- so they hold references; a method that reads a context takes the store that the references are
-- looked up in. A dictionary is the list of its bindings, the latest first.
pub mod Entered
use Prim.Native.Char.{Char, code}
use Prim.Native.String.{[] as empty, ◌∷◌ as cons}
use chainer_trader.Prelude.{
  ℕ, suc, ◌+◌, ◌-◌, ◌*◌, Bool, true, false, not, ◌&&◌, Option, none, some, List, [], ◌∷◌, String,
  is_some, leb, ◌==◌, if◌then◌else◌,
}
use chainer_trader.Prelude.Int.{ℤ}
use chainer_trader.Prelude.Text.{str_eq, is_empty, join}
use chainer_trader.Prelude.Text.Show.{show_nat}
use chainer_trader.Prelude.Text.Digits.{is_digits, int_of}
use chainer_trader.Strategy.Context.{TradeContext, is_over}

-- `d.get(k)`
abbrev pub get : {K V : Type 0} → (K → K → Bool) → K → List (K × V) → Option V
get eq k [] = none
get eq k ((j, v) ∷ d) = let rest = get eq k d in if eq j k then some v else rest

-- `int | str | None`
pub data TradeRef : Type 0 where
  no_ref : TradeRef
  by_id : ℕ → TradeRef
  by_text : String → TradeRef

pub record TradeRegistry (R : Type 0) : Type 0 where
  pub trade_seq : ℕ
  pub active_trade : Option R
  pub trades_by_id : List (ℕ × R)
  pub trades_by_key : List (String × R)
  pub banned_entry_key_bar_index : List ℤ
  pub banned_exit_key_bar_index : List ℤ

module _ {R : Type 0} where
  -- `__init__`
  unfoldable pub empty_registry : TradeRegistry R
  empty_registry = record {
    trade_seq = 0;
    active_trade = none;
    trades_by_id = [];
    trades_by_key = [];
    banned_entry_key_bar_index = [];
    banned_exit_key_bar_index = [];
  }

  -- `allocate_trade_id`
  pub allocate_trade_id : TradeRegistry R → ℕ × TradeRegistry R
  allocate_trade_id g = (suc g.trade_seq, record g { trade_seq = suc g.trade_seq })

  -- `register`, with the id and the key that the context has
  pub register : R → ℕ → String → TradeRegistry R → TradeRegistry R
  register r id key g = record g {
    trades_by_id = (id, r) ∷ g.trades_by_id;
    trades_by_key = (key, r) ∷ g.trades_by_key;
  }

  -- `resolve`
  unfoldable pub resolve : TradeRef → TradeRegistry R → Option R
  unfolding is_digits int_of
  resolve no_ref g = g.active_trade
  resolve (by_id n) g = get (◌==◌) n g.trades_by_id
  resolve (by_text s) g =
      if is_digits s then get (◌==◌) (int_of s) g.trades_by_id else get str_eq s g.trades_by_key

  module _ {F O : Type 0} (deref : R → TradeContext F O) where
    abbrev is_open : Option R → Bool
    is_open none = false
    is_open (some r) = not (is_over (deref r).status)

    -- `has_open_trade`
    unfoldable has_open_trade : TradeRegistry R → Bool
    has_open_trade g = is_open g.active_trade

    abbrev has_id : ℕ → Option R → Bool
    has_id n none = false
    has_id n (some r) = (deref r).trade_id == n

    -- `clear_active_if_matches`
    unfoldable clear_active_if_matches : ℕ → TradeRegistry R → TradeRegistry R
    clear_active_if_matches n g =
        if has_id n g.active_trade then record g { active_trade = none } else g

  -- the id of `enter_trade`: the one that was reserved, or a new one
  unfoldable pub id_of : Option ℕ → TradeRegistry R → ℕ × TradeRegistry R
  unfolding allocate_trade_id
  id_of none g = allocate_trade_id g
  id_of (some n) g = (n, g)

  -- and its key, made unique by the id
  unfoldable pub key_of : String → ℕ → TradeRegistry R → String
  key_of base id g =
      if is_some (get str_eq base g.trades_by_key) then join base (join "-" (show_nat id)) else base

  -- What `enter_trade` does to the registry for a new context: it registers it, and makes it the active
  -- trade, unless its key bar is banned, or the call asks not to.
  unfoldable pub enter : Option ℕ → Bool → Bool → R → String → TradeRegistry R → TradeRegistry R
  unfolding id_of key_of register
  enter reserved banned activate_trade r base g =
      let (id, given) = id_of reserved g in
      let registered = register r id (key_of base id given) given in
      if banned
      then registered
      else if activate_trade
      then record registered { active_trade = some r }
      else registered
