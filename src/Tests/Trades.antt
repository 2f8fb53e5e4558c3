-- ===== src/Tests/Trades.antt =====
-- The theorems on trades, signals and stops at concrete inputs.
use chainer_trader.Prelude.{
  ◌≡◌, refl, ◌+◌, ◌*◌, true, false, none, some, List, [], ◌∷◌, String, length, All,
}
use chainer_trader.Prelude.Int.{ℤ, pos, ◌+ℤ◌, ◌-ℤ◌, ◌*ℤ◌}
use chainer_trader.Prelude.Float.{Float, int_float}
use chainer_trader.Prelude.Text.{str_eq}
use chainer_trader.Execution.Payload.{end}
use chainer_trader.Strategy.Context.{KlineRef, TradeContext, SignalSnapshot}
use chainer_trader.Strategy.Engine.{
  TradeArgs, ExitArgs, create_trade, mark_entry_opening, mark_entry_filled, request_exit,
  mark_exit_closing, mark_exit_filled,
}
use chainer_trader.Strategy.Engine.Priced.{trade-IsConsistent}
use chainer_trader.Strategy.Engine.Steps.{
  IsConsistent, Steps, opens, fills, asks_active, closes, sells, done, next,
}
use chainer_trader.Strategy.Registry.{empty_registry, resolve, by_id, enter, id_of}
use chainer_trader.Strategy.Registry.Entered.{Step, reserves, enters, run, enter-resolve}
use chainer_trader.Strategy.Router.{SignalRoutingState, mode_of, route}
use chainer_trader.Strategy.Router.Modes.{Sound, one_if}
use chainer_trader.Strategy.Router.Answered.{AreAnswers, about, route_decided}
use chainer_trader.Strategy.StopRisk.{
  Env, BreakevenAdjustment, TrailingStopAdjustment, breakeven_adjustment, trailing_stop_adjustment,
  short_of_entry,
}
use chainer_trader.Strategy.StopRisk.Tightens.{
  tighter, behind, breakeven_adjustment-tighter, trailing_stop_adjustment-tighter,
}

instance float_ℤ : Float ℤ
float_ℤ = int_float

abbrev key_bar : KlineRef ℤ
key_bar = record { dt = pos 0; high = pos 105; low = pos 95 }

abbrev trade_args : TradeArgs ℤ
trade_args = record {
  trade_id = 1;
  key = "202401010000";
  direction = "LONG";
  entry_key_bar_index = pos 3;
  key_kline_ref = key_bar;
  stoploss_atr_mult = pos 0;
  entry_need_confirm = true;
  exit_need_confirm = false;
  enable_breakeven = true;
  risk_reward_ratio = pos 2;
  trailing_stop_ratio = pos 0;
  signal_metadata = end;
}

abbrev exit_args : ExitArgs ℤ
exit_args = record {
  exit_key_bar_index = pos 9;
  exit_key_ref = key_bar;
  exit_need_confirm = false;
  reason_code = "signal_exit";
  reason_label = "signal";
  reason_detail = none;
}

unfoldable created : TradeContext ℤ String
unfolding create_trade float_ℤ
created = create_trade trade_args

unfoldable opened : TradeContext ℤ String
unfolding created mark_entry_opening
opened = mark_entry_opening (some "o1") created

unfoldable held : TradeContext ℤ String
unfolding opened mark_entry_filled
held = mark_entry_filled (pos 100) (pos 95) opened

unfoldable asked : TradeContext ℤ String
unfolding held request_exit
asked = request_exit exit_args held

unfoldable closing : TradeContext ℤ String
unfolding asked mark_exit_closing
closing = mark_exit_closing (some "o2") asked

unfoldable closed : TradeContext ℤ String
unfolding closing mark_exit_filled
closed = mark_exit_filled (pos 120) none closing

-- a trade that is confirmed, filled, asked to exit and sold
life : Steps (create_trade trade_args) closed
unfolding created opened held asked closing closed
life = next created opened closed (opens (some "o1") created refl) (
    next opened held closed (fills (pos 100) (pos 95) opened refl) (
      next held asked closed (asks_active exit_args held refl) (
        next asked closing closed (closes (some "o2") asked refl)
          (next closing closed closed (sells (pos 120) none closing) (done closed)))))

trade-IsConsistent_example : IsConsistent closed
trade-IsConsistent_example = trade-IsConsistent trade_args closed life

-- A replacement reserves the id 2 and is entered under it, after a trade of the same key.
abbrev later : List (Step String)
later = reserves ∷ enters none false true "b" "k" ∷ enters (some 2) true false "c" "k" ∷ []

enter-resolve_example :
    resolve
      (by_id (id_of {R = String} none empty_registry).0)
      (run later (enter none false true "a" "k" empty_registry))
    ≡ some "a"
unfolding id_of empty_registry
enter-resolve_example = enter-resolve none false true "a" "k" empty_registry later refl refl

abbrev both_signals : SignalSnapshot ℤ
both_signals = record {
  bar_index = pos 5;
  long_signal = true;
  short_signal = true;
  long_context = end;
  short_context = end;
}

abbrev holding_long : SignalRoutingState ℤ String
holding_long = record {
  mode = some "long_only";
  can_open_new_position = false;
  active_trade = some held;
  position_size = pos 2;
}

route_decided_example :
    AreAnswers true end (about "LONG" (route both_signals holding_long))
    × AreAnswers true end (about "SHORT" (route both_signals holding_long))
    × (length (route both_signals holding_long) ≡ 2 * (one_if true + one_if true))
    × All (Sound (mode_of (some "long_only")) holding_long) (route both_signals holding_long)
route_decided_example = route_decided both_signals holding_long

-- no text parses as a number, and no integer is a NaN
abbrev env_ℤ : Env ℤ
env_ℤ = record { parsed = λ s. none; eps = pos 0; is_nan = λ x. false }

-- The stop at 95 moves to the price that `breakeven_price` gives, and with the best price 130 and
-- the ratio 1 to 130.
abbrev breakeven_made : BreakevenAdjustment ℤ
breakeven_made = record { old_stop = pos 95; new_stop = pos 595; step = pos 496 }

breakeven_made_lem : breakeven_adjustment env_ℤ held (pos 200) ≡ some breakeven_made
unfolding breakeven_adjustment held float_ℤ ◌+ℤ◌ ◌-ℤ◌ ◌*ℤ◌
breakeven_made_lem = refl

breakeven_adjustment-tighter_example :
    (held.enable_breakeven ≡ true)
    × (held.stop_price ≡ some (pos 95))
    × (tighter (str_eq held.direction "LONG") (pos 95) (pos 595) ≡ true)
breakeven_adjustment-tighter_example =
    breakeven_adjustment-tighter env_ℤ held (pos 200) breakeven_made_lem

abbrev trailing_made : TrailingStopAdjustment ℤ
trailing_made = record { old_stop = pos 95; new_stop = pos 130; best_price = pos 130 }

trailing_made_lem : trailing_stop_adjustment held (pos 130) (pos 1) ≡ some trailing_made
unfolding trailing_stop_adjustment held float_ℤ ◌+ℤ◌ ◌-ℤ◌ ◌*ℤ◌
trailing_made_lem = refl

trailing_stop_adjustment-tighter_example :
    (held.stop_price ≡ some (pos 95))
    × (behind (str_eq held.direction "LONG") (pos 130) (pos 95) ≡ false)
    × (short_of_entry (str_eq held.direction "LONG") (pos 130) held.entry_price ≡ false)
trailing_stop_adjustment-tighter_example =
    trailing_stop_adjustment-tighter held (pos 130) (pos 1) trailing_made_lem
