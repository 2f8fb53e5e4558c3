-- ===== src/Tests/Orders.antt =====
-- The theorems on the orders of a trade at a concrete broker.
use chainer_trader.Prelude.{
  ◌≡◌, refl, true, false, none, some, List, [], ◌∷◌, String, length, ok, err,
}
use chainer_trader.Prelude.Int.{ℤ, pos}
use chainer_trader.Prelude.Float.{Float, int_float}
use chainer_trader.Execution.Payload.{end}
use chainer_trader.Strategy.Context.{KlineRef, TradeContext}
use chainer_trader.Strategy.Engine.{create_trade, mark_entry_filled}
use chainer_trader.Strategy.Registry.{empty_registry, by_id, resolve}
use chainer_trader.Strategy.Adapter.{
  Broker, open_entry, place_or_replace_take_profit, place_or_replace_stop, cancel_stop,
  close_position, close_size,
}
use chainer_trader.Strategy.Adapter.Opposed.{IsKept}
use chainer_trader.Strategy.Exit.Runs.{
  Method, call_open_entry, call_exit_trade, call_close_position, call_cancel_stop,
  call_place_or_replace_stop, call_place_or_replace_take_profit, run, run-IsKept,
}
use chainer_trader.Strategy.Exit.{
  Reads, ExitCall, Strategy, exit_trade, exit_found, kline_ref_by_bar_index,
}
use chainer_trader.Strategy.Exit.Reached.{IsFilling, IsExited, exit_trade-IsExited}

instance float_ℤ : Float ℤ
float_ℤ = int_float

abbrev key_bar : KlineRef ℤ
key_bar = record { dt = pos 0; high = pos 105; low = pos 95 }

unfoldable held : TradeContext ℤ String
unfolding create_trade mark_entry_filled float_ℤ
held = mark_entry_filled (pos 100) (pos 95) (
    create_trade (record {
      trade_id = 1;
      key = "202401010000";
      direction = "LONG";
      entry_key_bar_index = pos 3;
      key_kline_ref = key_bar;
      stoploss_atr_mult = pos 0;
      entry_need_confirm = true;
      exit_need_confirm = false;
      enable_breakeven = true;
      risk_reward_ratio = pos 2;
      trailing_stop_ratio = pos 0;
      signal_metadata = end;
    }))

-- a broker of one unit, that makes each order it is asked for and raises on a cancellation
abbrev test_broker : Broker ℤ String
test_broker = record {
  submit = λ calls s. ok (some s.role);
  cancel = λ calls o. err "gone";
  alive = λ calls o. ok true;
  order_size = λ o. pos 1;
  position = λ calls. pos 1;
}

abbrev reads : Reads ℤ
reads = record { chainer_need_confirm = false; bar_idx = pos 9; bar_at = λ k. ok key_bar }

abbrev exit_call : ExitCall
exit_call = record {
  key_bar_index = pos 9;
  need_confirm = none;
  exit_reason_code = some "signal_exit";
  exit_reason_label = none;
  exit_reason_detail = none;
}

abbrev methods : List (Method ℤ String)
methods =
    call_open_entry
    ∷ call_place_or_replace_take_profit
    ∷ call_place_or_replace_stop
    ∷ call_cancel_stop
    ∷ call_exit_trade reads exit_call []
    ∷ call_close_position none
    ∷ []

run-IsKept_example :
    IsKept held.direction held.trade_id
      (run test_broker methods (record { calls = []; ctx = held }))
run-IsKept_example = run-IsKept test_broker methods held

-- the entry with its stop, the stop's cancellation and the new stop, its cancellation, and two exits
methods_lem : length (run test_broker methods (record { calls = []; ctx = held })).calls ≡ 7
unfolding run held open_entry place_or_replace_take_profit place_or_replace_stop cancel_stop
    close_position close_size exit_found kline_ref_by_bar_index float_ℤ
methods_lem = refl

-- a strategy that holds the trade
unfoldable holding : Strategy ℤ String
unfolding empty_registry held
holding = record {
  calls = [];
  registry = record empty_registry { active_trade = some 0; trades_by_id = (1, 0) ∷ [] };
  contexts = λ r. held;
  order = none;
}

test_broker-IsFilling : IsFilling test_broker
unfolding close_size float_ℤ
test_broker-IsFilling = record { makes = λ calls s. (s.role, refl); holds = λ w. refl }

exit_trade-IsExited_example :
    IsExited test_broker reads 0 (exit_trade test_broker reads (by_id 1) exit_call holding)
unfolding holding held empty_registry resolve kline_ref_by_bar_index
exit_trade-IsExited_example =
    exit_trade-IsExited test_broker reads test_broker-IsFilling (by_id 1) exit_call key_bar 0
      holding refl refl refl refl refl
