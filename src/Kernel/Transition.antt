-- ===== src/Kernel/Transition.antt =====
-- `TradeLifecycleEngine` and `RiskEngine` of strategy/execution_kernel.py.
use chainer_trader.Prelude.{
  Bool, true, false, Option, none, some, String, Result, inl, from_option, if◌then◌else◌,
}
use chainer_trader.Prelude.Float.{Float}
use chainer_trader.Prelude.Text.{join, is_empty}
use chainer_trader.Execution.Payload.{Fields, merge}
use chainer_trader.Execution.Enums.{ValueError}
use chainer_trader.Execution.Kinds.{ExecutionStatus, OrderIntentType}
use chainer_trader.Execution.Order.{OrderIntent}
use chainer_trader.Execution.Risk.{RiskIntent, RiskArgs, place_protection, replace_stop}
use chainer_trader.Execution.Outcome.{ExecutionResult}

pub data TradeLifecycleStatus : Type 0 where
  pending_entry_confirm opening active pending_exit_confirm closing closed cancelled :
      TradeLifecycleStatus

-- whether a status is in the set that leaves the trade as it was
abbrev pub is_refused : ExecutionStatus → Bool
is_refused ExecutionStatus.rejected = true
is_refused ExecutionStatus.failed = true
is_refused ExecutionStatus.skipped = true
is_refused _ = false

abbrev pub is_filled : ExecutionStatus → Bool
is_filled ExecutionStatus.filled = true
is_filled _ = false

-- the branches of `apply_execution_result` by the intent's type
moved : OrderIntentType → ExecutionStatus → TradeLifecycleStatus
moved OrderIntentType.entry s = if is_filled s then active else opening
moved OrderIntentType.close s = if is_filled s then closed else closing
moved OrderIntentType.cancel s = cancelled

-- `a or b` on an optional text, where the empty text is as good as none
abbrev text_or : Option String → String → String
text_or none d = d
text_or (some s) d = if is_empty s then d else s

module _ {F : Type 0} where
  -- `TradeLifecycleEngine.apply_execution_result`
  unfoldable apply_execution_result :
      TradeLifecycleStatus → OrderIntent F → ExecutionResult F → TradeLifecycleStatus
  unfolding moved
  apply_execution_result current intent result =
      if is_refused result.status then current else moved intent.intent_type result.status

  -- the arguments that `RiskEngine` takes from the entry
  abbrev entry_args : Float F → OrderIntent F → String → Fields F → RiskArgs F
  entry_args fl e id metadata = record {
    intent_id = id;
    operation_id = e.operation_id;
    symbol = e.symbol;
    side = inl e.side;
    trade_id = text_or e.trade_id e.intent_id;
    quantity = from_option fl.zero_f e.quantity;
    signal_event_id = e.signal_event_id;
    metadata = merge e.metadata metadata;
  }

module _ {F : Type 0} ⦃fl : Float F⦄ where
  -- `RiskEngine.protection_for_entry`
  unfoldable protection_for_entry :
      OrderIntent F → Option F → Option F → Fields F → Result ValueError (RiskIntent F)
  unfolding place_protection
  protection_for_entry e stop target metadata =
      place_protection stop target (entry_args fl e (join "risk:" e.intent_id) metadata)

  -- `RiskEngine.breakeven_replacement`
  unfoldable pub breakeven_replacement :
      OrderIntent F → F → Option String → Fields F → Result ValueError (RiskIntent F)
  unfolding replace_stop
  breakeven_replacement e stop replaced metadata =
      replace_stop stop replaced
        (entry_args fl e (join "risk:" (join e.intent_id ":breakeven")) metadata)
