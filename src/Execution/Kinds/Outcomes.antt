-- ===== src/Execution/Kinds/Outcomes.antt =====
-- The enumerations of execution/models.py that results and events are made of.
use chainer_trader.Prelude.{◌≡◌, refl, List, [], ◌∷◌, String, ok}
use chainer_trader.Execution.Enums.{StrEnum, find_member}

pub data ExecutionStatus : Type 0 where
  submitted accepted filled canceled rejected skipped failed : ExecutionStatus

abbrev pub execution_status_value : ExecutionStatus → String
execution_status_value ExecutionStatus.submitted = "submitted"
execution_status_value ExecutionStatus.accepted = "accepted"
execution_status_value ExecutionStatus.filled = "filled"
execution_status_value ExecutionStatus.canceled = "canceled"
execution_status_value ExecutionStatus.rejected = "rejected"
execution_status_value ExecutionStatus.skipped = "skipped"
execution_status_value ExecutionStatus.failed = "failed"

abbrev pub execution_status_members : List ExecutionStatus
execution_status_members =
    ExecutionStatus.submitted ∷ ExecutionStatus.accepted ∷ ExecutionStatus.filled
    ∷ ExecutionStatus.canceled ∷ ExecutionStatus.rejected ∷ ExecutionStatus.skipped
    ∷ ExecutionStatus.failed ∷ []

pub find-execution_status_value :
    (e : ExecutionStatus)
    → find_member execution_status_value (execution_status_value e) execution_status_members ≡ ok e
unfolding find_member
find-execution_status_value ExecutionStatus.submitted = refl
find-execution_status_value ExecutionStatus.accepted = refl
find-execution_status_value ExecutionStatus.filled = refl
find-execution_status_value ExecutionStatus.canceled = refl
find-execution_status_value ExecutionStatus.rejected = refl
find-execution_status_value ExecutionStatus.skipped = refl
find-execution_status_value ExecutionStatus.failed = refl

instance abbrev pub execution_status_enum : StrEnum ExecutionStatus
execution_status_enum = record {
  members = execution_status_members;
  value = execution_status_value;
  find_lem = find-execution_status_value;
}

pub data ExecutionReason : Type 0 where
  unsupported_capability validation_error mode_conflict duplicate_intent protection_missing
        native_protection_unverified gateway_rejected :
      ExecutionReason

abbrev pub execution_reason_value : ExecutionReason → String
execution_reason_value ExecutionReason.unsupported_capability = "unsupported_capability"
execution_reason_value ExecutionReason.validation_error = "validation_error"
execution_reason_value ExecutionReason.mode_conflict = "mode_conflict"
execution_reason_value ExecutionReason.duplicate_intent = "duplicate_intent"
execution_reason_value ExecutionReason.protection_missing = "protection_missing"
execution_reason_value ExecutionReason.native_protection_unverified = "native_protection_unverified"
execution_reason_value ExecutionReason.gateway_rejected = "gateway_rejected"

abbrev pub execution_reason_members : List ExecutionReason
execution_reason_members =
    ExecutionReason.unsupported_capability ∷ ExecutionReason.validation_error
    ∷ ExecutionReason.mode_conflict ∷ ExecutionReason.duplicate_intent
    ∷ ExecutionReason.protection_missing ∷ ExecutionReason.native_protection_unverified
    ∷ ExecutionReason.gateway_rejected ∷ []

pub find-execution_reason_value :
    (e : ExecutionReason)
    → find_member execution_reason_value (execution_reason_value e) execution_reason_members ≡ ok e
unfolding find_member
find-execution_reason_value ExecutionReason.unsupported_capability = refl
find-execution_reason_value ExecutionReason.validation_error = refl
find-execution_reason_value ExecutionReason.mode_conflict = refl
find-execution_reason_value ExecutionReason.duplicate_intent = refl
find-execution_reason_value ExecutionReason.protection_missing = refl
find-execution_reason_value ExecutionReason.native_protection_unverified = refl
find-execution_reason_value ExecutionReason.gateway_rejected = refl

instance abbrev pub execution_reason_enum : StrEnum ExecutionReason
execution_reason_enum = record {
  members = execution_reason_members;
  value = execution_reason_value;
  find_lem = find-execution_reason_value;
}

pub data ExecutionEventType : Type 0 where
  order_submitted order_accepted order_filled order_canceled order_rejected protection_armed
        protection_triggered protection_replaced protection_missing reconcile_gap_detected :
      ExecutionEventType

abbrev pub execution_event_type_value : ExecutionEventType → String
execution_event_type_value ExecutionEventType.order_submitted = "order_submitted"
execution_event_type_value ExecutionEventType.order_accepted = "order_accepted"
execution_event_type_value ExecutionEventType.order_filled = "order_filled"
execution_event_type_value ExecutionEventType.order_canceled = "order_canceled"
execution_event_type_value ExecutionEventType.order_rejected = "order_rejected"
execution_event_type_value ExecutionEventType.protection_armed = "protection_armed"
execution_event_type_value ExecutionEventType.protection_triggered = "protection_triggered"
execution_event_type_value ExecutionEventType.protection_replaced = "protection_replaced"
execution_event_type_value ExecutionEventType.protection_missing = "protection_missing"
execution_event_type_value ExecutionEventType.reconcile_gap_detected = "reconcile_gap_detected"

abbrev pub execution_event_type_members : List ExecutionEventType
execution_event_type_members =
    ExecutionEventType.order_submitted ∷ ExecutionEventType.order_accepted
    ∷ ExecutionEventType.order_filled ∷ ExecutionEventType.order_canceled
    ∷ ExecutionEventType.order_rejected ∷ ExecutionEventType.protection_armed
    ∷ ExecutionEventType.protection_triggered ∷ ExecutionEventType.protection_replaced
    ∷ ExecutionEventType.protection_missing ∷ ExecutionEventType.reconcile_gap_detected ∷ []

pub find-execution_event_type_value :
    (e : ExecutionEventType)
    → find_member execution_event_type_value
        (execution_event_type_value e)
        execution_event_type_members
      ≡ ok e
unfolding find_member
find-execution_event_type_value ExecutionEventType.order_submitted = refl
find-execution_event_type_value ExecutionEventType.order_accepted = refl
find-execution_event_type_value ExecutionEventType.order_filled = refl
find-execution_event_type_value ExecutionEventType.order_canceled = refl
find-execution_event_type_value ExecutionEventType.order_rejected = refl
find-execution_event_type_value ExecutionEventType.protection_armed = refl
find-execution_event_type_value ExecutionEventType.protection_triggered = refl
find-execution_event_type_value ExecutionEventType.protection_replaced = refl
find-execution_event_type_value ExecutionEventType.protection_missing = refl
find-execution_event_type_value ExecutionEventType.reconcile_gap_detected = refl

instance abbrev pub execution_event_type_enum : StrEnum ExecutionEventType
execution_event_type_enum = record {
  members = execution_event_type_members;
  value = execution_event_type_value;
  find_lem = find-execution_event_type_value;
}

pub data GatewayCapability : Type 0 where
  market_entry market_close protective_stop take_profit_limit oco_protection breakeven_replacement
        cancel_order reconcile :
      GatewayCapability

abbrev pub gateway_capability_value : GatewayCapability → String
gateway_capability_value GatewayCapability.market_entry = "market_entry"
gateway_capability_value GatewayCapability.market_close = "market_close"
gateway_capability_value GatewayCapability.protective_stop = "protective_stop"
gateway_capability_value GatewayCapability.take_profit_limit = "take_profit_limit"
gateway_capability_value GatewayCapability.oco_protection = "oco_protection"
gateway_capability_value GatewayCapability.breakeven_replacement = "breakeven_replacement"
gateway_capability_value GatewayCapability.cancel_order = "cancel_order"
gateway_capability_value GatewayCapability.reconcile = "reconcile"

abbrev pub gateway_capability_members : List GatewayCapability
gateway_capability_members =
    GatewayCapability.market_entry ∷ GatewayCapability.market_close
    ∷ GatewayCapability.protective_stop ∷ GatewayCapability.take_profit_limit
    ∷ GatewayCapability.oco_protection ∷ GatewayCapability.breakeven_replacement
    ∷ GatewayCapability.cancel_order ∷ GatewayCapability.reconcile ∷ []

pub find-gateway_capability_value :
    (e : GatewayCapability)
    → find_member gateway_capability_value (gateway_capability_value e) gateway_capability_members
      ≡ ok e
unfolding find_member
find-gateway_capability_value GatewayCapability.market_entry = refl
find-gateway_capability_value GatewayCapability.market_close = refl
find-gateway_capability_value GatewayCapability.protective_stop = refl
find-gateway_capability_value GatewayCapability.take_profit_limit = refl
find-gateway_capability_value GatewayCapability.oco_protection = refl
find-gateway_capability_value GatewayCapability.breakeven_replacement = refl
find-gateway_capability_value GatewayCapability.cancel_order = refl
find-gateway_capability_value GatewayCapability.reconcile = refl

instance abbrev pub gateway_capability_enum : StrEnum GatewayCapability
gateway_capability_enum = record {
  members = gateway_capability_members;
  value = gateway_capability_value;
  find_lem = find-gateway_capability_value;
}
