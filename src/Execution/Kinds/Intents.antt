-- ===== src/Execution/Kinds/Intents.antt =====
-- The enumerations of execution/models.py that intents are made of.
use chainer_trader.Prelude.{◌≡◌, refl, List, [], ◌∷◌, String, ok}
use chainer_trader.Execution.Enums.{StrEnum, find_member}

pub data GatewayMode : Type 0 where
  notification_only backtrader binance_live : GatewayMode

abbrev pub gateway_mode_value : GatewayMode → String
gateway_mode_value GatewayMode.notification_only = "notification_only"
gateway_mode_value GatewayMode.backtrader = "backtrader"
gateway_mode_value GatewayMode.binance_live = "binance_live"

abbrev pub gateway_mode_members : List GatewayMode
gateway_mode_members =
    GatewayMode.notification_only ∷ GatewayMode.backtrader ∷ GatewayMode.binance_live ∷ []

pub find-gateway_mode_value :
    (e : GatewayMode)
    → find_member gateway_mode_value (gateway_mode_value e) gateway_mode_members ≡ ok e
unfolding find_member
find-gateway_mode_value GatewayMode.notification_only = refl
find-gateway_mode_value GatewayMode.backtrader = refl
find-gateway_mode_value GatewayMode.binance_live = refl

instance abbrev pub gateway_mode_enum : StrEnum GatewayMode
gateway_mode_enum = record {
  members = gateway_mode_members;
  value = gateway_mode_value;
  find_lem = find-gateway_mode_value;
}

pub data ExecutionSide : Type 0 where
  long short : ExecutionSide

abbrev pub execution_side_value : ExecutionSide → String
execution_side_value ExecutionSide.long = "long"
execution_side_value ExecutionSide.short = "short"

abbrev pub execution_side_members : List ExecutionSide
execution_side_members = ExecutionSide.long ∷ ExecutionSide.short ∷ []

pub find-execution_side_value :
    (e : ExecutionSide)
    → find_member execution_side_value (execution_side_value e) execution_side_members ≡ ok e
unfolding find_member
find-execution_side_value ExecutionSide.long = refl
find-execution_side_value ExecutionSide.short = refl

instance abbrev pub execution_side_enum : StrEnum ExecutionSide
execution_side_enum = record {
  members = execution_side_members;
  value = execution_side_value;
  find_lem = find-execution_side_value;
}

pub data OrderIntentType : Type 0 where
  entry close cancel : OrderIntentType

abbrev pub order_intent_type_value : OrderIntentType → String
order_intent_type_value OrderIntentType.entry = "entry"
order_intent_type_value OrderIntentType.close = "close"
order_intent_type_value OrderIntentType.cancel = "cancel"

abbrev pub order_intent_type_members : List OrderIntentType
order_intent_type_members =
    OrderIntentType.entry ∷ OrderIntentType.close ∷ OrderIntentType.cancel ∷ []

pub find-order_intent_type_value :
    (e : OrderIntentType)
    → find_member order_intent_type_value (order_intent_type_value e) order_intent_type_members
      ≡ ok e
unfolding find_member
find-order_intent_type_value OrderIntentType.entry = refl
find-order_intent_type_value OrderIntentType.close = refl
find-order_intent_type_value OrderIntentType.cancel = refl

instance abbrev pub order_intent_type_enum : StrEnum OrderIntentType
order_intent_type_enum = record {
  members = order_intent_type_members;
  value = order_intent_type_value;
  find_lem = find-order_intent_type_value;
}

pub data ProtectionIntentType : Type 0 where
  stop_loss take_profit bracket replace_stop cancel : ProtectionIntentType

abbrev pub protection_intent_type_value : ProtectionIntentType → String
protection_intent_type_value ProtectionIntentType.stop_loss = "stop_loss"
protection_intent_type_value ProtectionIntentType.take_profit = "take_profit"
protection_intent_type_value ProtectionIntentType.bracket = "bracket"
protection_intent_type_value ProtectionIntentType.replace_stop = "replace_stop"
protection_intent_type_value ProtectionIntentType.cancel = "cancel"

abbrev pub protection_intent_type_members : List ProtectionIntentType
protection_intent_type_members =
    ProtectionIntentType.stop_loss ∷ ProtectionIntentType.take_profit ∷ ProtectionIntentType.bracket
    ∷ ProtectionIntentType.replace_stop ∷ ProtectionIntentType.cancel ∷ []

pub find-protection_intent_type_value :
    (e : ProtectionIntentType)
    → find_member protection_intent_type_value
        (protection_intent_type_value e)
        protection_intent_type_members
      ≡ ok e
unfolding find_member
find-protection_intent_type_value ProtectionIntentType.stop_loss = refl
find-protection_intent_type_value ProtectionIntentType.take_profit = refl
find-protection_intent_type_value ProtectionIntentType.bracket = refl
find-protection_intent_type_value ProtectionIntentType.replace_stop = refl
find-protection_intent_type_value ProtectionIntentType.cancel = refl

instance abbrev pub protection_intent_type_enum : StrEnum ProtectionIntentType
protection_intent_type_enum = record {
  members = protection_intent_type_members;
  value = protection_intent_type_value;
  find_lem = find-protection_intent_type_value;
}

pub data RiskIntentAction : Type 0 where
  place_protection replace_protection cancel_protection : RiskIntentAction

abbrev pub risk_intent_action_value : RiskIntentAction → String
risk_intent_action_value RiskIntentAction.place_protection = "place_protection"
risk_intent_action_value RiskIntentAction.replace_protection = "replace_protection"
risk_intent_action_value RiskIntentAction.cancel_protection = "cancel_protection"

abbrev pub risk_intent_action_members : List RiskIntentAction
risk_intent_action_members =
    RiskIntentAction.place_protection ∷ RiskIntentAction.replace_protection
    ∷ RiskIntentAction.cancel_protection ∷ []

pub find-risk_intent_action_value :
    (e : RiskIntentAction)
    → find_member risk_intent_action_value (risk_intent_action_value e) risk_intent_action_members
      ≡ ok e
unfolding find_member
find-risk_intent_action_value RiskIntentAction.place_protection = refl
find-risk_intent_action_value RiskIntentAction.replace_protection = refl
find-risk_intent_action_value RiskIntentAction.cancel_protection = refl

instance abbrev pub risk_intent_action_enum : StrEnum RiskIntentAction
risk_intent_action_enum = record {
  members = risk_intent_action_members;
  value = risk_intent_action_value;
  find_lem = find-risk_intent_action_value;
}
