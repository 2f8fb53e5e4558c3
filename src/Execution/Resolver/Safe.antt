-- ===== src/Execution/Resolver/Safe.antt =====
-- A resolved gateway submits orders only as the mode and the request allow.
use chainer_trader.Prelude.{
  Result, from_option, ◌≡◌, refl, ◌⊎◌, inl, inr, Bool, true, false, not, ◌||◌, Option, none, some,
  String, ok, arith, Returns, Returns-bind, Returns-ok, Returns-err, Returns-if, if◌then◌else◌, err,
}
use chainer_trader.Prelude.Float.{Float}
use chainer_trader.Execution.Kinds.{GatewayMode, gateway_mode_enum, gateway_mode_value}
use chainer_trader.Prelude.Text.{str_eq, str_eq_iff, lower, strip, is_empty}
use chainer_trader.Execution.Enums.{ValueError, normalize_enum, normalize_enum-exact}
use chainer_trader.Execution.Resolver.{
  lift_value_error, unsupported_mode, StagedMode, auto_trade, manual_notify,
  ResolvedExecutionGateway, same_gateway, resolve_mode, normalize_live_execution_mode,
  normalize_requested_gateway, resolve_execution_gateway,
}

abbrev is_auto : StagedMode → Bool
is_auto manual_notify = false
is_auto auto_trade = true

-- the texts of the modes
abbrev pub staged_value : StagedMode → String
staged_value manual_notify = "manual_notify"
staged_value auto_trade = "auto_trade"

-- the text of the setting of a mode, which is auto_trade where it is empty or missing
abbrev pub text_of : Option String → String
text_of none = "auto_trade"
text_of (some s) = if is_empty s then "auto_trade" else s

-- The gateway that a request names: none, a member, or a text that is a member's value.
abbrev pub Names : Option (GatewayMode ⊎ String) → Option GatewayMode → Type 0
Names none none = Unit
Names (some (inl g)) (some h) = g ≡ h
Names (some (inr s)) (some h) = gateway_mode_value h ≡ lower (strip s)
Names _ _ = ⊥

abbrev agrees : Option GatewayMode → GatewayMode → Bool
agrees none g = true
agrees (some r) g = same_gateway r g

mode_named :
    (t raw : String)
    → Returns
        (λ m. t ≡ staged_value m)
        (if str_eq t "manual_notify"
          then ok manual_notify
          else if str_eq t "auto_trade"
          then ok auto_trade
          else err (unsupported_mode raw))
mode_named t raw =
    Returns-if (str_eq t "manual_notify") (λ h. Returns-ok manual_notify ((str_eq_iff t _).0 h))
      λ _.
        Returns-if (str_eq t "auto_trade") (λ h. Returns-ok auto_trade ((str_eq_iff t _).0 h))
          λ _. Returns-err _

normalize_live_execution_mode-text :
    (mode : Option String)
    → Returns
        (λ m. lower (strip (text_of mode)) ≡ staged_value m)
        (normalize_live_execution_mode mode)
unfolding normalize_live_execution_mode
normalize_live_execution_mode-text none = Returns-ok auto_trade refl
normalize_live_execution_mode-text (some s) = mode_named (lower (strip (text_of (some s)))) s

lifted :
    {A : Type 0} {P : A → Type 0} (m : Result ValueError A)
    → Returns P m
    → Returns P (lift_value_error m)
lifted (ok a) h = Returns-ok a (h.at a refl)
lifted (err e) h = Returns-err _

normalize_requested_gateway-Names :
    (requested : Option (GatewayMode ⊎ String))
    → Returns (Names requested) (normalize_requested_gateway requested)
unfolding normalize_requested_gateway normalize_enum
normalize_requested_gateway-Names none = Returns-ok none tt
normalize_requested_gateway-Names (some (inl g)) = Returns-ok (some g) refl
normalize_requested_gateway-Names (some (inr s)) =
    Returns-bind
      (lifted (normalize_enum (inr (lower (strip s))))
        (record { at = λ g h. (normalize_enum-exact g (lower (strip s))).1.0 h }))
      λ g n. Returns-ok (some g) n

module _ {F : Type 0} ⦃fl : Float F⦄ where
  abbrev has_cap : Option F → Bool
  has_cap none = false
  has_cap (some x) = fl.lt fl.zero_f x

  -- the cap that the limit stands for in a mode
  abbrev pub cap_of : StagedMode → Option F → Option F
  cap_of manual_notify limit = none
  cap_of auto_trade limit =
      let x = from_option fl.zero_f limit in if fl.lt fl.zero_f x then some x else none

  pub record IsSafe (mode : Option String) (request : Option (GatewayMode ⊎ String))
      (limit : Option F) (r : ResolvedExecutionGateway F) : Type 0 where
    -- the mode, the gateway and the cap are those of the settings
    pub mode_is : lower (strip (text_of mode)) ≡ staged_value r.staged_execution_mode
    pub request_is : Names request r.requested_gateway
    pub cap_is : r.max_notional ≡ cap_of r.staged_execution_mode limit
    -- orders are submitted in auto_trade mode alone, and to the live exchange alone
    pub by_mode : r.can_submit_orders ≡ is_auto r.staged_execution_mode
    pub by_gateway : r.can_submit_orders ≡ same_gateway r.gateway_mode GatewayMode.binance_live
    -- the gateway is the one that was requested, if one was
    pub requested : agrees r.requested_gateway r.gateway_mode ≡ true
    -- a cap is required when there is a positive one, which takes a mode that submits
    pub capped : r.requires_live_order_cap ≡ has_cap r.max_notional
    pub capped_live : (not r.requires_live_order_cap || r.can_submit_orders) ≡ true

  resolve_mode-IsSafe :
      (mode : Option String) (request : Option (GatewayMode ⊎ String)) (m : StagedMode)
      (g : Option GatewayMode) (x : Option F)
      → lower (strip (text_of mode)) ≡ staged_value m
      → Names request g
      → Returns (IsSafe mode request x) (resolve_mode m g x)
  unfolding resolve_mode
  resolve_mode-IsSafe mode request manual_notify none x e n = Returns-ok _ (record {
    mode_is = e;
    request_is = n;
    cap_is = refl;
    by_mode = refl;
    by_gateway = refl;
    requested = refl;
    capped = refl;
    capped_live = refl;
  })
  resolve_mode-IsSafe mode request manual_notify (some g) x e n =
      Returns-if (same_gateway g GatewayMode.notification_only)
        (λ h. Returns-ok _ (record {
          mode_is = e;
          request_is = n;
          cap_is = refl;
          by_mode = refl;
          by_gateway = refl;
          requested = h;
          capped = refl;
          capped_live = refl;
        }))
        λ _. Returns-err _
  resolve_mode-IsSafe mode request auto_trade none x e n = Returns-ok _ (record {
    mode_is = e;
    request_is = n;
    cap_is = refl;
    by_mode = refl;
    by_gateway = refl;
    requested = refl;
    capped = ground arith;
    capped_live = ground arith;
  })
  resolve_mode-IsSafe mode request auto_trade (some g) x e n =
      Returns-if (same_gateway g GatewayMode.binance_live)
        (λ h. Returns-ok _ (record {
          mode_is = e;
          request_is = n;
          cap_is = refl;
          by_mode = refl;
          by_gateway = refl;
          requested = h;
          capped = ground arith;
          capped_live = ground arith;
        }))
        λ _. Returns-err _

module _ {F : Type 0} ⦃fl : Float F⦄ where
  resolve_execution_gateway-Returns :
      (mode : Option String) (requested : Option (GatewayMode ⊎ String)) (limit : Option F)
      → Returns (IsSafe mode requested limit) (resolve_execution_gateway mode requested limit)
  unfolding resolve_execution_gateway
  resolve_execution_gateway-Returns mode requested limit =
      Returns-bind (normalize_live_execution_mode-text mode) λ m e.
        Returns-bind (normalize_requested_gateway-Names requested)
          λ g n. resolve_mode-IsSafe mode requested m g limit e n

  -- Whatever the mode, the requested gateway and the cap, a resolved gateway has the mode that the
  -- setting names, the gateway that was requested, if one was, and the positive limit as its cap, in
  -- auto_trade mode alone. It submits orders exactly in auto_trade mode and exactly when it is the
  -- live exchange, is the gateway that was requested, and requires a cap exactly when it has one.
  pub resolve_execution_gateway-IsSafe :
      (mode : Option String) (requested : Option (GatewayMode ⊎ String)) (limit : Option F)
      {r : ResolvedExecutionGateway F}
      → resolve_execution_gateway mode requested limit ≡ ok r
      → IsSafe mode requested limit r
  resolve_execution_gateway-IsSafe mode requested limit h =
      (resolve_execution_gateway-Returns mode requested limit).at _ h
