-- ===== src/Strategy/Router/Modes.antt =====
-- Which actions `SignalRouter.route` takes in which mode and state, and how many.
use chainer_trader.Prelude.{
  ◌≡◌, refl, ℕ, ◌+◌, ◌*◌, Bool, true, false, not, ◌&&◌, ◌||◌, String, arith, length, length-append,
  All, All-append, All-if,
}
use chainer_trader.Prelude.Float.{Float}
use chainer_trader.Prelude.Text.{str_eq}
use chainer_trader.Execution.Payload.{Fields}
use chainer_trader.Strategy.Context.{SignalSnapshot}
use chainer_trader.Strategy.Router.{
  Mode, mode_of, SignalRouteActionType, SignalRouteAction, SignalRoutingState, is_free, has_active,
  active_trade_payload, detections, against_mode, entry_actions, route_mode, route,
}

-- whether an action opens a position
abbrev opens : SignalRouteActionType → Bool
opens SignalRouteActionType.enter = true
opens SignalRouteActionType.replace = true
opens _ = false

-- whether a mode lets positions of a direction be opened
abbrev allows : Mode → String → Bool
allows Mode.long_only d = str_eq d "LONG"
allows Mode.short_only d = str_eq d "SHORT"
allows Mode.both d = true

module _ {F O : Type 0} ⦃fl : Float F⦄ where
  -- what a state must be like for an action, and a mode for its direction
  abbrev fits : Mode → SignalRoutingState F O → SignalRouteActionType → Bool
  fits m state SignalRouteActionType.detected = true
  fits m state SignalRouteActionType.blocked = true
  fits m state SignalRouteActionType.enter =
      is_free state.active_trade && state.can_open_new_position
  fits m state SignalRouteActionType.replace =
      not (is_free state.active_trade) && state.can_open_new_position
  fits Mode.long_only state SignalRouteActionType.exit =
      has_active state.active_trade && fl.lt fl.zero_f state.position_size
  fits Mode.short_only state SignalRouteActionType.exit =
      has_active state.active_trade && fl.lt state.position_size fl.zero_f
  fits Mode.both state SignalRouteActionType.exit = false

  abbrev pub Sound : Mode → SignalRoutingState F O → SignalRouteAction F → Type 0
  Sound m state a =
      (not (opens a.action_type) || allows m a.direction ≡ true)
      × (fits m state a.action_type ≡ true)

  detections-Sound :
      (m : Mode) (s : SignalSnapshot F) (state : SignalRoutingState F O)
      → All (Sound m state) (detections s)
  unfolding detections
  detections-Sound m s state =
      All-append (Sound m state) _ _
        (All-if (Sound m state) s.long_signal _ _ (λ h. ((refl, refl), tt)) λ h. tt)
        (All-if (Sound m state) s.short_signal _ _ (λ h. ((refl, refl), tt)) λ h. tt)

  entry_actions-Sound :
      (m : Mode) (signal : Bool) (d : String) (c : Fields F) (state : SignalRoutingState F O)
      → allows m d ≡ true
      → All (Sound m state) (entry_actions signal d c state)
  unfolding entry_actions active_trade_payload
  entry_actions-Sound m signal d c state h =
      All-if (Sound m state) (not signal) _ _ (λ a. tt)
        λ a.
          All-if (Sound m state) (is_free state.active_trade && state.can_open_new_position) _ _
            (λ b. ((h, b), tt))
            λ b.
              All-if (Sound m state) (not (is_free state.active_trade)) _ _
                (λ e.
                  All-if (Sound m state) state.can_open_new_position _ _
                    (λ f. ((h, ground (arith, e, f)), tt)) λ f. ((refl, refl), tt))
                λ e. ((refl, refl), tt)

  against_mode-Sound :
      (m : Mode) (signal holds : Bool) (d : String) (c : Fields F) (detail : String)
      (state : SignalRoutingState F O)
      → fits m state SignalRouteActionType.exit ≡ holds
      → All (Sound m state) (against_mode signal holds d c detail)
  unfolding against_mode
  against_mode-Sound m signal holds d c detail state h =
      All-if (Sound m state) (signal && holds) _ _ (λ a. ((refl, ground (arith, h, a)), tt))
        λ a. All-if (Sound m state) signal _ _ (λ b. ((refl, refl), tt)) λ b. tt

  route_mode-Sound :
      (m : Mode) (s : SignalSnapshot F) (state : SignalRoutingState F O)
      → All (Sound m state) (route_mode m s state)
  unfolding route_mode
  route_mode-Sound Mode.long_only s state =
      All-append (Sound Mode.long_only state) _ _
        (entry_actions-Sound Mode.long_only s.long_signal "LONG" s.long_context state refl)
        (against_mode-Sound Mode.long_only s.short_signal _ "SHORT" s.short_context _ state refl)
  route_mode-Sound Mode.short_only s state =
      All-append (Sound Mode.short_only state) _ _
        (entry_actions-Sound Mode.short_only s.short_signal "SHORT" s.short_context state refl)
        (against_mode-Sound Mode.short_only s.long_signal _ "LONG" s.long_context _ state refl)
  route_mode-Sound Mode.both s state =
      All-append (Sound Mode.both state) _ _
        (entry_actions-Sound Mode.both s.long_signal "LONG" s.long_context state refl)
        (entry_actions-Sound Mode.both s.short_signal "SHORT" s.short_context state refl)

  pub route-Sound :
      (s : SignalSnapshot F) (state : SignalRoutingState F O)
      → All (Sound (mode_of state.mode) state) (route s state)
  unfolding route
  route-Sound s state =
      All-append (Sound (mode_of state.mode) state) _ _
        (detections-Sound (mode_of state.mode) s state)
        (route_mode-Sound (mode_of state.mode) s state)

-- A list with an element for each signal that is set.
abbrev pub one_if : Bool → ℕ
one_if true = 1
one_if false = 0

module _ {F : Type 0} where
  length-against_mode :
      (signal holds : Bool) (d : String) (c : Fields F) (detail : String)
      → length (against_mode signal holds d c detail) ≡ one_if signal
  unfolding against_mode
  length-against_mode signal holds d c detail = ground arith

  length-detections :
      (s : SignalSnapshot F) → length (detections s) ≡ one_if s.long_signal + one_if s.short_signal
  unfolding detections
  length-detections s = ground arith

module _ {F O : Type 0} where
  length-entry_actions :
      (signal : Bool) (d : String) (c : Fields F) (state : SignalRoutingState F O)
      → length (entry_actions signal d c state) ≡ one_if signal
  unfolding entry_actions active_trade_payload
  length-entry_actions signal d c state = ground arith

module _ {F O : Type 0} ⦃fl : Float F⦄ where
  length-route_mode :
      (m : Mode) (s : SignalSnapshot F) (state : SignalRoutingState F O)
      → length (route_mode m s state) ≡ one_if s.long_signal + one_if s.short_signal
  unfolding route_mode
  length-route_mode Mode.long_only s state =
      rw (length-append, length-entry_actions s.long_signal, length-against_mode s.short_signal)
        refl
  length-route_mode Mode.short_only s state =
      rw (length-append, length-entry_actions s.short_signal, length-against_mode s.long_signal)
        (omega arith)
  length-route_mode Mode.both s state =
      rw (length-append, length-entry_actions s.long_signal, length-entry_actions s.short_signal)
        refl

  pub length-route :
      (s : SignalSnapshot F) (state : SignalRoutingState F O)
      → length (route s state) ≡ 2 * (one_if s.long_signal + one_if s.short_signal)
  unfolding route
  length-route s state =
      rw (length-append, length-detections s, length-route_mode (mode_of state.mode) s state)
        (omega arith)
