-- ===== src/Strategy/Router/Answered.antt =====
-- The actions of `SignalRouter.route` on each of the two signals.
use chainer_trader.Prelude.{
  ◌≡◌, refl, ap, sym, subst, ◌∙◌, ◌+◌, ◌*◌, inl, inr, Bool, true, false, not, ◌&&◌, none, List, [],
  ◌∷◌, ◌++◌, String, length, keep, All, Bool-cases, if◌then◌else◌,
}
use chainer_trader.Prelude.Float.{Float}
use chainer_trader.Prelude.Text.{str_eq, str_eq_iff}
use chainer_trader.Execution.Payload.{Fields}
use chainer_trader.Strategy.Context.{SignalSnapshot}
use chainer_trader.Strategy.Router.{
  Mode, mode_of, SignalRouteActionType, SignalRouteAction, SignalRoutingState, is_free, detections,
  against_mode, entry_actions, route_mode, route, action, active_trade_payload,
}
use chainer_trader.Strategy.Router.Modes.{Sound, route-Sound, one_if, length-route}

abbrev pub is_decision : SignalRouteActionType → Bool
is_decision SignalRouteActionType.detected = false
is_decision _ = true

abbrev IsDetection : SignalRouteActionType → Type 0
IsDetection t = t ≡ SignalRouteActionType.detected

abbrev IsDecision : SignalRouteActionType → Type 0
IsDecision t = is_decision t ≡ true

choice :
    {A : Type 0} (P : A → Type 0) (b : Bool) (x y : A)
    → (b ≡ true → P x)
    → (b ≡ false → P y)
    → P (if b then x else y)
choice P true x y h k = h refl
choice P false x y h k = k refl

module _ {F : Type 0} where
  -- the actions of a direction
  abbrev pub about : String → List (SignalRouteAction F) → List (SignalRouteAction F)
  about d xs = keep (λ a. str_eq a.direction d) xs

  -- The answers to a signal of a direction: none if it is not set, and otherwise its detection and
  -- one decision, with its context.
  abbrev pub AreAnswers : Bool → Fields F → List (SignalRouteAction F) → Type 0
  AreAnswers false c xs = xs ≡ []
  AreAnswers true c (a ∷ b ∷ []) =
      (a.action_type ≡ SignalRouteActionType.detected)
      × (is_decision b.action_type ≡ true)
      × (a.context ≡ c)
      × (b.context ≡ c)
  AreAnswers true c _ = ⊥

  -- an action, if the signal is set
  abbrev AreOne :
      (SignalRouteActionType → Type 0)
      → Bool
      → String
      → Fields F
      → List (SignalRouteAction F)
      → Type 0
  AreOne K false d c xs = xs ≡ []
  AreOne K true d c xs =
      (a : SignalRouteAction F) × (xs ≡ a ∷ [])
      × (a.direction ≡ d)
      × K a.action_type
      × (a.context ≡ c)

  about-append :
      (d : String) (xs ys : List (SignalRouteAction F))
      → about d (xs ++ ys) ≡ about d xs ++ about d ys
  about-append d [] ys = refl
  about-append d (x ∷ xs) ys = elim (Bool-cases (str_eq x.direction d)) [
    | inl kept ↦ rw kept (ap (λ zs. x ∷ zs) (about-append d xs ys))
    | inr left ↦ rw left (about-append d xs ys)
  ]

  append_nil : (xs : List (SignalRouteAction F)) → xs ++ [] ≡ xs
  append_nil [] = refl
  append_nil (x ∷ xs) = ap (λ zs. x ∷ zs) (append_nil xs)

  about_same :
      (K : SignalRouteActionType → Type 0) (signal : Bool) (d : String) (c : Fields F)
      (xs : List (SignalRouteAction F))
      → AreOne K signal d c xs
      → about d xs ≡ xs
  about_same K false d c xs h = rw h refl
  about_same K true d c xs (a, e, same, k, context) = rw (e, (str_eq_iff a.direction d).1 same) refl

  about_other :
      (K : SignalRouteActionType → Type 0) (signal : Bool) (d e : String) (c : Fields F)
      (xs : List (SignalRouteAction F))
      → str_eq e d ≡ false
      → AreOne K signal e c xs
      → about d xs ≡ []
  about_other K false d e c xs other h = rw h refl
  about_other K true d e c xs other (a, is, same, k, context) = rw (is, same, other) refl

  -- of two lists about two directions, the first, and the second
  about_first :
      (K : SignalRouteActionType → Type 0) (p q : Bool) (d e : String) (b c : Fields F)
      (xs ys : List (SignalRouteAction F))
      → str_eq e d ≡ false
      → AreOne K p d b xs
      → AreOne K q e c ys
      → about d (xs ++ ys) ≡ xs
  about_first K p q d e b c xs ys other h k =
      about-append d xs ys
      ∙ (rw (about_same K p d b xs h, about_other K q d e c ys other k) (append_nil xs))

  about_second :
      (K : SignalRouteActionType → Type 0) (p q : Bool) (d e : String) (b c : Fields F)
      (xs ys : List (SignalRouteAction F))
      → str_eq e d ≡ false
      → AreOne K p d b xs
      → AreOne K q e c ys
      → about d (ys ++ xs) ≡ xs
  about_second K p q d e b c xs ys other h k =
      about-append d ys xs ∙ (rw (about_same K p d b xs h, about_other K q d e c ys other k) refl)

  answers :
      (signal : Bool) (d : String) (c : Fields F) (ds xs : List (SignalRouteAction F))
      → AreOne IsDetection signal d c ds
      → AreOne IsDecision signal d c xs
      → AreAnswers signal c (ds ++ xs)
  answers false d c ds xs h k = rw (h, k) refl
  answers true d c ds xs (a, e, da, ka, ca) (b, f, db, kb, cb) = rw (e, f) (ka, kb, ca, cb)

  detection-AreOne :
      (signal : Bool) (d : String) (c : Fields F)
      → AreOne IsDetection signal d c
          (if signal then action SignalRouteActionType.detected d c none ∷ [] else [])
  detection-AreOne true d c = (_, refl, refl, refl, refl)
  detection-AreOne false d c = refl

  against_mode-AreOne :
      (signal holds : Bool) (d : String) (c : Fields F) (detail : String)
      → AreOne IsDecision signal d c (against_mode signal holds d c detail)
  unfolding against_mode
  against_mode-AreOne false holds d c detail = refl
  against_mode-AreOne true true d c detail = (_, refl, refl, refl, refl)
  against_mode-AreOne true false d c detail = (_, refl, refl, refl, refl)

module _ {F O : Type 0} where
  entry_actions-AreOne :
      (signal : Bool) (d : String) (c : Fields F) (state : SignalRoutingState F O)
      → AreOne IsDecision signal d c (entry_actions signal d c state)
  unfolding entry_actions active_trade_payload
  entry_actions-AreOne false d c state = refl
  entry_actions-AreOne true d c state =
      let P = AreOne IsDecision true d c in
      choice P (is_free state.active_trade && state.can_open_new_position) _ _
        (λ _. (_, refl, refl, refl, refl))
        λ _.
          choice P (not (is_free state.active_trade)) _ _
            (λ _.
              choice P state.can_open_new_position _ _ (λ _. (_, refl, refl, refl, refl))
                λ _. (_, refl, refl, refl, refl))
            λ _. (_, refl, refl, refl, refl)

module _ {F : Type 0} where
  -- the actions about each direction, of the detections and of the decisions
  detections-about :
      (s : SignalSnapshot F)
      → (about "LONG" (detections s) ≡ (
          if s.long_signal
          then action SignalRouteActionType.detected "LONG" s.long_context none ∷ []
          else []))
        × (about "SHORT" (detections s) ≡ (
            if s.short_signal
            then action SignalRouteActionType.detected "SHORT" s.short_context none ∷ []
            else []))
  unfolding detections
  detections-about s =
      let long = detection-AreOne s.long_signal "LONG" s.long_context in
      let short = detection-AreOne s.short_signal "SHORT" s.short_context in
      (
        about_first IsDetection s.long_signal s.short_signal "LONG" "SHORT" _ _ _ _ refl long short,
        about_second IsDetection s.short_signal s.long_signal "SHORT" "LONG" _ _ _ _ refl short
            long,
      )

  -- What the decisions are about: each direction's list is one decision on its signal.
  record AreDecided (s : SignalSnapshot F) (xs : List (SignalRouteAction F)) : Type 0 where
    long_is : AreOne IsDecision s.long_signal "LONG" s.long_context (about "LONG" xs)
    short_is : AreOne IsDecision s.short_signal "SHORT" s.short_context (about "SHORT" xs)

  long_first :
      (s : SignalSnapshot F) (xs ys : List (SignalRouteAction F))
      → AreOne IsDecision s.long_signal "LONG" s.long_context xs
      → AreOne IsDecision s.short_signal "SHORT" s.short_context ys
      → AreDecided s (xs ++ ys)
  long_first s xs ys h k = record {
    long_is =
        subst (λ zs. AreOne IsDecision s.long_signal "LONG" s.long_context zs)
          (sym
            (about_first IsDecision s.long_signal s.short_signal "LONG" "SHORT" _ _ xs ys refl h k))
          h;
    short_is =
        subst (λ zs. AreOne IsDecision s.short_signal "SHORT" s.short_context zs)
          (sym (
            about_second IsDecision s.short_signal s.long_signal "SHORT" "LONG" _ _ ys xs refl k h))
          k;
  }

  short_first :
      (s : SignalSnapshot F) (xs ys : List (SignalRouteAction F))
      → AreOne IsDecision s.long_signal "LONG" s.long_context xs
      → AreOne IsDecision s.short_signal "SHORT" s.short_context ys
      → AreDecided s (ys ++ xs)
  short_first s xs ys h k = record {
    long_is =
        subst (λ zs. AreOne IsDecision s.long_signal "LONG" s.long_context zs)
          (sym (
            about_second IsDecision s.long_signal s.short_signal "LONG" "SHORT" _ _ xs ys refl h k))
          h;
    short_is =
        subst (λ zs. AreOne IsDecision s.short_signal "SHORT" s.short_context zs)
          (sym
            (about_first IsDecision s.short_signal s.long_signal "SHORT" "LONG" _ _ ys xs refl k h))
          k;
  }

  answered :
      (d : String) (signal : Bool) (c : Fields F) (ds xs : List (SignalRouteAction F))
      → about d ds ≡ (if signal then action SignalRouteActionType.detected d c none ∷ [] else [])
      → AreOne IsDecision signal d c (about d xs)
      → AreAnswers signal c (about d (ds ++ xs))
  answered d signal c ds xs e h =
      rw (about-append d ds xs, e)
        (answers signal d c _ (about d xs) (detection-AreOne signal d c) h)

module _ {F O : Type 0} ⦃fl : Float F⦄ where
  route_mode-AreDecided :
      (m : Mode) (s : SignalSnapshot F) (state : SignalRoutingState F O)
      → AreDecided s (route_mode m s state)
  unfolding route_mode
  route_mode-AreDecided Mode.long_only s state =
      long_first s _ _ (entry_actions-AreOne s.long_signal "LONG" s.long_context state)
        (against_mode-AreOne s.short_signal _ "SHORT" s.short_context _)
  route_mode-AreDecided Mode.short_only s state =
      short_first s _ _ (against_mode-AreOne s.long_signal _ "LONG" s.long_context _)
        (entry_actions-AreOne s.short_signal "SHORT" s.short_context state)
  route_mode-AreDecided Mode.both s state =
      long_first s _ _ (entry_actions-AreOne s.long_signal "LONG" s.long_context state)
        (entry_actions-AreOne s.short_signal "SHORT" s.short_context state)

  -- In every mode and state, the actions of `route` of each direction are the answers to its signal:
  -- if it is set, its detection and then one decision on it, both with the signal's context, and
  -- otherwise none. There are no other actions. Every action fits the mode and the state. A position is
  -- opened, by an entry or by a replacement, only on the side of the mode and when new positions may be
  -- opened; an entry needs that no trade is open, a replacement that one is; an exit needs an active
  -- trade and a position on the mode's side, and is never taken in the mode BOTH.
  pub route_decided :
      (s : SignalSnapshot F) (state : SignalRoutingState F O)
      → AreAnswers s.long_signal s.long_context (about "LONG" (route s state))
        × AreAnswers s.short_signal s.short_context (about "SHORT" (route s state))
        × (length (route s state) ≡ 2 * (one_if s.long_signal + one_if s.short_signal))
        × All (Sound (mode_of state.mode) state) (route s state)
  route_decided s state =
      let decided = route_mode-AreDecided (mode_of state.mode) s state in
      (
        unfold route in
            answered "LONG" s.long_signal s.long_context (detections s)
              (route_mode (mode_of state.mode) s state) (detections-about s).0 decided.long_is,
        unfold route in
            answered "SHORT" s.short_signal s.short_context (detections s)
              (route_mode (mode_of state.mode) s state) (detections-about s).1 decided.short_is,
        length-route s state,
        route-Sound s state,
      )
