-- ===== src/Live/MarketData/Ordered.antt =====
-- The order of the updates that a live feed accepts.
use Prim.Native.Nat.{ℕ}
use chainer_trader.Prelude.{
  ◌≡◌, refl, ap, Bool, true, false, not, ◌&&◌, ◌||◌, List, [], ◌∷◌, any, All, All-if, ltb, ◌==◌,
  if◌then◌else◌, arith,
}
use chainer_trader.Database.Availability.{Key, key_eq}
use chainer_trader.Database.Availability.Window.{key_eq_iff}
use chainer_trader.Live.MarketData.{
  KlineUpdate, Buffer, is_key_of, is_later, market, accept, accepted,
}

abbrev has : Key → ℕ → Buffer → Bool
has k t closed = any (λ e. key_eq e.0 k && e.1 == t) closed

module _ {F : Type 0} where
  -- an update of another market, or of a later kline
  abbrev pub is_after : Key → ℕ → KlineUpdate F → Bool
  is_after k t u = not (key_eq k (market u)) || ltb t u.open_time

  -- Once a kline of a market is closed, every later update of the market is of a later kline.
  abbrev pub AreOrdered : List (KlineUpdate F) → Type 0
  AreOrdered [] = Unit
  AreOrdered (u ∷ us) =
      All (λ v. (not u.is_closed || is_after (market u) u.open_time v) ≡ true) us × AreOrdered us

  -- A buffer with a closed kline refuses the updates that are not after it.
  refused :
      (k : Key) (t : ℕ) (u : KlineUpdate F) (closed : Buffer)
      → has k t closed ≡ true
      → is_after k t u ≡ false
      → any (is_key_of u) closed || any (is_later u) closed ≡ true
  refused k t u [] h e = ground arith
  refused k t u ((j, s) ∷ closed) h e =
      ground (arith, refused k t u closed, key_eq_iff j k, ap (λ x. key_eq x (market u)))

  -- an update that is accepted is after what is closed, and what is closed stays
  accepted_after :
      (k : Key) (t : ℕ) (u : KlineUpdate F) (closed : Buffer)
      → has k t closed ≡ true
      → ((not (accept u closed).0 || is_after k t u) ≡ true) × (has k t (accept u closed).1 ≡ true)
  unfolding accept
  accepted_after k t u closed h = ground (arith, refused k t u closed h, key_eq_iff (market u) k)

  later_updates :
      (k : Key) (t : ℕ) (us : List (KlineUpdate F)) (closed : Buffer)
      → has k t closed ≡ true
      → All (λ v. is_after k t v ≡ true) (accepted us closed)
  unfolding accepted
  later_updates k t [] closed h = tt
  later_updates k t (u ∷ us) closed h =
      let kept = accepted_after k t u closed h in
      let later = later_updates k t us (accept u closed).1 kept.1 in
      All-if (λ v. is_after k t v ≡ true) (accept u closed).0 (u ∷ accepted us (accept u closed).1)
        (accepted us (accept u closed).1) (λ e. (ground arith, later)) (λ e. later)

  All-always :
      {P : KlineUpdate F → Type 0} (us : List (KlineUpdate F))
      → ((u : KlineUpdate F) → P u)
      → All P us
  All-always [] h = tt
  All-always (u ∷ us) h = (h u, All-always us h)

  if_closed :
      (c : Bool) (k : Key) (t : ℕ) (us : List (KlineUpdate F))
      → (c ≡ true → All (λ v. is_after k t v ≡ true) us)
      → All (λ v. (not c || is_after k t v) ≡ true) us
  if_closed true k t us h = h refl
  if_closed false k t us h = All-always us λ v. refl

  -- the close of an accepted update is kept
  closed_kept :
      (u : KlineUpdate F) (closed : Buffer)
      → (accept u closed).0 ≡ true
      → u.is_closed ≡ true
      → has (market u) u.open_time (accept u closed).1 ≡ true
  unfolding accept
  closed_kept u closed e c = ground (arith, key_eq_iff (market u) (market u))

  ordered_if :
      (b : Bool) (us vs : List (KlineUpdate F))
      → (b ≡ true → AreOrdered us)
      → (b ≡ false → AreOrdered vs)
      → AreOrdered (if b then us else vs)
  ordered_if true us vs h k = h refl
  ordered_if false us vs h k = k refl

  -- Of the updates that a feed accepts, no update of a market comes after the close of a kline of
  -- the market that is not earlier than the update's kline: no close is taken twice, and none undone.
  pub accepted-AreOrdered :
      (us : List (KlineUpdate F)) (closed : Buffer) → AreOrdered (accepted us closed)
  unfolding accepted
  accepted-AreOrdered [] closed = tt
  accepted-AreOrdered (u ∷ us) closed =
      let closed' = (accept u closed).1 in
      let rest = accepted-AreOrdered us closed' in
      ordered_if (accept u closed).0 (u ∷ accepted us closed') (accepted us closed')
        (λ e. (
          if_closed u.is_closed (market u) u.open_time (accepted us closed')
              (λ c. later_updates (market u) u.open_time us closed' (closed_kept u closed e c)),
          rest,
        ))
        (λ e. rest)
