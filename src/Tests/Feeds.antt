-- ===== src/Tests/Feeds.antt =====
-- The theorem on a live feed at a concrete sequence of updates.
use chainer_trader.Prelude.{◌≡◌, refl, ℕ, Bool, true, false, List, [], ◌∷◌}
use chainer_trader.Prelude.Int.{ℤ, pos}
use chainer_trader.Live.MarketData.{KlineUpdate, accepted, accept}
use chainer_trader.Live.MarketData.Ordered.{AreOrdered, accepted-AreOrdered}

abbrev update_at : ℕ → Bool → KlineUpdate ℤ
update_at t closed = record {
  exchange = "BINANCE";
  symbol = "BTCUSDT";
  interval = "1m";
  open_time = t;
  close_time = t;
  open_price = pos 1;
  high = pos 2;
  low = pos 1;
  close = pos 2;
  volume = pos 5;
  event_time = t;
  is_closed = closed;
  vol_quote = pos 0;
  trades = 0;
  vol_taker_base = pos 0;
  vol_taker_quote = pos 0;
  ignore = pos 0;
}

-- a late update after a close, and the close again
abbrev feed : List (KlineUpdate ℤ)
feed =
    update_at 60 false
    ∷ update_at 60 true
    ∷ update_at 0 true
    ∷ update_at 60 true
    ∷ update_at 120 false
    ∷ []

accepted_lem :
    accepted feed [] ≡ (update_at 60 false ∷ update_at 60 true ∷ update_at 120 false ∷ [])
unfolding accepted accept
accepted_lem = refl

accepted-AreOrdered_example : AreOrdered (accepted feed [])
accepted-AreOrdered_example = accepted-AreOrdered feed []
