-- ===== src/Database/Availability/Window.antt =====
-- What a market's row stands for, and what it is after any calls of the collection.
use Prim.Native.Nat.{ℕ, min, max}
use chainer_trader.Prelude.{
  ◌≡◌, Bool, true, false, Option, none, some, List, [], ◌∷◌, String, ok, leb, if◌then◌else◌, arith,
}
use chainer_trader.Prelude.Text.{str_eq_iff}
use chainer_trader.Database.Availability.{
  Key, key_eq, Availability, Table, with_earliest, earliest_of, lowest, range_of,
  update_earliest_known_open_time, update_cached_open_time_range,
}

-- A table of a migrated database that answers: what each query gives, by the rows of the table.
pub record TableLaws {T : Type 0} (db : Table T) : Type 0 where
  pub row : Key → T → Option Availability
  pub created : Key → Availability → T → T
  pub upserted : Key → ℕ → ℕ → String → T → T
  pub migrated : db.has_cached_fields ≡ true
  pub first_is : (k : Key) (t : T) → db.first k t ≡ ok (row k t)
  pub create_is :
      (k : Key) (r : Availability) (t : T) → row k t ≡ none → db.create k r t ≡ ok (created k r t)
  pub save_is :
      (k : Key) (r x : Availability) (t : T) → row k t ≡ some x → db.save k r t ≡ ok (created k r t)
  pub update_or_create_is :
      (k : Key) (n at : ℕ) (s : String) (t : T)
      → db.update_or_create k n at s t ≡ ok (upserted k n at s t)
  pub row-created :
      (k j : Key) (r : Availability) (t : T)
      → row j (created k r t) ≡ (if key_eq k j then some r else row j t)
  pub row-upserted :
      (k j : Key) (n at : ℕ) (s : String) (t : T)
      → row j (upserted k n at s t)
        ≡ (if key_eq k j then some (with_earliest n at s (row k t)) else row j t)

-- What is known of a market.
pub record Window : Type 0 where
  pub earliest : Option ℕ
  pub cached : Option (ℕ × ℕ)

abbrev pub hull : Option (ℕ × ℕ) → ℕ → ℕ → Option (ℕ × ℕ)
hull none a b = some (a, b)
hull (some (c, d)) a b = some (min c a, max d b)

-- The calls that change a market's row.
pub data Call : Type 0 where
  known_from : Key → ℕ → String → Call
  cached_range : Key → ℕ → ℕ → ℕ → String → Call

abbrev pub key_of : Call → Key
key_of (known_from k n s) = k
key_of (cached_range k a b now s) = k

-- What a call makes known of its market.
abbrev pub seen : Call → Window → Window
seen (known_from k n s) w = record w { earliest = some (lowest w.earliest n) }
seen (cached_range k a b now s) w = if leb a b then record w { cached = hull w.cached a b } else w

abbrev pub replay : Key → List Call → Window → Window
replay j [] w = w
replay j (c ∷ cs) w = replay j cs (if key_eq (key_of c) j then seen c w else w)

-- The two ends of a row's range are both there, in order, or both missing.
abbrev pub are_bounds : Option ℕ → Option ℕ → Bool
are_bounds none none = true
are_bounds (some a) (some b) = leb a b
are_bounds _ _ = false

abbrev pub has_bounds : Option Availability → Bool
has_bounds none = true
has_bounds (some r) = are_bounds r.cached_start_open_time r.cached_end_open_time

abbrev pub IsRow : Option Availability → Type 0
IsRow o = has_bounds o ≡ true

abbrev pub window_of : Option Availability → Window
window_of o = record { earliest = earliest_of o; cached = range_of o }

pub key_eq_iff : (a b : Key) → (key_eq a b ≡ true → a ≡ b) × (a ≡ b → key_eq a b ≡ true)
key_eq_iff a b = ground (
  arith,
  str_eq_iff a.exchange b.exchange,
  str_eq_iff a.symbol b.symbol,
  str_eq_iff a.interval b.interval,
)

module _ {T : Type 0} (db : Table T) where
  abbrev pub step : Call → T → T
  unfolding update_earliest_known_open_time update_cached_open_time_range
  step (known_from k n s) t = (update_earliest_known_open_time db k n s t).1
  step (cached_range k a b now s) t = (update_cached_open_time_range db k a b now s t).1

  abbrev pub run : List Call → T → T
  run [] t = t
  run (c ∷ cs) t = run cs (step c t)
