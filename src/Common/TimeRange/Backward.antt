-- ===== src/Common/TimeRange/Backward.antt =====
-- Where a backward shift of a date leads: to a date of the calendar that is not later.
use Prim.Native.Nat.{ℕ, zero, suc, ◌+◌, ◌-◌, ◌*◌, ◌≤◌, ◌<◌}
use Prim.Native.String.{String}
use chainer_trader.Prelude.{
  ◌≡◌, refl, leb, arith, Returns, Returns-bind, Returns-ok, Returns-if, Returns-err, Returns-map,
  ◌∙◌, ap,
}
use chainer_trader.Prelude.Int.{
  ℤ, pos, negsuc, ◌+ℤ◌, ◌*ℤ◌, pos_part, neg_part, +ℤ_parts, floor_div, floor_mod,
}
use chainer_trader.Common.TimeRange.{
  Datetime, shift_months, previous_day, forward, backward, add_days, add_hours, offset_time,
  offset_time_backward, neg_abs,
}
use chainer_trader.Prelude.Text.{str_eq, lower}
use chainer_trader.Common.TimeRange.Months.{
  IsDate, days_in_month_bounds, days_in_month_last, month_count, shift_months-IsShifted,
}

-- Hours since the start of year 0, were every month one of 32 days.
abbrev pub time_key : Datetime → ℕ
time_key d = (month_count d * 32 + d.day) * 24 + d.hour

-- A date that is not later than another.
pub record IsNotLater (d e : Datetime) : Type 0 where
  pub valid : IsDate e
  pub not_later : time_key e ≤ time_key d

-- A date that is some days before another, at the same hour.
record IsBefore (n : ℕ) (d e : Datetime) : Type 0 where
  valid : IsDate e
  hour_is : e.hour ≡ d.hour
  before : time_key e + n * 24 ≤ time_key d

previous_day-IsBefore : (d : Datetime) → IsDate d → Returns (IsBefore 1 d) (previous_day d)
unfolding previous_day
previous_day-IsBefore d v =
    let last = days_in_month_last (d.year - 1) in
    let here = days_in_month_bounds d.year d.month in
    let there = days_in_month_bounds d.year (d.month - 1) in
    Returns-if (leb 2 d.day)
      (λ p. Returns-ok _ (record {
        valid = record {
          year_from = v.year_from;
          year_to = v.year_to;
          month_from = v.month_from;
          month_to = v.month_to;
          day_from = ground arith;
          day_to = ground arith;
          hour_to = v.hour_to;
        };
        hour_is = refl;
        before = ground arith;
      }))
      λ p.
        Returns-if (leb 2 d.month)
          (λ q. Returns-ok _ (record {
            valid = record {
              year_from = v.year_from;
              year_to = v.year_to;
              month_from = ground arith;
              month_to = ground arith;
              day_from = ground arith;
              day_to = ground arith;
              hour_to = v.hour_to;
            };
            hour_is = refl;
            before = ground arith;
          }))
          λ q.
            Returns-if (leb 2 d.year)
              (λ r. Returns-ok _ (record {
                valid = record {
                  year_from = ground arith;
                  year_to = ground arith;
                  month_from = ground arith;
                  month_to = ground arith;
                  day_from = ground arith;
                  day_to = ground arith;
                  hour_to = v.hour_to;
                };
                hour_is = refl;
                before = ground arith;
              }))
              λ r. Returns-err _

backward-IsBefore : (n : ℕ) (d : Datetime) → IsDate d → Returns (IsBefore n d) (backward n d)
unfolding backward
backward-IsBefore zero d v =
    Returns-ok d (record { valid = v; hour_is = refl; before = omega arith })
backward-IsBefore (suc n) d v = Returns-bind (previous_day-IsBefore d v) λ e b.
    Returns-map
      (λ f c. record {
        valid = c.valid;
        hour_is = c.hour_is ∙ b.hour_is;
        before = omega (arith, b.before, c.before);
      })
      (backward-IsBefore n e b.valid)

-- a shift that does not lead forward
abbrev IsBackward : ℤ → Type 0
IsBackward n = pos_part n ≡ 0

-- A date that is not later than another by some days, less than a day apart.
record IsDaysBack (n : ℕ) (d e : Datetime) : Type 0 where
  valid : IsDate e
  days_back : time_key e + n * 24 ≤ time_key d

add_days-IsDaysBack :
    (d : Datetime) (n : ℤ)
    → IsBackward n
    → IsDate d
    → Returns (IsDaysBack (neg_part n) d) (add_days d n)
unfolding add_days forward
add_days-IsDaysBack d (pos zero) h v = Returns-ok d (record { valid = v; days_back = omega arith })
add_days-IsDaysBack d (pos (suc n)) h v = ground arith
add_days-IsDaysBack d (negsuc n) h v =
    Returns-map (λ e b. record { valid = b.valid; days_back = b.before })
      (backward-IsBefore (suc n) d v)

add_days-IsNotLater :
    (d : Datetime) (n : ℤ) → IsBackward n → IsDate d → Returns (IsNotLater d) (add_days d n)
add_days-IsNotLater d n h v =
    Returns-map (λ e b. record { valid = b.valid; not_later = omega (arith, b.days_back) })
      (add_days-IsDaysBack d n h v)

-- The hour, and the days that are carried from it.
carry :
    (t : ℤ) (h : ℕ)
    → pos_part t ≤ h
    → h < 24
    → IsBackward (floor_div 24 t)
      × (floor_mod 24 t ≤ h + neg_part (floor_div 24 t) * 24)
      × (floor_mod 24 t < 24)
carry (pos n) h p q = (omega arith, omega arith, omega arith)
carry (negsuc n) h p q = (omega arith, omega arith, omega arith)

add_hours-IsNotLater :
    (d : Datetime) (n : ℤ) → IsBackward n → IsDate d → Returns (IsNotLater d) (add_hours d n)
unfolding add_hours ◌+ℤ◌
add_hours-IsNotLater d n h v =
    let t = pos d.hour +ℤ n in
    let c = carry t d.hour (ground arith) v.hour_to in
    Returns-map (λ e b. record { valid = b.valid; not_later = omega (arith, b.days_back, c.1) })
      (add_days-IsDaysBack (record d { hour = floor_mod 24 t }) (floor_div 24 t) c.0
        (record {
          year_from = v.year_from;
          year_to = v.year_to;
          month_from = v.month_from;
          month_to = v.month_to;
          day_from = v.day_from;
          day_to = v.day_to;
          hour_to = c.2;
        }))

month_count_back :
    (d e : Datetime) (n : ℤ)
    → IsBackward n
    → pos (month_count e) ≡ pos (month_count d) +ℤ n
    → month_count e ≤ month_count d
month_count_back d e n h s =
    omega (arith, ap pos_part s, ap neg_part s, +ℤ_parts (pos (month_count d)) n)

shift_months-IsNotLater :
    (d : Datetime) (n : ℤ) → IsBackward n → IsDate d → Returns (IsNotLater d) (shift_months d n)
shift_months-IsNotLater d n h v =
    Returns-map
      (λ e s. record {
        valid = s.valid;
        not_later =
            let fewer = month_count_back d e n h s.months_gone in
            let bound = days_in_month_bounds e.year e.month in
            ground (arith, s.day_kept, s.hour_kept, v.hour_to);
      })
      (shift_months-IsShifted d n v).0

neg_abs-IsBackward : (n : ℤ) → IsBackward (neg_abs n)
neg_abs-IsBackward (pos zero) = refl
neg_abs-IsBackward (pos (suc n)) = refl
neg_abs-IsBackward (negsuc n) = refl

times-IsBackward : (n : ℤ) (k : ℕ) → IsBackward n → IsBackward (n *ℤ pos k)
unfolding ◌*ℤ◌
times-IsBackward n k h = ground arith

-- A backward shift gives a date of the calendar that is not later than the given one, or an error.
pub offset_time_backward-IsNotLater :
    (d : Datetime) (n : ℤ) (unit : String)
    → IsDate d
    → Returns (IsNotLater d) (offset_time_backward d n unit)
unfolding offset_time_backward offset_time
offset_time_backward-IsNotLater d n unit v =
    let m = neg_abs n in
    let h = neg_abs-IsBackward n in
    let u = lower unit in
    Returns-if (str_eq u "y")
      (λ _. shift_months-IsNotLater d (m *ℤ pos 12) (times-IsBackward m 12 h) v)
      λ _.
        Returns-if (str_eq u "m") (λ _. shift_months-IsNotLater d m h v)
          λ _.
            Returns-if (str_eq u "w")
              (λ _. add_days-IsNotLater d (m *ℤ pos 7) (times-IsBackward m 7 h) v)
              λ _.
                Returns-if (str_eq u "d") (λ _. add_days-IsNotLater d m h v)
                  λ _.
                    Returns-if (str_eq u "h") (λ _. add_hours-IsNotLater d m h v) λ _. Returns-err _
