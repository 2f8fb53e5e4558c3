-- ===== src/Common/TimeRange/Months.antt =====
-- Where a shift by months leads: to a date of the calendar, the given number of months away.
use Prim.Native.Nat.{ℕ, ◌+◌, ◌-◌, ◌*◌, ◌≤◌, ◌<◌, min}
use chainer_trader.Prelude.{
  sym, ◌∙◌, inl, inr, ◌&&◌, Bool-cases, subst, Bool, false, Result, err, ◌≡◌, refl, true, ok, arith,
  Returns, ap,
}
use chainer_trader.Prelude.Int.{
  ℤ, leb_ℤ, pos, negsuc, ◌+ℤ◌, pos_part, neg_part, +ℤ_parts, eq_of_parts, floor_div, floor_mod,
}
use chainer_trader.Common.TimeRange.{
  TimeError, Datetime, max_year, days_in_month, shift_months, replace_date,
}

-- A date of the calendar that `datetime` can hold.
pub record IsDate (d : Datetime) : Type 0 where
  pub year_from : 1 ≤ d.year
  pub year_to : d.year ≤ max_year
  pub month_from : 1 ≤ d.month
  pub month_to : d.month ≤ 12
  pub day_from : 1 ≤ d.day
  pub day_to : d.day ≤ days_in_month d.year d.month
  pub hour_to : d.hour < 24

pub days_in_month_bounds : (y m : ℕ) → (28 ≤ days_in_month y m) × (days_in_month y m ≤ 31)
unfolding days_in_month
days_in_month_bounds y m = ground arith

pub days_in_month_last : (y : ℕ) → days_in_month y 12 ≡ 31
unfolding days_in_month
days_in_month_last y = refl

-- the months from year 0 to that of a date
abbrev pub month_count : Datetime → ℕ
month_count d = d.year * 12 + d.month

-- What `shift_months` gives.
pub record IsShifted (d : Datetime) (n : ℤ) (e : Datetime) : Type 0 where
  pub valid : IsDate e
  pub months_gone : pos (month_count e) ≡ pos (month_count d) +ℤ n
  pub day_kept : e.day ≡ min d.day (days_in_month e.year e.month)
  pub hour_kept : e.hour ≡ d.hour
  pub rest_kept : e.rest ≡ d.rest

floor_division :
    (n : ℤ)
    → pos_part (floor_div 12 n) * 12 + floor_mod 12 n + neg_part n
      ≡ pos_part n + neg_part (floor_div 12 n) * 12
floor_division (pos n) = omega arith
floor_division (negsuc n) = omega arith

floor_mod_small : (n : ℤ) → floor_mod 12 n < 12
floor_mod_small (pos n) = omega arith
floor_mod_small (negsuc n) = omega arith

-- What `replace` checks, and gives.
record IsReplaced (d : Datetime) (year : ℤ) (month day : ℕ) (e : Datetime) : Type 0 where
  year_is : pos e.year ≡ year
  year_from : 1 ≤ e.year
  year_to : e.year ≤ max_year
  month_is : e.month ≡ month
  day_is : e.day ≡ day
  hour_is : e.hour ≡ d.hour
  rest_is : e.rest ≡ d.rest

replace_date-IsReplaced :
    (d : Datetime) (year : ℤ) (month day : ℕ)
    → Returns (IsReplaced d year month day) (replace_date d year month day)
unfolding replace_date
replace_date-IsReplaced d (negsuc y) month day = record { at = λ e h. ground arith }
replace_date-IsReplaced d (pos y) month day = record { at = λ e h. ground arith }

shifted :
    (d : Datetime) (n : ℤ) (e : Datetime)
    → IsDate d
    → (let mi = pos (d.month - 1) +ℤ n in
        IsReplaced d
          (pos d.year +ℤ floor_div 12 mi)
          (floor_mod 12 mi + 1)
          (min d.day
            (days_in_month (pos_part (pos d.year +ℤ floor_div 12 mi)) (floor_mod 12 mi + 1)))
          e)
    → IsShifted d n e
shifted d n e v r =
    let mi = pos (d.month - 1) +ℤ n in
    let small = floor_mod_small mi in
    let division = floor_division mi in
    let year = ap pos_part r.year_is in
    let month = r.month_is in
    let day = r.day_is in
    let in_month = days_in_month_bounds e.year e.month in
    record {
      valid = record {
        year_from = r.year_from;
        year_to = r.year_to;
        month_from = omega arith;
        month_to = omega arith;
        day_from = ground arith;
        day_to = ground arith;
        hour_to = ground arith;
      };
      months_gone = eq_of_parts (pos (month_count e)) (pos (month_count d) +ℤ n) (
          omega (
            arith,
            +ℤ_parts (pos (month_count d)) n,
            +ℤ_parts (pos (d.month - 1)) n,
            +ℤ_parts (pos d.year) (floor_div 12 mi),
            ap neg_part r.year_is,
          ));
      day_kept = ground arith;
      hour_kept = r.hour_is;
      rest_kept = r.rest_is;
    }

shift_months-Returns :
    (d : Datetime) (n : ℤ) → IsDate d → Returns (IsShifted d n) (shift_months d n)
unfolding shift_months
shift_months-Returns d n v = record {
  at = λ e h. shifted d n e v ((replace_date-IsReplaced d _ _ _).at e h);
}

leb_ℤ-parts : (a b : ℤ) → leb_ℤ a b ≡ true → pos_part a + neg_part b ≤ pos_part b + neg_part a
leb_ℤ-parts a b h = ground arith

leb_ℤ_of_parts : (a b : ℤ) → pos_part a + neg_part b ≤ pos_part b + neg_part a → leb_ℤ a b ≡ true
leb_ℤ_of_parts a b h = ground arith

-- `replace` refuses no date of the calendar.
replace_date_made :
    (d : Datetime) (year : ℤ) (month day : ℕ)
    → leb_ℤ (pos 1) year ≡ true
    → leb_ℤ year (pos max_year) ≡ true
    → 1 ≤ month
    → month ≤ 12
    → 1 ≤ day
    → day ≤ days_in_month (pos_part year) month
    → (e : Datetime) × (replace_date d year month day ≡ ok e)
unfolding replace_date
replace_date_made d (pos y) month day a b m n p q =
    (record d { year = y; month = month; day = day }, ground arith)
replace_date_made d (negsuc y) month day a b m n p q = ground arith

shift_months_made :
    (d : Datetime) (n : ℤ)
    → IsDate d
    → leb_ℤ (pos 13) (pos (month_count d) +ℤ n) ≡ true
    → leb_ℤ (pos (month_count d) +ℤ n) (pos (max_year * 12 + 12)) ≡ true
    → (e : Datetime) × (shift_months d n ≡ ok e) × IsShifted d n e
unfolding shift_months
shift_months_made d n v low high =
    let mi = pos (d.month - 1) +ℤ n in
    let small = floor_mod_small mi in
    let division = floor_division mi in
    let year = pos d.year +ℤ floor_div 12 mi in
    let month = floor_mod 12 mi + 1 in
    let in_month = days_in_month_bounds (pos_part year) month in
    let least = leb_ℤ-parts (pos 13) (pos (month_count d) +ℤ n) low in
    let greatest = leb_ℤ-parts (pos (month_count d) +ℤ n) (pos (max_year * 12 + 12)) high in
    let sum = +ℤ_parts (pos (month_count d)) n in
    let index = +ℤ_parts (pos (d.month - 1)) n in
    let years = +ℤ_parts (pos d.year) (floor_div 12 mi) in
    let (e, made) =
      replace_date_made d year month (min d.day (days_in_month (pos_part year) month))
        (leb_ℤ_of_parts (pos 1) year (omega (arith, least, sum, index, years, division, small)))
        (leb_ℤ_of_parts year (pos max_year)
          (omega (arith, greatest, sum, index, years, division, small)))
        (omega arith) (omega (arith, small)) (ground arith) (ground arith) in
    (e, made, (shift_months-Returns d n v).at e made)

-- whether a number of months since year 0 is of a year that `datetime` has
abbrev pub in_years : ℤ → Bool
in_years t = leb_ℤ (pos 13) t && leb_ℤ t (pos (max_year * 12 + 12))

abbrev pub is_ok : {X A : Type 0} → Result X A → Bool
is_ok (ok a) = true
is_ok (err x) = false

both : (a b : Bool) → a && b ≡ true → (a ≡ true) × (b ≡ true)
both true b h = (refl, h)
both false b h = cc

shifted_in_years :
    (d : Datetime) (n : ℤ) (r : Result TimeError Datetime)
    → Returns (IsShifted d n) r
    → in_years (pos (month_count d) +ℤ n) ≡ false
    → is_ok r ≡ false
shifted_in_years d n (err x) h out = refl
shifted_in_years d n (ok e) h out =
    let s = h.at e refl in
    let v = s.valid in
    let within : in_years (pos (month_count e)) ≡ true =
      ground (arith, v.year_from, v.year_to, v.month_from, v.month_to) in
    ground (arith, out, subst (λ t. in_years t ≡ true) s.months_gone within)

-- From a date of the calendar, `shift_months` returns exactly when the month that is the given number
-- of months away is of a year that `datetime` has, and it returns only dates of the calendar, which are
-- that number of months away, on the same day or on the last day of a shorter month, at the same time.
pub shift_months-IsShifted :
    (d : Datetime) (n : ℤ)
    → IsDate d
    → Returns (IsShifted d n) (shift_months d n)
      × (is_ok (shift_months d n) ≡ in_years (pos (month_count d) +ℤ n))
shift_months-IsShifted d n v =
    let returned = shift_months-Returns d n v in
    (
      returned,
      elim (Bool-cases (in_years (pos (month_count d) +ℤ n))) [
        | inl within ↦
            let bounds = both _ _ within in
            let returns = shift_months_made d n v bounds.0 bounds.1 in
            ap is_ok returns.1 ∙ (sym within)
        | inr out ↦ rw out (shifted_in_years d n (shift_months d n) returned out)
      ],
    )
