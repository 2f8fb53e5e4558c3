-- ===== src/Execution/Enums.antt =====
-- The string enumerations of execution/models.py, with `_normalize_enum` on a text.
use chainer_trader.Prelude.{
  subst, ◌↔◌, ◌≡◌, refl, ◌⊎◌, inl, inr, List, [], ◌∷◌, String, Result, ok, err, arith,
  if◌then◌else◌,
}
use chainer_trader.Prelude.Text.{str_eq, str_eq_iff}

-- The exceptions that the contracts raise.
pub data ValueError : Type 0 where
  -- `enum_type(str(value))` on a text that is no member's value
  unknown_member : String → ValueError
  -- `{name} is required`
  required : String → ValueError
  -- `{name} must be positive`
  not_positive : String → ValueError
  -- `quantity or notional is required`
  size_required : ValueError
  -- `stop_price or take_profit_price is required`
  protection_required : ValueError
  -- `stop_price is required for replacement`
  replacement_stop_required : ValueError
  -- `task_id must be positive when provided`
  bad_task_id : ValueError

module _ {E : Type 0} (value : E → String) where
  -- The member whose value is the text.
  unfoldable pub find_member : String → List E → Result ValueError E
  find_member s [] = err (unknown_member s)
  find_member s (m ∷ ms) = if str_eq (value m) s then ok m else find_member s ms

  find_member-value : (s : String) (ms : List E) (e : E) → find_member s ms ≡ ok e → value e ≡ s
  unfolding find_member
  find_member-value s [] e h = cc
  find_member-value s (m ∷ ms) e h =
      ground (arith, str_eq_iff (value m) s, find_member-value s ms e)

-- A subclass of `_StrEnum`: its members in order, their values, and that lookup by value is exact.
pub record StrEnum (E : Type 0) : Type 0 where
  pub members : List E
  pub value : E → String
  pub find_lem : (e : E) → find_member value (value e) members ≡ ok e

module _ {E : Type 0} ⦃en : StrEnum E⦄ where
  -- `_normalize_enum(enum_type, value)`, on a member or a text
  unfoldable pub normalize_enum : E ⊎ String → Result ValueError E
  unfolding find_member
  normalize_enum (inl e) = ok e
  normalize_enum (inr s) = find_member en.value s en.members

  -- A member normalizes to itself, and a text normalizes to a member exactly when it is the
  -- member's value.
  pub normalize_enum-exact :
      (e : E) (s : String)
      → (normalize_enum (inl e) ≡ ok e) × ((normalize_enum (inr s) ≡ ok e) ↔ (en.value e ≡ s))
  normalize_enum-exact e s =
      unfold normalize_enum in
      (
        refl,
        (
          find_member-value en.value s en.members e,
          λ h. subst (λ t. find_member en.value t en.members ≡ ok e) h (en.find_lem e),
        ),
      )
