-- ===== src/Prelude/Text.antt =====
-- Python's `str`, as the native text: `strip`, the tests on it, and f-strings.
pub mod Show
pub mod Digits
use Prim.Native.Nat.{ℕ}
use Prim.Native.Char.{Char, code}
use Prim.Native.String.{String, [], ◌∷◌}
use Prim.Native.String.append
use mathlib.Core.Path.{◌≡◌, refl}
use mathlib.Core.Logic.{inl, inr}
use mathlib.Core.Bool.{Bool, true, false, ◌&&◌, ◌||◌}
use text.Mathlib.Text.{◌==◌ as text_eq}
use text.Mathlib.TextEquality.{eq_iff}
use chainer_trader.Prelude.Tests.{leb, ◌==◌, Bool-cases, if◌then◌else◌}
pub use Prim.Native.String.{◌++◌ as join}

-- `a == b` on texts
abbrev pub str_eq : String → String → Bool
str_eq a b = text_eq a b

pub str_eq_iff : (a b : String) → (str_eq a b ≡ true → a ≡ b) × (a ≡ b → str_eq a b ≡ true)
str_eq_iff a b = eq_iff a b

abbrev pub is_empty : String → Bool
is_empty [] = true
is_empty (c ∷ s) = false

abbrev between : ℕ → ℕ → ℕ → Bool
between lo n hi = leb lo n && leb n hi

-- `c.isspace()`
is_space : Char → Bool
is_space c =
    let n = code c in
    between 9 n 13
    || between 28 n 32
    || n == 0x85
    || n == 0xa0
    || n == 0x1680
    || between 0x2000 n 0x200a
    || between 0x2028 n 0x2029
    || n == 0x202f
    || n == 0x205f
    || n == 0x3000

-- `s.lstrip()`
lstrip : String → String
lstrip [] = []
lstrip (c ∷ s) = let rest = lstrip s in if is_space c then rest else c ∷ s

-- `s.rstrip()`
rstrip : String → String
rstrip [] = []
rstrip (c ∷ s) = let rest = rstrip s in if is_space c && is_empty rest then [] else c ∷ rest

-- `s.strip()`
unfoldable pub strip : String → String
unfolding lstrip rstrip is_space
strip s = rstrip (lstrip s)

-- the character at the place of `c` in the second text, if `c` is in the first
translate : String → String → Char → Char
translate [] to c = c
translate (a ∷ from) [] c = c
translate (a ∷ from) (b ∷ to) c = if code a == code c then b else translate from to c

abbrev lower_letters : String
lower_letters = "abcdefghijklmnopqrstuvwxyz"

abbrev upper_letters : String
upper_letters = "ABCDEFGHIJKLMNOPQRSTUVWXYZ"

-- `s.upper()` and `s.lower()`, on ASCII letters; any other character stays
unfoldable pub upper : String → String
unfolding translate
upper [] = []
upper (c ∷ s) = translate lower_letters upper_letters c ∷ upper s

unfoldable pub lower : String → String
unfolding translate
lower [] = []
lower (c ∷ s) = translate upper_letters lower_letters c ∷ lower s

-- A text that is empty or begins with no white space.
abbrev IsTrimmed : String → Type 0
IsTrimmed [] = Unit
IsTrimmed (c ∷ s) = is_space c ≡ false

lstrip-IsTrimmed : (s : String) → IsTrimmed (lstrip s)
unfolding lstrip
lstrip-IsTrimmed [] = tt
lstrip-IsTrimmed (c ∷ s) = elim (Bool-cases (is_space c)) [
  | inl space ↦ rw space (lstrip-IsTrimmed s)
  | inr other ↦ rw other other
]

lstrip_fixed : (s : String) → IsTrimmed s → lstrip s ≡ s
unfolding lstrip
lstrip_fixed [] h = refl
lstrip_fixed (c ∷ s) h = rw h

rstrip-IsTrimmed : (s : String) → IsTrimmed s → IsTrimmed (rstrip s)
unfolding rstrip
rstrip-IsTrimmed [] h = tt
rstrip-IsTrimmed (c ∷ s) h = rw h h

rstrip_idem : (s : String) → rstrip (rstrip s) ≡ rstrip s
unfolding rstrip
rstrip_idem [] = refl
rstrip_idem (c ∷ s) = elim (Bool-cases (is_space c && is_empty (rstrip s))) [
  | inl blank ↦ rw blank
  | inr kept ↦ rw kept (rw (rstrip_idem s, kept))
]

-- Stripping a stripped text changes nothing.
pub strip_idem : (s : String) → strip (strip s) ≡ strip s
strip_idem s =
    unfold strip in
    rw (lstrip_fixed (rstrip (lstrip s)) (rstrip-IsTrimmed _ (lstrip-IsTrimmed s)))
      (rstrip_idem (lstrip s))

-- A text that begins with a non-empty one is not empty.
pub is_empty-join : (s t : String) → is_empty s ≡ false → is_empty (join s t) ≡ false
is_empty-join [] t h = cc
is_empty-join (c ∷ s) t h = rw (append.cons c s t)
