-- ===== src/Prelude/Long.antt =====
-- C's signed integers: a value of type `long` or `int` is an integer, and each operation that can
-- leave the type's range writes its conversion out.
use Prim.Native.Nat.{ℕ, suc, ◌+◌, ◌-◌, ◌≤◌}
use mathlib.Core.Path.{◌≡◌, sym, ap, ◌∙◌}
use mathlib.Core.Logic.{◌≢◌, ◌⊎◌, inl, inr}
use mathlib.Core.Bool.{Bool, true, false}
use native.Mathlib.Omega.{arith}
use ioriot.Prelude.Tests.{ltb, leb, ◌==◌, if◌then◌else◌, Bool-cases}

-- `negsuc n` is -(n + 1).
pub data ℤ : Type 0 where
  pos : ℕ → ℤ
  negsuc : ℕ → ℤ

abbrev pub pos_part : ℤ → ℕ
pos_part (pos n) = n
pos_part (negsuc n) = 0

abbrev pub neg_part : ℤ → ℕ
neg_part (pos n) = 0
neg_part (negsuc n) = suc n

-- a - b, as an integer
abbrev pub sub_ℕ : ℕ → ℕ → ℤ
sub_ℕ a b = if leb b a then pos (a - b) else negsuc (b - a - 1)

infixl 65 ◌+ℤ◌ ◌-ℤ◌
infix 50 ◌≤ℤ◌ ◌<ℤ◌
unfoldable pub ◌+ℤ◌ : ℤ → ℤ → ℤ
a +ℤ b = sub_ℕ (pos_part a + pos_part b) (neg_part a + neg_part b)

unfoldable pub ◌-ℤ◌ : ℤ → ℤ → ℤ
a -ℤ b = sub_ℕ (pos_part a + neg_part b) (neg_part a + pos_part b)

abbrev pub ◌≤ℤ◌ : ℤ → ℤ → Type 0
a ≤ℤ b = pos_part a + neg_part b ≤ pos_part b + neg_part a

abbrev pub ◌<ℤ◌ : ℤ → ℤ → Type 0
a <ℤ b = suc (pos_part a + neg_part b) ≤ pos_part b + neg_part a

-- The comparisons of the code, as tests. Each compares two natural numbers.
unfoldable pub lez : ℤ → ℤ → Bool
lez a b = leb (pos_part a + neg_part b) (pos_part b + neg_part a)

unfoldable pub ltz : ℤ → ℤ → Bool
ltz a b = ltb (pos_part a + neg_part b) (pos_part b + neg_part a)

unfoldable pub eqz : ℤ → ℤ → Bool
eqz a b = (pos_part a + neg_part b) == (pos_part b + neg_part a)

pub +ℤ_parts :
    (a b : ℤ)
    → pos_part (a +ℤ b) + neg_part a + neg_part b ≡ neg_part (a +ℤ b) + pos_part a + pos_part b
unfolding ◌+ℤ◌
+ℤ_parts a b = ground arith

pub -ℤ_parts :
    (a b : ℤ)
    → pos_part (a -ℤ b) + neg_part a + pos_part b ≡ neg_part (a -ℤ b) + pos_part a + neg_part b
unfolding ◌-ℤ◌
-ℤ_parts a b = ground arith

pub eq_of_parts : (a b : ℤ) → pos_part a + neg_part b ≡ pos_part b + neg_part a → a ≡ b
eq_of_parts a b h = ground arith

pub eqz→eq : (a b : ℤ) → eqz a b ≡ true → a ≡ b
unfolding eqz
eqz→eq a b h = ground arith

pub eqz_refl : (a : ℤ) → eqz a a ≡ true
unfolding eqz
eqz_refl a = ground arith

-- A test in arithmetic, either way that it turns out.
pub lez_cases : (a b : ℤ) → ((lez a b ≡ true) × (a ≤ℤ b)) ⊎ ((lez a b ≡ false) × (b <ℤ a))
unfolding lez
lez_cases a b = ground arith

pub ltz_cases : (a b : ℤ) → ((ltz a b ≡ true) × (a <ℤ b)) ⊎ ((ltz a b ≡ false) × (b ≤ℤ a))
unfolding ltz
ltz_cases a b = ground arith

pub eqz_cases : (a b : ℤ) → ((eqz a b ≡ true) × (a ≡ b)) ⊎ ((eqz a b ≡ false) × (a ≢ b))
unfolding eqz
eqz_cases a b = elim (Bool-cases (eqz a b)) [
  | inl e ↦ inl (e, eqz→eq a b e)
  | inr e ↦ inr (e, λ p. cc (sym (eqz_refl a) ∙ ap (eqz a) p ∙ e))
]

pub lt_of_tests : (a b : ℤ) → eqz a b ≡ false → ltz b a ≡ false → a <ℤ b
unfolding eqz ltz
lt_of_tests a b h g = ground arith

pub <ℤ_trans : (a b c : ℤ) → a <ℤ b → b <ℤ c → a <ℤ c
<ℤ_trans a b c h g = omega arith

pub eqz_of_lt :
    (a b : ℤ)
    → a <ℤ b
    → (eqz a b ≡ false) × (eqz b a ≡ false) × (ltz a b ≡ true) × (ltz b a ≡ false)
unfolding eqz ltz
eqz_of_lt a b h = ground arith
