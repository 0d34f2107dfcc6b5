-- ===== src/Prelude/Int.antt =====
-- Signed integers over the native numbers; `negsuc n` is -(n + 1).
use better_mta.Prelude.{
  ℕ, suc, ◌+◌, ◌-◌, ◌/◌, ◌≡◌, Bool, arith, ltb, leb, if◌then◌else◌, compare, Ordering,
}

pub data ℤ : Type 0 where
  pos : ℕ → ℤ
  negsuc : ℕ → ℤ

abbrev pub pos_part : ℤ → ℕ
pos_part (pos n) = n
pos_part (negsuc n) = 0

abbrev pub neg_part : ℤ → ℕ
neg_part (pos n) = 0
neg_part (negsuc n) = suc n

-- a - b, as an integer.
abbrev pub sub_ℕ : ℕ → ℕ → ℤ
sub_ℕ a b = if leb b a then pos (a - b) else negsuc (b - a - 1)

infixl 65 ◌+ℤ◌ ◌-ℤ◌
unfoldable pub ◌+ℤ◌ : ℤ → ℤ → ℤ
a +ℤ b = sub_ℕ (pos_part a + pos_part b) (neg_part a + neg_part b)

unfoldable pub ◌-ℤ◌ : ℤ → ℤ → ℤ
a -ℤ b = sub_ℕ (pos_part a + neg_part b) (neg_part a + pos_part b)

-- How two integers compare.
abbrev pub compare_ℤ : ℤ → ℤ → Ordering
compare_ℤ a b = compare (pos_part a + neg_part b) (pos_part b + neg_part a)

abbrev pub is_negative : ℤ → Bool
is_negative a = ltb 0 (neg_part a)

-- The quotient by a positive number, rounded down.
abbrev pub floor_div : ℤ → ℕ → ℤ
floor_div (pos n) d = pos (n / d)
floor_div (negsuc n) d = negsuc (n / d)

-- The magnitude.
abbrev pub abs : ℤ → ℕ
abs a = pos_part a + neg_part a

-- The sign of a difference is the comparison.
pub compare_ℤ-sub : (a b : ℤ) → compare_ℤ (a -ℤ b) (pos 0) ≡ compare_ℤ a b
unfolding ◌-ℤ◌
compare_ℤ-sub a b = ground arith

pub compare_ℤ-eq : (a b : ℤ) → compare_ℤ a b ≡ Ordering.eq → a ≡ b
compare_ℤ-eq a b h = ground arith

pub compare_ℤ-refl : (a : ℤ) → compare_ℤ a a ≡ Ordering.eq
compare_ℤ-refl a = ground arith
