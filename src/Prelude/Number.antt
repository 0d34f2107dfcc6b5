-- ===== src/Prelude/Number.antt =====
-- JavaScript numbers whose finite values are integers: every finite quantity of the modelled code
-- is a count, a number of seconds or a number of milliseconds. There is no -0 and no rounding.
use better_mta.Prelude.{
  ℕ, suc, ◌+◌, ◌≡◌, refl, Bool, true, false, not, ◌&&◌, arith, Ordering, if◌then◌else◌, ◌++◌,
}
use better_mta.Prelude.Int.{ℤ, pos, negsuc, ◌+ℤ◌, ◌-ℤ◌, compare_ℤ, compare_ℤ-sub, floor_div, abs}
use better_mta.Prelude.Compare.{is_lt, is_le, is_eq, IsOrder, flip, Chains, compare_ℤ-IsOrder}
use better_mta.Prelude.Text.{Text, text, show_ℕ}

pub data Number : Type 0 where
  nan neg_inf inf : Number
  finite : ℤ → Number

abbrev pub number : ℕ → Number
number n = finite (pos n)

-- `Number.isFinite(n)`
abbrev pub is_finite : Number → Bool
is_finite (finite _) = true
is_finite _ = false

-- `Number.isNaN(n)`
abbrev pub is_nan : Number → Bool
is_nan nan = true
is_nan _ = false

-- The negative of a number.
abbrev pub negate : Number → Number
negate nan = nan
negate neg_inf = inf
negate inf = neg_inf
negate (finite a) = finite (pos 0 -ℤ a)

infixl 65 ◌+ₙ◌ ◌-ₙ◌
unfoldable pub ◌+ₙ◌ : Number → Number → Number
nan +ₙ b = nan
neg_inf +ₙ nan = nan
neg_inf +ₙ inf = nan
neg_inf +ₙ _ = neg_inf
inf +ₙ nan = nan
inf +ₙ neg_inf = nan
inf +ₙ _ = inf
finite a +ₙ nan = nan
finite a +ₙ neg_inf = neg_inf
finite a +ₙ inf = inf
finite a +ₙ finite b = finite (a +ℤ b)

unfoldable pub ◌-ₙ◌ : Number → Number → Number
nan -ₙ b = nan
neg_inf -ₙ nan = nan
neg_inf -ₙ neg_inf = nan
neg_inf -ₙ _ = neg_inf
inf -ₙ nan = nan
inf -ₙ inf = nan
inf -ₙ _ = inf
finite a -ₙ nan = nan
finite a -ₙ neg_inf = inf
finite a -ₙ inf = neg_inf
finite a -ₙ finite b = finite (a -ℤ b)

-- The sign of a number; that of NaN is the sign of 0, as `sort` reads it.
abbrev pub sign : Number → Ordering
sign nan = Ordering.eq
sign neg_inf = Ordering.lt
sign inf = Ordering.gt
sign (finite a) = compare_ℤ a (pos 0)

-- How two numbers other than NaN compare.
abbrev pub compare_number : Number → Number → Ordering
compare_number nan b = Ordering.eq
compare_number neg_inf neg_inf = Ordering.eq
compare_number neg_inf nan = Ordering.eq
compare_number neg_inf _ = Ordering.lt
compare_number inf inf = Ordering.eq
compare_number inf nan = Ordering.eq
compare_number inf _ = Ordering.gt
compare_number (finite a) nan = Ordering.eq
compare_number (finite a) neg_inf = Ordering.gt
compare_number (finite a) inf = Ordering.lt
compare_number (finite a) (finite b) = compare_ℤ a b

-- A test is false at NaN.
abbrev pub number_ltb : Number → Number → Bool
number_ltb a b = not (is_nan a) && (not (is_nan b) && is_lt (compare_number a b))

abbrev pub number_leb : Number → Number → Bool
number_leb a b = not (is_nan a) && (not (is_nan b) && is_le (compare_number a b))

-- `a === b`
abbrev pub number_eqb : Number → Number → Bool
number_eqb a b = not (is_nan a) && (not (is_nan b) && is_eq (compare_number a b))

-- `Math.max(0, n)`
abbrev pub max_zero : Number → Number
max_zero n = if number_ltb n (number 0) then number 0 else n

-- `Math.floor(n / d)`, for a positive `d`
abbrev pub floor_quotient : Number → ℕ → Number
floor_quotient (finite a) d = finite (floor_div a d)
floor_quotient n d = n

-- `Math.round(n / d)`, for a positive `d`: halves are rounded up
abbrev pub round_quotient : Number → ℕ → Number
round_quotient (finite a) d = finite (floor_div (a +ℤ a +ℤ pos d) (d + d))
round_quotient n d = n

-- `Math.abs(n)`
abbrev pub absolute : Number → Number
absolute nan = nan
absolute (finite a) = number (abs a)
absolute _ = inf

-- `String(n)`; the finite numbers printed are below 10^21, where JavaScript writes plain digits.
unfoldable pub show : Number → Text
show nan = text "NaN"
show neg_inf = text "-Infinity"
show inf = text "Infinity"
show (finite (pos n)) = show_ℕ n
show (finite (negsuc n)) = text "-" ++ show_ℕ (suc n)

abbrev pub IsNumber : Number → Type 0
IsNumber n = is_nan n ≡ false

-- The sign of a difference is the comparison, infinities that are equal apart.
pub sign-sub :
    (a b : Number)
    → IsNumber a
    → IsNumber b
    → number_eqb a b ≡ false
    → sign (a -ₙ b) ≡ compare_number a b
unfolding ◌-ₙ◌
sign-sub (finite a) (finite b) p q h = compare_ℤ-sub a b
sign-sub nan b p q h = cc
sign-sub neg_inf b p q h = ground arith
sign-sub inf b p q h = ground arith
sign-sub (finite a) nan p q h = cc
sign-sub (finite a) neg_inf p q h = refl
sign-sub (finite a) inf p q h = refl

pub compare_number-IsOrder : IsOrder IsNumber compare_number
compare_number-IsOrder = record { swaps = swap; chains = chain }
  where
    swap : (a b : Number) → IsNumber a → IsNumber b → compare_number b a ≡ flip (compare_number a b)
    swap (finite a) (finite b) p q = compare_ℤ-IsOrder.swaps a b tt tt
    swap nan b p q = cc
    swap neg_inf b p q = ground arith
    swap inf b p q = ground arith
    swap (finite a) nan p q = cc
    swap (finite a) neg_inf p q = refl
    swap (finite a) inf p q = refl

    chain :
        (a b d : Number)
        → IsNumber a
        → IsNumber b
        → IsNumber d
        → Chains (compare_number a b) (compare_number b d) (compare_number a d)
    chain (finite a) (finite b) (finite d) p q r = compare_ℤ-IsOrder.chains a b d tt tt tt
    chain a b d p q r = ground arith

pub number_leb_trans :
    (a b c : Number) → number_leb a b ≡ true → number_leb b c ≡ true → number_leb a c ≡ true
number_leb_trans (finite a) (finite b) (finite c) h k = ground arith
number_leb_trans a b c h k = ground arith
