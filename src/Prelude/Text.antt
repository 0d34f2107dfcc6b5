-- ===== src/Prelude/Text.antt =====
-- A JavaScript string is the list of its UTF-16 code units; literals here lie in the basic plane.
pub mod Trim
use Prim.Native.Char.{code}
use Prim.Native.String
use Prim.Native.String.{String}
use better_mta.Prelude.{
  ℕ, zero, suc, ◌+◌, ◌-◌, ◌*◌, ◌/◌, ◌%◌, ◌≡◌, ◌↔◌, refl, ap, Bool, true, false, not, ◌&&◌, ◌||◌,
  List, [], ◌∷◌, ◌++◌, arith, compare, Ordering, nat_eqb, ltb, leb, if◌then◌else◌, length, take,
}

abbrev pub Text : Type 0
Text = List ℕ

-- The code units of an ASCII literal.
abbrev pub text : String → Text
text String.[] = []
text (String.◌∷◌ c s) = code c ∷ text s

-- `a === b`
infix 50 ◌===◌
unfoldable pub ◌===◌ : Text → Text → Bool
[] === [] = true
[] === (_ ∷ _) = false
(_ ∷ _) === [] = false
(x ∷ xs) === (y ∷ ys) = nat_eqb x y && (xs === ys)

-- Lexicographic comparison by code units.
unfoldable pub compare_text : Text → Text → Ordering
compare_text [] [] = Ordering.eq
compare_text [] (_ ∷ _) = Ordering.lt
compare_text (_ ∷ _) [] = Ordering.gt
compare_text (x ∷ xs) (y ∷ ys) = elim (compare x y) [
  | Ordering.lt ↦ Ordering.lt
  | Ordering.eq ↦ compare_text xs ys
  | Ordering.gt ↦ Ordering.gt
]

-- `a < b` on strings
unfoldable pub text_ltb : Text → Text → Bool
unfolding compare_text
text_ltb a b = elim (compare_text a b) [ Ordering.lt ↦ true | _ ↦ false ]

pub ===_sound : (a b : Text) → (a === b) ≡ true → a ≡ b
unfolding ◌===◌
===_sound [] [] h = refl
===_sound [] (_ ∷ _) h = cc
===_sound (_ ∷ _) [] h = cc
===_sound (x ∷ xs) (y ∷ ys) h = ground (arith, ===_sound xs ys)

pub ===_refl : (a : Text) → (a === a) ≡ true
unfolding ◌===◌
===_refl [] = refl
===_refl (x ∷ xs) = ground (arith, ===_refl xs)

pub ===_iff : (a b : Text) → ((a === b) ≡ true) ↔ (a ≡ b)
===_iff a b = (===_sound a b, λ e. rw e (===_refl b))

pub compare_text_refl : (a : Text) → compare_text a a ≡ Ordering.eq
unfolding compare_text
compare_text_refl [] = refl
compare_text_refl (x ∷ xs) = ground (arith, compare_text_refl xs)

pub compare_text-eq : (a b : Text) → compare_text a b ≡ Ordering.eq → a ≡ b
unfolding compare_text
compare_text-eq [] [] h = refl
compare_text-eq [] (_ ∷ _) h = cc
compare_text-eq (_ ∷ _) [] h = cc
compare_text-eq (x ∷ xs) (y ∷ ys) h = ground (arith, compare_text-eq xs ys)

-- The strings joined with a separator, `Array.prototype.join`.
unfoldable pub join : Text → List Text → Text
join sep [] = []
join sep (x ∷ []) = x
join sep (x ∷ y ∷ ys) = x ++ (sep ++ join sep (y ∷ ys))

-- White space and line terminators of ECMAScript, which `trim` removes.
abbrev pub is_space : ℕ → Bool
is_space c =
    (leb 9 c && leb c 13)
    || (nat_eqb c 0x20
        || (nat_eqb c 0xa0
            || (nat_eqb c 0x1680
                || ((leb 0x2000 c && leb c 0x200a)
                    || (nat_eqb c 0x2028
                        || (nat_eqb c 0x2029
                            || (nat_eqb c 0x202f
                                || (nat_eqb c 0x205f
                                    || (nat_eqb c 0x3000 || nat_eqb c 0xfeff)))))))))

unfoldable pub trim_start : Text → Text
trim_start [] = []
trim_start (c ∷ s) = let rest = trim_start s in if is_space c then rest else c ∷ s

-- A code unit in front of what is left of the rest.
keep_unit : ℕ → Text → Text
keep_unit c [] = if is_space c then [] else c ∷ []
keep_unit c (d ∷ r) = c ∷ d ∷ r

-- What is left once the white space at the end is gone.
unfoldable pub trim_end : Text → Text
unfolding keep_unit
trim_end [] = []
trim_end (c ∷ s) = keep_unit c (trim_end s)

-- `s.trim()`
unfoldable pub trim : Text → Text
unfolding trim_start trim_end
trim s = trim_end (trim_start s)

abbrev pub starts_with : Text → Text → Bool
starts_with s [] = true
starts_with [] (_ ∷ _) = false
starts_with (c ∷ s) (d ∷ p) = nat_eqb c d && starts_with s p

-- `s.includes(part)`
unfoldable pub includes : Text → Text → Bool
includes [] part = starts_with [] part
includes (c ∷ s) part = starts_with (c ∷ s) part || includes s part

-- The decimal digits of a number, at most `fuel` of them.
digits_to : ℕ → ℕ → Text → Text
digits_to zero n out = out
digits_to (suc fuel) n out =
    let more = digits_to fuel (n / 10) ((b'0' + n % 10) ∷ out) in
    if ltb n 10 then (b'0' + n) ∷ out else more

-- `String(n)`; a number has fewer digits than `n + 1`.
unfoldable pub show_ℕ : ℕ → Text
unfolding digits_to
show_ℕ n = digits_to (suc n) n []
