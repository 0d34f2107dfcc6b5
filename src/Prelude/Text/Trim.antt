-- ===== src/Prelude/Text/Trim.antt =====
-- `trim` of a text that was trimmed.
use better_mta.Prelude.{ℕ, ◌≡◌, refl, inl, inr, false, [], ◌∷◌, Bool-cases, ap, ◌∙◌}
use better_mta.Prelude.Text.{Text, is_space, trim_start, trim_end, keep_unit, trim}

-- The text does not begin with white space.
abbrev StartsSolid : Text → Type 0
StartsSolid [] = Unit
StartsSolid (c ∷ s) = is_space c ≡ false

StartsSolid-trim_start : (s : Text) → StartsSolid (trim_start s)
unfolding trim_start
StartsSolid-trim_start [] = tt
StartsSolid-trim_start (c ∷ s) = elim (Bool-cases (is_space c)) [
  | inl space ↦ rw space (StartsSolid-trim_start s)
  | inr solid ↦ rw solid solid
]

trim_start_of_StartsSolid : (s : Text) → StartsSolid s → trim_start s ≡ s
unfolding trim_start
trim_start_of_StartsSolid [] h = refl
trim_start_of_StartsSolid (c ∷ s) h = rw h

keep_unit-StartsSolid : (c : ℕ) (r : Text) → is_space c ≡ false → StartsSolid (keep_unit c r)
unfolding keep_unit
keep_unit-StartsSolid c [] h = rw h h
keep_unit-StartsSolid c (d ∷ r) h = h

StartsSolid-trim_end : (s : Text) → StartsSolid s → StartsSolid (trim_end s)
unfolding trim_end
StartsSolid-trim_end [] h = tt
StartsSolid-trim_end (c ∷ s) h = keep_unit-StartsSolid c (trim_end s) h

trim_end-keep_unit : (c : ℕ) (r : Text) → trim_end r ≡ r → trim_end (keep_unit c r) ≡ keep_unit c r
unfolding trim_end keep_unit
trim_end-keep_unit c [] h = elim (Bool-cases (is_space c)) [
  | inl space ↦ rw space
  | inr solid ↦ rw solid (rw solid)
]
trim_end-keep_unit c (d ∷ r) h = ap (keep_unit c) h

trim_end_idempotent : (s : Text) → trim_end (trim_end s) ≡ trim_end s
unfolding trim_end
trim_end_idempotent [] = refl
trim_end_idempotent (c ∷ s) = trim_end-keep_unit c (trim_end s) (trim_end_idempotent s)

pub trim_idempotent : (s : Text) → trim (trim s) ≡ trim s
unfolding trim
trim_idempotent s =
    ap trim_end (
      trim_start_of_StartsSolid (trim_end (trim_start s))
        (StartsSolid-trim_end (trim_start s) (StartsSolid-trim_start s)))
    ∙ trim_end_idempotent (trim_start s)
