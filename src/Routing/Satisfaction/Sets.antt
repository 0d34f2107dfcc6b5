-- ===== src/Routing/Satisfaction/Sets.antt =====
-- Sets of line ids kept as lists: membership, and lists without repetition.
use better_mta.Prelude.{
  ◌≡◌, refl, sym, inl, inr, true, false, ◌||◌, List, [], ◌∷◌, ◌++◌, Memᴰ, arith, Bool-cases,
}
use better_mta.Prelude.Text.{Text, ◌===◌, ===_sound, ===_refl}
use better_mta.Routing.Satisfaction.{contains}

-- No id stands in the list twice.
abbrev pub IsDistinct : List Text → Type 0
IsDistinct [] = Unit
IsDistinct (x ∷ xs) = (contains xs x ≡ false) × IsDistinct xs

pub contains-append :
    (xs ys : List Text) (id : Text) → contains (xs ++ ys) id ≡ (contains xs id || contains ys id)
unfolding contains
contains-append [] ys id = refl
contains-append (x ∷ xs) ys id = ground (arith, contains-append xs ys id)

pub contains-of_Memᴰ : (xs : List Text) {id : Text} → Memᴰ id xs → contains xs id ≡ true
unfolding contains
contains-of_Memᴰ [] m = elim m [ ]
contains-of_Memᴰ (x ∷ xs) {id} (Memᴰ.head e) = rw (← e) (rw ===_refl)
contains-of_Memᴰ (x ∷ xs) (Memᴰ.tail m) = ground (arith, contains-of_Memᴰ xs m)

pub Memᴰ-of_contains : (xs : List Text) (id : Text) → contains xs id ≡ true → Memᴰ id xs
unfolding contains
Memᴰ-of_contains [] id h = cc
Memᴰ-of_contains (x ∷ xs) id h = elim (Bool-cases (x === id)) [
  | inl same ↦ Memᴰ.head (sym (===_sound x id same))
  | inr other ↦ Memᴰ.tail (Memᴰ-of_contains xs id (rw other at h))
]

pub IsDistinct-snoc :
    (xs : List Text) (x : Text) → IsDistinct xs → contains xs x ≡ false → IsDistinct (xs ++ x ∷ [])
unfolding contains
IsDistinct-snoc [] x d h = (refl, tt)
IsDistinct-snoc (y ∷ ys) x d h = (
  ground (arith, contains-append ys (x ∷ []) y, ===_sound x y, ===_refl y, d.0),
  IsDistinct-snoc ys x d.1 (ground arith),
)

-- What stands in the middle of a list without repetition is not in front of it.
pub IsDistinct-middle :
    (xs ys : List Text) (x : Text) → IsDistinct (xs ++ x ∷ ys) → contains xs x ≡ false
unfolding contains
IsDistinct-middle [] ys x d = refl
IsDistinct-middle (y ∷ xs) ys x d =
    ground (
      arith,
      contains-append xs (x ∷ ys) y,
      IsDistinct-middle xs ys x d.1,
      ===_sound y x,
      ===_refl x,
    )
