-- ===== src/Prelude/Lists.antt =====
-- Lists measured by native numbers and filtered by Boolean tests, and membership as data.
use Prim.Native.Nat.{ℕ, zero, suc, ◌+◌, ◌≤◌, min}
use mathlib.Core.Path.{◌≡◌, refl, ap}
use mathlib.Core.Bool.{Bool, true, false, ◌&&◌, ◌||◌}
use mathlib.Core.Logic.{◌⊎◌, inl, inr}
use mathlib.Core.List.{List, [], ◌∷◌, ◌++◌, map, Memᴰ}
use mathlib.Core.Option.{Option, none, some}
use native.Mathlib.Omega.{arith}
use better_mta.Prelude.Tests.{if◌then◌else◌, Bool-cases}

module _ {ℓ} {A : Type ℓ} where
  abbrev pub length : List A → ℕ
  length [] = 0
  length (x ∷ xs) = suc (length xs)

  abbrev pub take : ℕ → List A → List A
  take zero xs = []
  take (suc n) [] = []
  take (suc n) (x ∷ xs) = x ∷ take n xs

  abbrev pub filter : (A → Bool) → List A → List A
  filter p [] = []
  filter p (x ∷ xs) = let rest = filter p xs in if p x then x ∷ rest else rest

  abbrev pub any : (A → Bool) → List A → Bool
  any p [] = false
  any p (x ∷ xs) = p x || any p xs

  abbrev pub all : (A → Bool) → List A → Bool
  all p [] = true
  all p (x ∷ xs) = p x && all p xs

  abbrev pub is_empty : List A → Bool
  is_empty [] = true
  is_empty (_ ∷ _) = false

  -- `xs[0]`
  abbrev pub first : List A → Option A
  first [] = none
  first (x ∷ xs) = some x

  -- the first item that passes, `Array.prototype.find`
  abbrev pub find : (A → Bool) → List A → Option A
  find p [] = none
  find p (x ∷ xs) = if p x then some x else find p xs

module _ {ℓ κ} {A : Type ℓ} (P : A → Type κ) where
  abbrev pub All : List A → Type κ
  All [] = Unit
  All (x ∷ xs) = P x × All xs

module _ {ℓ} {A : Type ℓ} where
  pub length-append : (xs ys : List A) → length (xs ++ ys) ≡ length xs + length ys
  length-append [] ys = omega arith
  length-append (x ∷ xs) ys = omega (arith, length-append xs ys)

  pub length-take : (n : ℕ) (xs : List A) → length (take n xs) ≤ n
  length-take zero xs = omega arith
  length-take (suc n) [] = omega arith
  length-take (suc n) (x ∷ xs) = omega (arith, length-take n xs)

  pub length-take-min : (n : ℕ) (xs : List A) → length (take n xs) ≡ min n (length xs)
  length-take-min zero xs = omega arith
  length-take-min (suc n) [] = omega arith
  length-take-min (suc n) (x ∷ xs) = omega (arith, length-take-min n xs)

  pub Memᴰ-take : (n : ℕ) (xs : List A) {a : A} → Memᴰ a (take n xs) → Memᴰ a xs
  Memᴰ-take zero xs m = elim m [ ]
  Memᴰ-take (suc n) [] m = m
  Memᴰ-take (suc n) (x ∷ xs) (Memᴰ.head e) = Memᴰ.head e
  Memᴰ-take (suc n) (x ∷ xs) (Memᴰ.tail m) = Memᴰ.tail (Memᴰ-take n xs m)

  pub Memᴰ-append_left : {a : A} (xs ys : List A) → Memᴰ a xs → Memᴰ a (xs ++ ys)
  Memᴰ-append_left [] ys m = elim m [ ]
  Memᴰ-append_left (x ∷ xs) ys (Memᴰ.head e) = Memᴰ.head e
  Memᴰ-append_left (x ∷ xs) ys (Memᴰ.tail m) = Memᴰ.tail (Memᴰ-append_left xs ys m)

  pub Memᴰ-append_right : {a : A} (xs ys : List A) → Memᴰ a ys → Memᴰ a (xs ++ ys)
  Memᴰ-append_right [] ys m = m
  Memᴰ-append_right (x ∷ xs) ys m = Memᴰ.tail (Memᴰ-append_right xs ys m)

  pub Memᴰ-append_cases : {a : A} (xs ys : List A) → Memᴰ a (xs ++ ys) → Memᴰ a xs ⊎ Memᴰ a ys
  Memᴰ-append_cases [] ys m = inr m
  Memᴰ-append_cases (x ∷ xs) ys (Memᴰ.head e) = inl (Memᴰ.head e)
  Memᴰ-append_cases (x ∷ xs) ys (Memᴰ.tail m) = elim (Memᴰ-append_cases xs ys m) [
    | inl l ↦ inl (Memᴰ.tail l)
    | inr r ↦ inr r
  ]

  pub Memᴰ-filter :
      (p : A → Bool) (xs : List A) {a : A} → Memᴰ a xs → p a ≡ true → Memᴰ a (filter p xs)
  Memᴰ-filter p [] m h = elim m [ ]
  Memᴰ-filter p (x ∷ xs) {a} (Memᴰ.head e) h = elim (Bool-cases (p x)) [
    | inl t ↦ rw t (Memᴰ.head e)
    | inr f ↦ cc (ap p e)
  ]
  Memᴰ-filter p (x ∷ xs) (Memᴰ.tail m) h = elim (Bool-cases (p x)) [
    | inl t ↦ rw t (Memᴰ.tail (Memᴰ-filter p xs m h))
    | inr f ↦ rw f (Memᴰ-filter p xs m h)
  ]

  pub Memᴰ-of_filter :
      (p : A → Bool) (xs : List A) {a : A} → Memᴰ a (filter p xs) → Memᴰ a xs × (p a ≡ true)
  Memᴰ-of_filter p [] m = elim m [ ]
  Memᴰ-of_filter p (x ∷ xs) {a} m = elim (Bool-cases (p x)) [
    | inr f ↦ let (l, h) = Memᴰ-of_filter p xs (rw f at m) in (Memᴰ.tail l, h)
    | inl t ↦ elim (cases (rw t at m)) [
      | inl e ↦ (Memᴰ.head e, cc (ap p e))
      | inr k ↦ let (l, h) = Memᴰ-of_filter p xs k in (Memᴰ.tail l, h)
    ]
  ]
    where
      cases : {b : A} {ys : List A} → Memᴰ a (b ∷ ys) → (a ≡ b) ⊎ Memᴰ a ys
      cases (Memᴰ.head e) = inl e
      cases (Memᴰ.tail k) = inr k

  pub any-of_Memᴰ : (p : A → Bool) (xs : List A) {a : A} → Memᴰ a xs → p a ≡ true → any p xs ≡ true
  any-of_Memᴰ p [] m h = elim m [ ]
  any-of_Memᴰ p (x ∷ xs) (Memᴰ.head e) h = ground (arith, ap p e)
  any-of_Memᴰ p (x ∷ xs) (Memᴰ.tail m) h = ground (arith, any-of_Memᴰ p xs m h)

  pub Memᴰ-of_any :
      (p : A → Bool) (xs : List A) → any p xs ≡ true → (a : A) × Memᴰ a xs × (p a ≡ true)
  Memᴰ-of_any p [] h = cc
  Memᴰ-of_any p (x ∷ xs) h = elim (Bool-cases (p x)) [
    | inl t ↦ (x, Memᴰ.head refl, t)
    | inr f ↦ let (a, m, g) = Memᴰ-of_any p xs (rw f at h) in (a, Memᴰ.tail m, g)
  ]

  pub any-false : (p : A → Bool) (xs : List A) {a : A} → any p xs ≡ false → Memᴰ a xs → p a ≡ false
  any-false p xs {a} h m = elim (Bool-cases (p a)) [ inl t ↦ cc (any-of_Memᴰ p xs m t) | inr f ↦ f ]

module _ {ℓ κ} {A : Type ℓ} (P : A → Type κ) where
  pub All-of_Memᴰ : (xs : List A) → ((a : A) → Memᴰ a xs → P a) → All P xs
  All-of_Memᴰ [] h = tt
  All-of_Memᴰ (x ∷ xs) h = (h x (Memᴰ.head refl), All-of_Memᴰ xs (λ a m. h a (Memᴰ.tail m)))

  pub Memᴰ-All : (xs : List A) {a : A} → All P xs → Memᴰ a xs → P a
  Memᴰ-All [] h m = elim m [ ]
  Memᴰ-All (x ∷ xs) h (Memᴰ.head e) = rw e h.0
  Memᴰ-All (x ∷ xs) h (Memᴰ.tail m) = Memᴰ-All xs h.1 m

module _ {ℓ κ} {A : Type ℓ} {B : Type κ} (f : A → B) where
  pub Memᴰ-map : (xs : List A) {a : A} → Memᴰ a xs → Memᴰ (f a) (map f xs)
  Memᴰ-map [] m = elim m [ ]
  Memᴰ-map (x ∷ xs) (Memᴰ.head e) = Memᴰ.head (ap f e)
  Memᴰ-map (x ∷ xs) (Memᴰ.tail m) = Memᴰ.tail (Memᴰ-map xs m)

  pub Memᴰ-of_map : (xs : List A) {b : B} → Memᴰ b (map f xs) → (a : A) × Memᴰ a xs × (b ≡ f a)
  Memᴰ-of_map [] m = elim m [ ]
  Memᴰ-of_map (x ∷ xs) (Memᴰ.head e) = (x, Memᴰ.head refl, e)
  Memᴰ-of_map (x ∷ xs) (Memᴰ.tail m) = let (a, k, e) = Memᴰ-of_map xs m in (a, Memᴰ.tail k, e)

  pub length-map : (xs : List A) → length (map f xs) ≡ length xs
  length-map [] = refl
  length-map (x ∷ xs) = ap suc (length-map xs)

module _ {ℓ} {A : Type ℓ} (p : A → Bool) where
  pub length-filter : (xs : List A) → length (filter p xs) ≤ length xs
  length-filter [] = omega arith
  length-filter (x ∷ xs) = ground (arith, length-filter xs)
