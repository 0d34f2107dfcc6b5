-- ===== src/Prelude/Sort.antt =====
-- `Array.prototype.sort` with a comparator: a stable sort, which a consistent comparator determines.
use mathlib.Core.List.{Perm}
use mathlib.Core.List.Perm
use better_mta.Prelude.{
  ℕ, zero, suc, ◌≡◌, refl, ◌⊎◌, inl, inr, Bool, true, false, List, [], ◌∷◌, Memᴰ, All, arith,
  Ordering, first, some, map, Memᴰ-of_map, if◌then◌else◌, Bool-cases, take, Memᴰ-All, Memᴰ-take,
}
use better_mta.Prelude.Compare.{IsOrder, is_lt}

module _ {ℓ} {A : Type ℓ} where
  Memᴰ-swap : {a x y : A} {xs : List A} → Memᴰ a (y ∷ x ∷ xs) → Memᴰ a (x ∷ y ∷ xs)
  Memᴰ-swap (Memᴰ.head e) = Memᴰ.tail (Memᴰ.head e)
  Memᴰ-swap (Memᴰ.tail (Memᴰ.head e)) = Memᴰ.head e
  Memᴰ-swap (Memᴰ.tail (Memᴰ.tail m)) = Memᴰ.tail (Memᴰ.tail m)

  Memᴰ-cons_map :
      {a y : A} {xs ys : List A} → (Memᴰ a xs → Memᴰ a ys) → Memᴰ a (y ∷ xs) → Memᴰ a (y ∷ ys)
  Memᴰ-cons_map f (Memᴰ.head e) = Memᴰ.head e
  Memᴰ-cons_map f (Memᴰ.tail m) = Memᴰ.tail (f m)

module _ {ℓ} {A : Type ℓ} (c : A → A → Ordering) where
  -- `a` goes strictly before `b`.
  abbrev pub precedes : A → A → Bool
  precedes a b = is_lt (c a b)

  -- Puts `x`, which stood in front of the rest, behind the items that strictly precede it.
  insert : A → List A → List A
  insert x [] = x ∷ []
  insert x (y ∷ ys) = let later = y ∷ insert x ys in if precedes y x then later else x ∷ y ∷ ys

  unfoldable pub sort : List A → List A
  unfolding insert
  sort [] = []
  sort (x ∷ xs) = insert x (sort xs)

  -- No item strictly precedes one that stands before it.
  abbrev pub IsRanked : List A → Type ℓ
  IsRanked [] = Unit
  IsRanked (x ∷ xs) = ((y : A) → Memᴰ y xs → precedes y x ≡ false) × IsRanked xs

  Memᴰ-of_insert : (x : A) (xs : List A) {a : A} → Memᴰ a (insert x xs) → Memᴰ a (x ∷ xs)
  unfolding insert
  Memᴰ-of_insert x [] m = m
  Memᴰ-of_insert x (y ∷ ys) m = elim (Bool-cases (precedes y x)) [
    | inr stop ↦ rw stop at m
    | inl go ↦ Memᴰ-swap (Memᴰ-cons_map (Memᴰ-of_insert x ys) (rw go at m))
  ]

  Memᴰ-insert : (x : A) (xs : List A) {a : A} → Memᴰ a (x ∷ xs) → Memᴰ a (insert x xs)
  unfolding insert
  Memᴰ-insert x [] m = m
  Memᴰ-insert x (y ∷ ys) m = elim (Bool-cases (precedes y x)) [
    | inr stop ↦ rw stop m
    | inl go ↦ rw go (Memᴰ-cons_map (Memᴰ-insert x ys) (Memᴰ-swap m))
  ]

  pub Memᴰ-of_sort : (xs : List A) {a : A} → Memᴰ a (sort xs) → Memᴰ a xs
  unfolding sort
  Memᴰ-of_sort [] m = m
  Memᴰ-of_sort (x ∷ xs) m = Memᴰ-cons_map (Memᴰ-of_sort xs) (Memᴰ-of_insert x (sort xs) m)

  pub Memᴰ-sort : (xs : List A) {a : A} → Memᴰ a xs → Memᴰ a (sort xs)
  unfolding sort
  Memᴰ-sort [] m = m
  Memᴰ-sort (x ∷ xs) m = Memᴰ-insert x (sort xs) (Memᴰ-cons_map (Memᴰ-sort xs) m)

  insert-perm : (x : A) (xs : List A) → Perm (insert x xs) (x ∷ xs)
  unfolding insert
  insert-perm x [] = Perm.rfl
  insert-perm x (y ∷ ys) = elim (Bool-cases (precedes y x)) [
    | inr stop ↦ rw stop Perm.rfl
    | inl go ↦ rw go (Perm.trans (Perm.cons y (insert-perm x ys)) (Perm.swap x y ys))
  ]

  pub sort-perm : (xs : List A) → Perm (sort xs) xs
  unfolding sort
  sort-perm [] = Perm.rfl
  sort-perm (x ∷ xs) = Perm.trans (insert-perm x (sort xs)) (Perm.cons x (sort-perm xs))

module _ {ℓ} {A : Type ℓ} {P : A → Type 0} (c : A → A → Ordering) (o : IsOrder P c) where
  precedes_back : (a b : A) → P a → P b → precedes c a b ≡ true → precedes c b a ≡ false
  precedes_back a b p q h = ground (arith, o.swaps a b p q)

  not-precedes_trans :
      (x y z : A)
      → P x
      → P y
      → P z
      → precedes c y x ≡ false
      → precedes c z y ≡ false
      → precedes c z x ≡ false
  not-precedes_trans x y z p q r h k =
      ground (arith, o.swaps x y p q, o.swaps z x r p, o.swaps z y r q, o.chains x y z p q r)

  insert-IsRanked :
      (x : A) (xs : List A) → P x → All P xs → IsRanked c xs → IsRanked c (insert c x xs)
  unfolding insert
  insert-IsRanked x [] p ps r = ((λ y m. elim m [ ]), tt)
  insert-IsRanked x (y ∷ ys) p ps r = elim (Bool-cases (precedes c y x)) [
    | inr stop ↦ rw stop ((λ z m. behind stop z m), r)
    | inl go ↦
        rw go ((λ z m. after go z (Memᴰ-of_insert c x ys m)), insert-IsRanked x ys p ps.1 r.1)
  ]
    where
      behind : precedes c y x ≡ false → (z : A) → Memᴰ z (y ∷ ys) → precedes c z x ≡ false
      behind stop z (Memᴰ.head e) = rw e stop
      behind stop z (Memᴰ.tail m) =
          not-precedes_trans x y z p ps.0 (Memᴰ-All P ys ps.1 m) stop (r.0 z m)

      after : precedes c y x ≡ true → (z : A) → Memᴰ z (x ∷ ys) → precedes c z y ≡ false
      after go z (Memᴰ.head e) = rw e (precedes_back y x ps.0 p go)
      after go z (Memᴰ.tail m) = r.0 z m

  insert-All : (x : A) (xs : List A) → P x → All P xs → All P (insert c x xs)
  unfolding insert
  insert-All x [] p ps = (p, tt)
  insert-All x (y ∷ ys) p ps = ground (arith, insert-All x ys p ps.1)

  sort-All : (xs : List A) → All P xs → All P (sort c xs)
  unfolding sort
  sort-All [] ps = tt
  sort-All (x ∷ xs) ps = insert-All x (sort c xs) ps.0 (sort-All xs ps.1)

  pub sort-IsRanked : (xs : List A) → All P xs → IsRanked c (sort c xs)
  unfolding sort
  sort-IsRanked [] ps = tt
  sort-IsRanked (x ∷ xs) ps =
      insert-IsRanked x (sort c xs) ps.0 (sort-All xs ps.1) (sort-IsRanked xs ps.1)

module _ {ℓ} {A : Type ℓ} (c : A → A → Ordering) where
  pub IsRanked-take : (n : ℕ) (xs : List A) → IsRanked c xs → IsRanked c (take n xs)
  IsRanked-take zero xs r = tt
  IsRanked-take (suc n) [] r = tt
  IsRanked-take (suc n) (x ∷ xs) r = ((λ y m. r.0 y (Memᴰ-take n xs m)), IsRanked-take n xs r.1)

  -- Every item of a ranked list is among the first `n`, or strictly precedes none of them.
  pub take-best :
      (n : ℕ) (xs : List A) {a b : A}
      → IsRanked c xs
      → Memᴰ a xs
      → Memᴰ b (take n xs)
      → Memᴰ a (take n xs) ⊎ (precedes c a b ≡ false)
  take-best zero xs r m k = elim k [ ]
  take-best (suc n) [] r m k = elim m [ ]
  take-best (suc n) (x ∷ xs) r (Memᴰ.head e) k = inl (Memᴰ.head e)
  take-best (suc n) (x ∷ xs) {a} r (Memᴰ.tail m) (Memᴰ.head e) = inr (rw e (r.0 a m))
  take-best (suc n) (x ∷ xs) r (Memᴰ.tail m) (Memᴰ.tail k) = elim (take-best n xs r.1 m k) [
    | inl l ↦ inl (Memᴰ.tail l)
    | inr f ↦ inr f
  ]

  -- The first item of a ranked list is strictly preceded by no other.
  pub first-best :
      (n : ℕ) (xs : List A) {a : A}
      → IsRanked c xs
      → Memᴰ a xs
      → (x : A) × (first (take (suc n) xs) ≡ some x)
        × Memᴰ x (take (suc n) xs)
        × ((a ≡ x) ⊎ (precedes c a x ≡ false))
  first-best n [] r m = elim m [ ]
  first-best n (x ∷ xs) r (Memᴰ.head e) = (x, refl, Memᴰ.head refl, inl e)
  first-best n (x ∷ xs) {a} r (Memᴰ.tail m) = (x, refl, Memᴰ.head refl, inr (r.0 a m))

module _ {ℓ κ} {A : Type ℓ} (R : A → A → Type κ) where
  -- `R` holds between each item and every later one.
  abbrev pub IsPairwise : List A → Type (ℓ ⊔ κ)
  IsPairwise [] = Unit
  IsPairwise (x ∷ xs) = ((y : A) → Memᴰ y xs → R x y) × IsPairwise xs

  pub IsPairwise-take : (n : ℕ) (xs : List A) → IsPairwise xs → IsPairwise (take n xs)
  IsPairwise-take zero xs r = tt
  IsPairwise-take (suc n) [] r = tt
  IsPairwise-take (suc n) (x ∷ xs) r = ((λ y m. r.0 y (Memᴰ-take n xs m)), IsPairwise-take n xs r.1)

  module _ (c : A → A → Ordering) (symmetric : (a b : A) → R a b → R b a) where
    insert-IsPairwise :
        (x : A) (xs : List A)
        → ((y : A) → Memᴰ y xs → R x y)
        → IsPairwise xs
        → IsPairwise (insert c x xs)
    unfolding insert
    insert-IsPairwise x [] h r = (h, r)
    insert-IsPairwise x (y ∷ ys) h r = elim (Bool-cases (precedes c y x)) [
      | inr stop ↦ rw stop (h, r)
      | inl go ↦ rw go (
        (λ z m. after z (Memᴰ-of_insert c x ys m)),
        insert-IsPairwise x ys (λ z m. h z (Memᴰ.tail m)) r.1,
      )
    ]
      where
        after : (z : A) → Memᴰ z (x ∷ ys) → R y z
        after z (Memᴰ.head e) = rw e (symmetric x y (h y (Memᴰ.head refl)))
        after z (Memᴰ.tail m) = r.0 z m

    -- Sorting keeps a symmetric relation between the items.
    pub sort-IsPairwise : (xs : List A) → IsPairwise xs → IsPairwise (sort c xs)
    unfolding sort
    sort-IsPairwise [] r = tt
    sort-IsPairwise (x ∷ xs) r =
        insert-IsPairwise x (sort c xs) (λ y m. r.0 y (Memᴰ-of_sort c xs m))
          (sort-IsPairwise xs r.1)

module _ {ℓ κ μ ν} {A : Type ℓ} {B : Type κ} (R : A → A → Type μ) (S : B → B → Type ν) where
  pub IsPairwise-map :
      (f : A → B)
      → ((a b : A) → R a b → S (f a) (f b))
      → (xs : List A) → IsPairwise R xs
      → IsPairwise S (map f xs)
  IsPairwise-map f keep [] r = tt
  IsPairwise-map f keep (x ∷ xs) r =
      ((λ y m. moved y (Memᴰ-of_map f xs m)), IsPairwise-map f keep xs r.1)
    where
      moved : (y : B) → (a : A) × Memᴰ a xs × (y ≡ f a) → S (f x) y
      moved y (a, m, e) = rw e (keep x a (r.0 a m))
