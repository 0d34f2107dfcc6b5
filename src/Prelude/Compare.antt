-- ===== src/Prelude/Compare.antt =====
-- Three-way comparisons: what makes one an order, and their lexicographic combination.
use better_mta.Prelude.{ℕ, ◌≡◌, refl, Bool, true, false, arith, compare, Ordering, [], ◌∷◌}
use better_mta.Prelude.Int.{ℤ, compare_ℤ}
use better_mta.Prelude.Text.{Text, compare_text}

-- The comparison with its arguments exchanged.
abbrev pub flip : Ordering → Ordering
flip Ordering.lt = Ordering.gt
flip Ordering.eq = Ordering.eq
flip Ordering.gt = Ordering.lt

abbrev pub is_lt : Ordering → Bool
is_lt Ordering.lt = true
is_lt _ = false

abbrev pub is_le : Ordering → Bool
is_le Ordering.gt = false
is_le _ = true

abbrev pub is_eq : Ordering → Bool
is_eq Ordering.eq = true
is_eq _ = false

-- `a` against `b`, `b` against `d`, and then `a` against `d`: what an order allows.
abbrev pub Chains : Ordering → Ordering → Ordering → Type 0
Chains Ordering.gt v w = Unit
Chains Ordering.lt Ordering.gt w = Unit
Chains Ordering.lt Ordering.lt w = w ≡ Ordering.lt
Chains Ordering.lt Ordering.eq w = w ≡ Ordering.lt
Chains Ordering.eq Ordering.gt w = Unit
Chains Ordering.eq Ordering.lt w = w ≡ Ordering.lt
Chains Ordering.eq Ordering.eq w = w ≡ Ordering.eq

-- The first difference decides.
abbrev pub then_by : Ordering → Ordering → Ordering
then_by Ordering.lt o = Ordering.lt
then_by Ordering.eq o = o
then_by Ordering.gt o = Ordering.gt

-- A total preorder on the values that satisfy `P`.
pub record IsOrder {ℓ} {A : Type ℓ} (P : A → Type 0) (c : A → A → Ordering) : Type ℓ where
  pub swaps : (a b : A) → P a → P b → c b a ≡ flip (c a b)
  pub chains : (a b d : A) → P a → P b → P d → Chains (c a b) (c b d) (c a d)

flip-then_by : (u v : Ordering) → then_by (flip u) (flip v) ≡ flip (then_by u v)
flip-then_by Ordering.lt v = refl
flip-then_by Ordering.eq v = refl
flip-then_by Ordering.gt v = refl

Chains-then_by :
    (u v w u' v' w' : Ordering)
    → Chains u v w
    → Chains u' v' w'
    → Chains (then_by u u') (then_by v v') (then_by w w')
Chains-then_by Ordering.gt v w u' v' w' h k = tt
Chains-then_by Ordering.lt Ordering.lt w u' v' w' h k = rw h
Chains-then_by Ordering.lt Ordering.gt w u' v' w' h k = tt
Chains-then_by Ordering.lt Ordering.eq w u' v' w' h k = ground arith
Chains-then_by Ordering.eq Ordering.lt w u' v' w' h k = ground arith
Chains-then_by Ordering.eq Ordering.gt w u' v' w' h k = ground arith
Chains-then_by Ordering.eq Ordering.eq w u' v' w' h k = rw h k

module _ {ℓ} {A : Type ℓ} {P : A → Type 0} {c d : A → A → Ordering} where
  -- Comparing by one order and then by another is an order.
  pub then_by-IsOrder : IsOrder P c → IsOrder P d → IsOrder P (λ a b. then_by (c a b) (d a b))
  then_by-IsOrder oc od = record {
    swaps = λ a b p q. rw (oc.swaps a b p q, od.swaps a b p q) (flip-then_by (c a b) (d a b));
    chains = λ a b e p q r.
        Chains-then_by (c a b) (c b e) (c a e) (d a b) (d b e) (d a e) (oc.chains a b e p q r)
          (od.chains a b e p q r);
  }

module _ {ℓ} {A : Type ℓ} {P : A → Type 0} {c : A → A → Ordering} where
  -- An order is an order backwards too.
  pub reversed-IsOrder : IsOrder P c → IsOrder P (λ a b. c b a)
  reversed-IsOrder o = record {
    swaps = λ a b p q. o.swaps b a q p;
    chains = λ a b e p q r. backwards (c b a) (c e b) (c e a) (o.chains e b a r q p);
  }
    where
      backwards : (u v w : Ordering) → Chains v u w → Chains u v w
      backwards Ordering.lt Ordering.lt w h = h
      backwards Ordering.lt Ordering.eq w h = h
      backwards Ordering.lt Ordering.gt w h = tt
      backwards Ordering.eq Ordering.lt w h = h
      backwards Ordering.eq Ordering.eq w h = h
      backwards Ordering.eq Ordering.gt w h = tt
      backwards Ordering.gt v w h = tt

  -- A comparison that agrees with an order where `P` holds is one.
  pub same-IsOrder :
      {d : A → A → Ordering} → ((a b : A) → P a → P b → d a b ≡ c a b) → IsOrder P c → IsOrder P d
  same-IsOrder same o = record {
    swaps = λ a b p q. rw (same a b p q, same b a q p) (o.swaps a b p q);
    chains = λ a b e p q r. rw (same a b p q, same b e q r, same a e p r) (o.chains a b e p q r);
  }

module _ {ℓ κ} {A : Type ℓ} {B : Type κ} {P : A → Type 0} {c : A → A → Ordering} where
  -- An order on a key is an order on what has the key.
  pub key-IsOrder :
      {Q : B → Type 0} (f : B → A)
      → ((b : B) → Q b → P (f b))
      → IsOrder P c
      → IsOrder Q (λ a b. c (f a) (f b))
  key-IsOrder f keep o = record {
    swaps = λ a b p q. o.swaps (f a) (f b) (keep a p) (keep b q);
    chains = λ a b e p q r. o.chains (f a) (f b) (f e) (keep a p) (keep b q) (keep e r);
  }

abbrev pub Anything {ℓ} : {A : Type ℓ} → A → Type 0
Anything a = Unit

pub compare-IsOrder : IsOrder Anything compare
compare-IsOrder = record { swaps = λ a b p q. swap a b; chains = λ a b d p q r. chain a b d }
  where
    swap : (a b : ℕ) → compare b a ≡ flip (compare a b)
    swap a b = ground arith

    chain : (a b d : ℕ) → Chains (compare a b) (compare b d) (compare a d)
    chain a b d = ground arith

pub compare_ℤ-IsOrder : IsOrder Anything compare_ℤ
compare_ℤ-IsOrder = record { swaps = λ a b p q. swap a b; chains = λ a b d p q r. chain a b d }
  where
    swap : (a b : ℤ) → compare_ℤ b a ≡ flip (compare_ℤ a b)
    swap a b = ground arith

    chain : (a b d : ℤ) → Chains (compare_ℤ a b) (compare_ℤ b d) (compare_ℤ a d)
    chain a b d = ground arith

compare_text-flip : (a b : Text) → compare_text b a ≡ flip (compare_text a b)
unfolding compare_text
compare_text-flip [] [] = refl
compare_text-flip [] (_ ∷ _) = refl
compare_text-flip (_ ∷ _) [] = refl
compare_text-flip (x ∷ xs) (y ∷ ys) = ground (arith, compare_text-flip xs ys)

compare_text-Chains :
    (a b d : Text) → Chains (compare_text a b) (compare_text b d) (compare_text a d)
unfolding compare_text
compare_text-Chains [] [] [] = refl
compare_text-Chains [] [] (_ ∷ _) = refl
compare_text-Chains [] (_ ∷ _) [] = tt
compare_text-Chains [] (y ∷ ys) (z ∷ zs) = ground arith
compare_text-Chains (_ ∷ _) [] d = tt
compare_text-Chains (x ∷ xs) (y ∷ ys) [] = ground arith
compare_text-Chains (x ∷ xs) (y ∷ ys) (z ∷ zs) = ground (arith, compare_text-Chains xs ys zs)

pub compare_text-IsOrder : IsOrder Anything compare_text
compare_text-IsOrder = record {
  swaps = λ a b p q. compare_text-flip a b;
  chains = λ a b d p q r. compare_text-Chains a b d;
}
