-- ===== src/Data/Versions/Prune.antt =====
-- The loop of `pruneVersions`: that it ends, and what it removes.
use better_mta.Prelude.{
  ℕ, zero, suc, ◌+◌, ◌≤◌, ◌≡◌, refl, ap, sym, ◌∙◌, true, false, not, ◌&&◌, Option, none, some, List,
  [], ◌∷◌, ◌++◌, map, filter, all, length, ltb, arith, Bool-cases, inl, inr, ◌⊎◌, length-append,
  if◌then◌else◌,
}
use better_mta.Prelude.Text.{Text}
use better_mta.Data.Versions.{Dated, is_active, prune_loop, enough}
use mathlib.Core.List.{append_assoc}

module _ (active : Option Text) where
  -- The number of active versions in front of the first other one.
  lead : List Dated → ℕ
  lead [] = 0
  lead (d ∷ ds) = let rest = lead ds in if is_active active d then suc rest else 0

  lead-length : (ds : List Dated) → lead ds ≤ length ds
  unfolding lead
  lead-length [] = omega arith
  lead-length (d ∷ ds) = ground (arith, lead-length ds)

  all-rotated :
      (d : Dated) (ds : List Dated)
      → is_active active d ≡ true
      → all (is_active active) (ds ++ (d ∷ [])) ≡ all (is_active active) ds
  all-rotated d [] h = rw h refl
  all-rotated d (e ∷ ds) h = ap (λ b. is_active active e && b) (all-rotated d ds h)

  lead-rotated :
      (d : Dated) (ds : List Dated)
      → all (is_active active) ds ≡ false
      → lead (ds ++ (d ∷ [])) ≡ lead ds
  unfolding lead
  lead-rotated d [] h = cc
  lead-rotated d (e ∷ ds) h = ground (arith, lead-rotated d ds)

  -- The rounds that the loop takes at most.
  abbrev rounds : ℕ → ℕ
  rounds zero = 1
  rounds (suc n) = suc (enough n)

  need : List Dated → ℕ
  need ds = lead ds + rounds (length ds)

  rounds-enough : (n : ℕ) → n + rounds n ≤ enough n
  rounds-enough zero = omega arith
  rounds-enough (suc n) = omega arith

  need-enough : (ds : List Dated) → need ds ≤ enough (length ds)
  unfolding need
  need-enough ds = omega (arith, lead-length ds, rounds-enough (length ds))

  -- The versions that are not active, by id.
  abbrev pub others : List Dated → List Text
  others ds = map (λ d. d.0) (filter (λ d. not (is_active active d)) ds)

  others-rotated :
      (d : Dated) (ds : List Dated)
      → is_active active d ≡ true
      → others (ds ++ (d ∷ [])) ≡ others ds
  others-rotated d [] h = rw h refl
  others-rotated d (e ∷ ds) h = ground (arith, others-rotated d ds h)

-- What the loop does: of the versions that are not active it removes some from the front, none is lost, and
-- at most `retain` are left, or none that is not active.
pub record IsPruned (retain : ℕ) (active : Option Text) (before : List Dated) (removed : List Text)
    (kept : List Dated) (out : List Text) : Type 0 where
  pub in_order : out ++ others active kept ≡ removed ++ others active before
  pub counted : length kept + length out ≡ length before + length removed
  pub bounded : (length kept ≤ retain) ⊎ (all (is_active active) kept ≡ true)

-- The answer of a loop that ends.
abbrev pub Ends : Option (List Dated × List Text) → (List Dated → List Text → Type 0) → Type 0
Ends none P = ⊥
Ends (some (kept, out)) P = P kept out

Ends-map :
    {P Q : List Dated → List Text → Type 0} (o : Option (List Dated × List Text))
    → ((kept : List Dated) (out : List Text) → P kept out → Q kept out)
    → Ends o P
    → Ends o Q
Ends-map none f h = h
Ends-map (some (kept, out)) f h = f kept out h

module _ (retain : ℕ) (active : Option Text) (d : Dated) (ds : List Dated)
    (removed : List Text) where
  need-removed :
      (fuel : ℕ)
      → is_active active d ≡ false
      → need active (d ∷ ds) ≤ suc fuel
      → need active ds ≤ fuel
  unfolding need lead
  need-removed fuel other h = ground (arith, need-enough active ds)

  need-rotated :
      (fuel : ℕ)
      → is_active active d ≡ true
      → all (is_active active) (ds ++ (d ∷ [])) ≡ false
      → need active (d ∷ ds) ≤ suc fuel
      → need active (ds ++ (d ∷ [])) ≤ fuel
  unfolding need lead
  need-rotated fuel mine more h =
      let lead-same = lead-rotated active d ds (sym (all-rotated active d ds mine) ∙ more) in
      ground (arith, length-append ds (d ∷ []), lead-same)

  removed-IsPruned :
      is_active active d ≡ false
      → (kept : List Dated) (out : List Text)
      → IsPruned retain active ds (removed ++ (d.0 ∷ [])) kept out
      → IsPruned retain active (d ∷ ds) removed kept out
  removed-IsPruned other kept out h = record {
    in_order = rw other (h.in_order ∙ append_assoc removed (d.0 ∷ []) (others active ds));
    counted = omega (arith, h.counted, length-append removed (d.0 ∷ []));
    bounded = h.bounded;
  }

  rotated-IsPruned :
      is_active active d ≡ true
      → (kept : List Dated) (out : List Text)
      → IsPruned retain active (ds ++ (d ∷ [])) removed kept out
      → IsPruned retain active (d ∷ ds) removed kept out
  rotated-IsPruned mine kept out h = record {
    in_order = rw mine (h.in_order ∙ ap (λ ids. removed ++ ids) (others-rotated active d ds mine));
    counted = omega (arith, h.counted, length-append ds (d ∷ []));
    bounded = h.bounded;
  }

prune_loop-IsPruned :
    (fuel retain : ℕ) (active : Option Text) (ds : List Dated) (removed : List Text)
    → need active ds ≤ fuel
    → Ends (prune_loop fuel retain active ds removed) (IsPruned retain active ds removed)
unfolding prune_loop need lead
prune_loop-IsPruned zero retain active [] removed h = omega arith
prune_loop-IsPruned zero retain active (d ∷ ds) removed h = omega arith
prune_loop-IsPruned (suc fuel) retain active [] removed h = record {
  in_order = refl;
  counted = refl;
  bounded = inl (omega arith);
}
prune_loop-IsPruned (suc fuel) retain active (d ∷ ds) removed h =
    elim (Bool-cases (ltb retain (suc (length ds)))) [
      | inr few ↦
          rw (prune_loop, few)
            (record { in_order = refl; counted = refl; bounded = inl (ground arith) })
      | inl many ↦ elim (Bool-cases (is_active active d)) [
        | inr other ↦
            rw (prune_loop, many, other)
              (Ends-map _ (removed-IsPruned retain active d ds removed other) (
                prune_loop-IsPruned fuel retain active ds _
                  (need-removed retain active d ds removed fuel other h)))
        | inl mine ↦ elim (Bool-cases (all (is_active active) (ds ++ (d ∷ [])))) [
          | inl only ↦
              rw (prune_loop, many, mine, only)
                (rotated-IsPruned retain active d ds removed mine _ _
                  (record { in_order = refl; counted = refl; bounded = inr only }))
          | inr more ↦
              rw (prune_loop, many, mine, more)
                (Ends-map _ (rotated-IsPruned retain active d ds removed mine) (
                  prune_loop-IsPruned fuel retain active (ds ++ (d ∷ [])) removed
                    (need-rotated retain active d ds removed fuel mine more h)))
        ]
      ]
    ]

-- The loop of `pruneVersions` ends within the rounds that the model gives it, for any list of versions. It removes versions from the
-- oldest on, in order, passing over the active one; nothing else is lost, and in the end there are
-- at most as many versions as are to be retained, or the active one alone.
pub prune_loop-enough :
    (retain : ℕ) (active : Option Text) (dated : List Dated)
    → Ends
        (prune_loop (enough (length dated)) retain active dated [])
        (IsPruned retain active dated [])
prune_loop-enough retain active dated =
    prune_loop-IsPruned (enough (length dated)) retain active dated [] (need-enough active dated)
