-- ===== src/Routing/Satisfaction/Laws.antt =====
-- What `computeSatisfaction` and `lineSequenceFromLegs` promise.
use better_mta.Prelude.{
  ◌+◌, ◌<◌, ◌≡◌, ◌↔◌, refl, ap, sym, inl, inr, Bool, true, false, not, List, [], ◌∷◌, ◌++◌, map,
  Memᴰ, arith, Bool-cases, length, filter, nat_eqb, nat_eqb_iff, ◌||◌, Memᴰ-map, Memᴰ-of_map,
  Memᴰ-filter, Memᴰ-of_filter,
}
use mathlib.Core.Path.{fun_ext}
use better_mta.Prelude.Text.{Text, ===_sound}
use better_mta.Routing.Types.{
  Leg, transit, walk, TransitLeg, SatisfactionResult, complete, partial, infeasible, not_applicable,
  Result-cases, ok,
}
use better_mta.Routing.Satisfaction.{
  contains, transit_legs_of, uses_line, assess, nothing_requested, satisfaction_of,
  compute_satisfaction, normalize_selected_line_ids, sequence_from, line_sequence_from_legs,
}
use better_mta.Routing.Satisfaction.Sets.{
  IsDistinct, IsDistinct-snoc, contains-append, contains-of_Memᴰ, Memᴰ-of_contains,
}

Memᴰ-transit_legs_of :
    (legs : List Leg) (t : TransitLeg) → Memᴰ (transit t) legs → Memᴰ t (transit_legs_of legs)
unfolding transit_legs_of
Memᴰ-transit_legs_of [] t m = elim m [ ]
Memᴰ-transit_legs_of (transit u ∷ legs) t (Memᴰ.head e) = Memᴰ.head (cc)
Memᴰ-transit_legs_of (transit u ∷ legs) t (Memᴰ.tail m) = Memᴰ.tail (Memᴰ-transit_legs_of legs t m)
Memᴰ-transit_legs_of (walk w ∷ legs) t (Memᴰ.head e) = cc
Memᴰ-transit_legs_of (walk w ∷ legs) t (Memᴰ.tail m) = Memᴰ-transit_legs_of legs t m

Memᴰ-of_transit_legs_of :
    (legs : List Leg) (t : TransitLeg) → Memᴰ t (transit_legs_of legs) → Memᴰ (transit t) legs
unfolding transit_legs_of
Memᴰ-of_transit_legs_of [] t m = elim m [ ]
Memᴰ-of_transit_legs_of (transit u ∷ legs) t (Memᴰ.head e) = Memᴰ.head (ap transit e)
Memᴰ-of_transit_legs_of (transit u ∷ legs) t (Memᴰ.tail m) =
    Memᴰ.tail (Memᴰ-of_transit_legs_of legs t m)
Memᴰ-of_transit_legs_of (walk w ∷ legs) t m = Memᴰ.tail (Memᴰ-of_transit_legs_of legs t m)

-- A line counts as used exactly when a transit leg of the itinerary runs on it.
pub uses_line_iff :
    (legs : List Leg) (id : Text)
    → (uses_line legs id ≡ true) ↔ ((t : TransitLeg) × Memᴰ (transit t) legs × (t.line_id ≡ id))
unfolding uses_line
uses_line_iff legs id = (to, from)
  where
    to : uses_line legs id ≡ true → (t : TransitLeg) × Memᴰ (transit t) legs × (t.line_id ≡ id)
    to h =
        let (t, m, e) =
          Memᴰ-of_map (λ leg. leg.line_id) (transit_legs_of legs) (Memᴰ-of_contains _ id h) in
        (t, Memᴰ-of_transit_legs_of legs t m, sym e)

    from : (t : TransitLeg) × Memᴰ (transit t) legs × (t.line_id ≡ id) → uses_line legs id ≡ true
    from (t, m, e) = contains-of_Memᴰ _ (
        rw (← e)
          (Memᴰ-map (λ leg. leg.line_id) (transit_legs_of legs) (Memᴰ-transit_legs_of legs t m)))

length-of_Memᴰ {ℓ} : {A : Type ℓ} {a : A} {xs : List A} → Memᴰ a xs → 0 < length xs
length-of_Memᴰ (Memᴰ.head e) = omega arith
length-of_Memᴰ (Memᴰ.tail m) = omega arith

module _ {ℓ} {A : Type ℓ} (p : A → Bool) where
  length-filter_split :
      (xs : List A) → length (filter p xs) + length (filter (λ x. not (p x)) xs) ≡ length xs
  length-filter_split [] = omega arith
  length-filter_split (x ∷ xs) = ground (arith, length-filter_split xs)

  -- Everything passes when nothing is lost.
  filter-All : (xs : List A) → length (filter p xs) ≡ length xs → (a : A) → Memᴰ a xs → p a ≡ true
  filter-All xs h a m = elim (Bool-cases (p a)) [
    | inl t ↦ t
    | inr f ↦ absurd (
        omega (
          arith,
          length-filter_split xs,
          length-of_Memᴰ (Memᴰ-filter (λ x. not (p x)) xs m (rw f)),
        ))
  ]

  filter-full : (xs : List A) → ((a : A) → Memᴰ a xs → p a ≡ true) → filter p xs ≡ xs
  filter-full [] h = refl
  filter-full (x ∷ xs) h =
      rw (h x (Memᴰ.head refl)) (ap (◌∷◌ x) (filter-full xs (λ a m. h a (Memᴰ.tail m))))

  filter-none : (xs : List A) → length (filter p xs) ≡ 0 → (a : A) → Memᴰ a xs → p a ≡ false
  filter-none xs h a m = elim (Bool-cases (p a)) [
    | inr f ↦ f
    | inl t ↦ absurd (omega (arith, length-of_Memᴰ (Memᴰ-filter p xs m t)))
  ]

module _ {ℓ} {A : Type ℓ} (p q : A → Bool) where
  filter-same : (xs : List A) → ((a : A) → p a ≡ q a) → filter p xs ≡ filter q xs
  filter-same [] h = refl
  filter-same (x ∷ xs) h = ground (arith, h x, filter-same xs h)

-- What the satisfaction of an itinerary says of its legs.
pub record IsSatisfactionOf (legs : List Leg) (s : SatisfactionResult) : Type 0 where
  pub satisfied_iff :
      (id : Text)
      → Memᴰ id s.satisfied_line_ids ↔ (Memᴰ id s.requested_line_ids × (uses_line legs id ≡ true))
  pub omitted_iff :
      (id : Text)
      → Memᴰ id s.omitted_line_ids ↔ (Memᴰ id s.requested_line_ids × (uses_line legs id ≡ false))
  pub counted : s.satisfaction_count ≡ length s.satisfied_line_ids
  pub requested : s.requested_count ≡ length s.requested_line_ids
  pub split : s.satisfaction_count + length s.omitted_line_ids ≡ s.requested_count
  pub complete_iff :
      (s.is_complete ≡ true)
      ↔ ((id : Text) → Memᴰ id s.requested_line_ids → uses_line legs id ≡ true)
  pub not_applicable_iff : (s.feasibility ≡ not_applicable) ↔ (s.requested_count ≡ 0)
  pub feasible_iff : (s.feasibility ≡ complete) ↔ ((0 < s.requested_count) × (s.is_complete ≡ true))
  pub partial_iff :
      (s.feasibility ≡ partial)
      ↔ ((0 < s.satisfaction_count) × (s.satisfaction_count < s.requested_count))
  pub infeasible_iff :
      (s.feasibility ≡ infeasible) ↔ ((0 < s.requested_count) × (s.satisfaction_count ≡ 0))

not-eq-true_iff : (b : Bool) → (not b ≡ true) ↔ (b ≡ false)
not-eq-true_iff b = ground arith

module _ (legs : List Leg) (requested : List Text) where
  kept_iff :
      (p : Text → Bool) (id : Text)
      → Memᴰ id (filter p requested) ↔ (Memᴰ id requested × (p id ≡ true))
  kept_iff p id =
      ((λ m. Memᴰ-of_filter p requested m), λ both. Memᴰ-filter p requested both.0 both.1)

  lost_iff :
      (id : Text)
      → Memᴰ id (filter (λ i. not (uses_line legs i)) requested)
        ↔ (Memᴰ id requested × (uses_line legs id ≡ false))
  lost_iff id =
      let (to, from) = kept_iff (λ i. not (uses_line legs i)) id in
      (
        (λ m. let (k, h) = to m in (k, (not-eq-true_iff _).0 h)),
        λ both. from (both.0, (not-eq-true_iff _).1 both.1),
      )

  all_used_iff :
      (nat_eqb (length (filter (uses_line legs) requested)) (length requested) ≡ true)
      ↔ ((id : Text) → Memᴰ id requested → uses_line legs id ≡ true)
  all_used_iff = (
    (λ h. filter-All (uses_line legs) requested (ground arith)),
    λ h. (nat_eqb_iff _ _).1 (ap length (filter-full (uses_line legs) requested h)),
  )

  assess-IsSatisfactionOf : 0 < length requested → IsSatisfactionOf legs (assess requested legs)
  unfolding assess
  assess-IsSatisfactionOf some_line =
      let split = length-filter_split (uses_line legs) requested in
      record {
        satisfied_iff = kept_iff (uses_line legs);
        omitted_iff = lost_iff;
        counted = refl;
        requested = refl;
        split = split;
        complete_iff = all_used_iff;
        not_applicable_iff = ground arith;
        feasible_iff = ground arith;
        partial_iff = ground (arith, split);
        infeasible_iff = ground (arith, split);
      }

nothing_requested-IsSatisfactionOf : (legs : List Leg) → IsSatisfactionOf legs nothing_requested
nothing_requested-IsSatisfactionOf legs = record {
  satisfied_iff = λ id. ((λ m. elim m [ ]), λ both. both.0);
  omitted_iff = λ id. ((λ m. elim m [ ]), λ both. both.0);
  counted = refl;
  requested = refl;
  split = refl;
  complete_iff = ((λ h id m. elim m [ ]), λ h. refl);
  not_applicable_iff = ground arith;
  feasible_iff = ground arith;
  partial_iff = ground arith;
  infeasible_iff = ground arith;
}

pub satisfaction_of-IsSatisfactionOf :
    (requested : List Text) (legs : List Leg)
    → IsSatisfactionOf legs (satisfaction_of requested legs)
unfolding satisfaction_of
satisfaction_of-IsSatisfactionOf requested legs = elim (Bool-cases (nat_eqb (length requested) 0)) [
  | inl zero_lines ↦ rw zero_lines (nothing_requested-IsSatisfactionOf legs)
  | inr some_line ↦ rw some_line (assess-IsSatisfactionOf legs requested (ground arith))
]

pub requested-satisfaction_of :
    (requested : List Text) (legs : List Leg)
    → (satisfaction_of requested legs).requested_line_ids ≡ requested
unfolding satisfaction_of assess
requested-satisfaction_of [] legs = refl
requested-satisfaction_of (x ∷ xs) legs = ground arith

pub compute_satisfaction-ok :
    (ids requested : List Text) (legs : List Leg)
    → normalize_selected_line_ids ids ≡ ok requested
    → compute_satisfaction ids legs ≡ ok (satisfaction_of requested legs)
unfolding compute_satisfaction
compute_satisfaction-ok ids requested legs h = rw h

-- When the satisfaction of an itinerary is computed, its requested ids are the normalized selection;
-- the satisfied ids are those of them that a transit leg uses and the omitted ids are the others;
-- the counts are those of the lists and add up; it is complete exactly when every requested line is
-- used, and the feasibility is the case that the counts describe.
pub compute_satisfaction-IsSatisfactionOf :
    (ids : List Text) (legs : List Leg) (s : SatisfactionResult)
    → compute_satisfaction ids legs ≡ ok s
    → (normalize_selected_line_ids ids ≡ ok s.requested_line_ids) × IsSatisfactionOf legs s
unfolding compute_satisfaction
compute_satisfaction-IsSatisfactionOf ids legs s h =
    elim (Result-cases (normalize_selected_line_ids ids)) [
      | inr (e, failed) ↦ cc (rw failed at h)
      | inl (requested, done) ↦
          let same : satisfaction_of requested legs ≡ s = cc (rw done at h) in
          rw (← same)
            (rw requested-satisfaction_of done, satisfaction_of-IsSatisfactionOf requested legs)
    ]

-- The satisfaction depends on which lines are used, not on how often or in what order.
pub satisfaction_of-same_lines :
    (requested : List Text) (legs other : List Leg)
    → ((id : Text) → uses_line legs id ≡ uses_line other id)
    → satisfaction_of requested legs ≡ satisfaction_of requested other
unfolding satisfaction_of assess
satisfaction_of-same_lines requested legs other same = rw (fun_ext same)

sequence_from-IsDistinct :
    (legs : List TransitLeg) (seq : List Text)
    → IsDistinct seq
    → IsDistinct (sequence_from legs seq)
unfolding sequence_from
sequence_from-IsDistinct [] seq d = d
sequence_from-IsDistinct (leg ∷ legs) seq d = elim (Bool-cases (contains seq leg.line_id)) [
  | inl old ↦ rw old (sequence_from-IsDistinct legs seq d)
  | inr new ↦ rw new (
      sequence_from-IsDistinct legs (seq ++ leg.line_id ∷ [])
        (IsDistinct-snoc seq leg.line_id d new))
]

contains-sequence_from :
    (legs : List TransitLeg) (seq : List Text) (id : Text)
    → contains (sequence_from legs seq) id
      ≡ (contains seq id || contains (map (λ leg. leg.line_id) legs) id)
unfolding sequence_from contains
contains-sequence_from [] seq id = ground arith
contains-sequence_from (leg ∷ legs) seq id = elim (Bool-cases (contains seq leg.line_id)) [
  | inl old ↦ ground (arith, contains-sequence_from legs seq id, ===_sound leg.line_id id)
  | inr new ↦ ground (
    arith,
    contains-sequence_from legs (seq ++ leg.line_id ∷ []) id,
    contains-append seq (leg.line_id ∷ []) id,
  )
]

-- The line sequence has no line twice, and holds exactly the lines that the itinerary uses.
pub line_sequence_from_legs_lem :
    (legs : List Leg)
    → IsDistinct (line_sequence_from_legs legs)
      × ((id : Text) → contains (line_sequence_from_legs legs) id ≡ uses_line legs id)
unfolding line_sequence_from_legs uses_line
line_sequence_from_legs_lem legs = (
  sequence_from-IsDistinct (transit_legs_of legs) [] tt,
  λ id. contains-sequence_from (transit_legs_of legs) [] id,
)
