-- ===== src/Routing/Ranking/Order.antt =====
-- The comparators of services/routing/src/ranking.ts against the criteria of ADR-0007.
use mathlib.Core.List.{Perm}
use native.Mathlib.Nat.{add-zero}
use better_mta.Prelude.{
  ℕ, ◌≡◌, refl, ap, ◌∙◌, Bool, true, false, not, List, arith, Ordering, compare, if◌then◌else◌, All,
  nat_eqb,
}
use better_mta.Prelude.Int.{pos, compare_ℤ-sub}
use better_mta.Prelude.Text.{
  Text, ◌===◌, ===_sound, ===_refl, text_ltb, compare_text, compare_text_refl, compare_text-eq,
}
use better_mta.Prelude.Compare.{
  IsOrder, then_by, then_by-IsOrder, reversed-IsOrder, key-IsOrder, same-IsOrder, compare-IsOrder,
  compare_text-IsOrder, is_eq,
}
use better_mta.Prelude.Number.{
  Number, number, sign, ◌-ₙ◌, number_eqb, IsNumber, compare_number, compare_number-IsOrder,
  sign-sub,
}
use better_mta.Prelude.Sort.{IsRanked, sort-IsRanked, sort-perm}
use better_mta.Routing.Types.{RankedItinerary}
use better_mta.Routing.Ranking.{
  realtime_confidence_rank, text_order, compare_baseline, compare_constrained, rank_baseline,
  rank_constrained,
}

then_by-eq : (o : Ordering) → then_by o Ordering.eq ≡ o
then_by-eq o = ground arith

-- The criteria, each as a comparison: what comes first is `lt`.
abbrev pub by_satisfaction : RankedItinerary → RankedItinerary → Ordering
by_satisfaction a b = compare b.satisfaction.satisfaction_count a.satisfaction.satisfaction_count

abbrev pub by_arrival : RankedItinerary → RankedItinerary → Ordering
by_arrival a b = compare_text a.arrival_time b.arrival_time

abbrev pub by_transfers : RankedItinerary → RankedItinerary → Ordering
by_transfers a b = compare_number a.transfer_count b.transfer_count

abbrev pub by_walking : RankedItinerary → RankedItinerary → Ordering
by_walking a b = compare_number a.walking_seconds b.walking_seconds

abbrev pub by_confidence : RankedItinerary → RankedItinerary → Ordering
by_confidence a b =
    compare (realtime_confidence_rank b.realtime_confidence)
      (realtime_confidence_rank a.realtime_confidence)

abbrev pub by_fingerprint : RankedItinerary → RankedItinerary → Ordering
by_fingerprint a b = compare_text a.fingerprint b.fingerprint

-- CONSTRAINED_RANKING_ORDER of the contract, from its second entry on.
abbrev pub by_time_criteria : RankedItinerary → RankedItinerary → Ordering
by_time_criteria a b = then_by (by_arrival a b) (
    then_by (by_transfers a b)
      (then_by (by_walking a b) (then_by (by_confidence a b) (by_fingerprint a b))))

-- CONSTRAINED_RANKING_ORDER of the contract.
abbrev pub by_all_criteria : RankedItinerary → RankedItinerary → Ordering
by_all_criteria a b = then_by (by_satisfaction a b) (by_time_criteria a b)

-- The metrics that are compared are numbers, not NaN.
pub record IsRankable (i : RankedItinerary) : Type 0 where
  pub transfers : IsNumber i.transfer_count
  pub walking : IsNumber i.walking_seconds

-- A test for a difference and then a comparison make one criterion.
text_criterion :
    (a b : Text) (rest : Number) (o : Ordering)
    → sign rest ≡ o
    → sign (if not (a === b) then text_order a b else rest) ≡ then_by (compare_text a b) o
unfolding text_ltb
text_criterion a b rest o h =
    ground (arith, ===_sound a b, ===_refl a, compare_text_refl a, compare_text-eq a b)

pick :
    (same : Bool) (d rest : Number) (c o : Ordering)
    → same ≡ is_eq c
    → (same ≡ false → sign d ≡ c)
    → sign rest ≡ o
    → sign (if not same then d else rest) ≡ then_by c o
pick true d rest Ordering.lt o e f h = cc
pick true d rest Ordering.eq o e f h = h
pick true d rest Ordering.gt o e f h = cc
pick false d rest Ordering.lt o e f h = f refl
pick false d rest Ordering.eq o e f h = cc
pick false d rest Ordering.gt o e f h = f refl

number_criterion :
    (a b rest : Number) (o : Ordering)
    → IsNumber a
    → IsNumber b
    → sign rest ≡ o
    → sign (if not (number_eqb a b) then a -ₙ b else rest) ≡ then_by (compare_number a b) o
number_criterion a b rest o p q h =
    pick (number_eqb a b) (a -ₙ b) rest (compare_number a b) o (rw (p, q)) (sign-sub a b p q) h

sign-sub_number : (a b : ℕ) → sign (number a -ₙ number b) ≡ compare a b
unfolding ◌-ₙ◌
sign-sub_number a b = compare_ℤ-sub (pos a) (pos b) ∙ (rw (add-zero, add-zero))

nat_criterion :
    (a b : ℕ) (rest : Number) (o : Ordering)
    → sign rest ≡ o
    → sign (if not (nat_eqb a b) then number b -ₙ number a else rest) ≡ then_by (compare b a) o
nat_criterion a b rest o h =
    pick (nat_eqb a b) (number b -ₙ number a) rest (compare b a) o (ground arith)
      (λ _. sign-sub_number b a) h

difference_criterion :
    (a b : ℕ) (rest : Number) (o : Ordering)
    → sign rest ≡ o
    → sign
        (if not (number_eqb (number b -ₙ number a) (number 0)) then number b -ₙ number a else rest)
      ≡ then_by (compare b a) o
difference_criterion a b rest o h =
    pick (number_eqb (number b -ₙ number a) (number 0)) (number b -ₙ number a) rest (compare b a) o
      (zero_difference ∙ ap is_eq (sign-sub_number b a)) (λ _. sign-sub_number b a) h
  where
    zero_difference :
        number_eqb (number b -ₙ number a) (number 0) ≡ is_eq (sign (number b -ₙ number a))
    zero_difference = unfold ◌-ₙ◌ in refl

-- The sign of `compareBaseline` is the lexicographic comparison by arrival, transfers, walking,
-- confidence and fingerprint, for itineraries whose metrics are not NaN.
pub sign-compare_baseline :
    (a b : RankedItinerary)
    → IsRankable a
    → IsRankable b
    → sign (compare_baseline a b) ≡ by_time_criteria a b
unfolding compare_baseline
sign-compare_baseline a b p q = text_criterion _ _ _ _ (
    number_criterion _ _ _ _ p.transfers q.transfers (
      number_criterion _ _ _ _ p.walking q.walking
        (difference_criterion _ _ _ _ (last a.fingerprint b.fingerprint))))
  where
    last :
        (s t : Text) → sign (if not (s === t) then text_order s t else number 0) ≡ compare_text s t
    last s t = text_criterion s t (number 0) Ordering.eq refl ∙ then_by-eq (compare_text s t)

-- The sign of `compareConstrained` is the comparison by the contract's ranking order, satisfaction
-- first, for itineraries whose metrics are not NaN.
pub sign-compare_constrained :
    (a b : RankedItinerary)
    → IsRankable a
    → IsRankable b
    → sign (compare_constrained a b) ≡ by_all_criteria a b
unfolding compare_constrained
sign-compare_constrained a b p q =
    nat_criterion a.satisfaction.satisfaction_count b.satisfaction.satisfaction_count _ _
      (unfold compare_baseline in sign-compare_baseline a b p q)

by_text-IsOrder :
    (f : RankedItinerary → Text) → IsOrder IsRankable (λ a b. compare_text (f a) (f b))
by_text-IsOrder f = key-IsOrder f (λ _ _. tt) compare_text-IsOrder

by_rank-IsOrder : (f : RankedItinerary → ℕ) → IsOrder IsRankable (λ a b. compare (f b) (f a))
by_rank-IsOrder f = key-IsOrder f (λ _ _. tt) (reversed-IsOrder compare-IsOrder)

by_number-IsOrder :
    (f : RankedItinerary → Number)
    → ((i : RankedItinerary) → IsRankable i → IsNumber (f i))
    → IsOrder IsRankable (λ a b. compare_number (f a) (f b))
by_number-IsOrder f keep = key-IsOrder f keep compare_number-IsOrder

by_time_criteria-IsOrder : IsOrder IsRankable by_time_criteria
by_time_criteria-IsOrder = then_by-IsOrder (by_text-IsOrder (λ i. i.arrival_time)) (
    then_by-IsOrder (by_number-IsOrder (λ i. i.transfer_count) (λ i r. r.transfers)) (
      then_by-IsOrder (by_number-IsOrder (λ i. i.walking_seconds) (λ i r. r.walking)) (
        then_by-IsOrder (by_rank-IsOrder (λ i. realtime_confidence_rank i.realtime_confidence))
          (by_text-IsOrder (λ i. i.fingerprint)))))

-- Both comparators order the itineraries whose metrics are not NaN.
pub compare_baseline-IsOrder : IsOrder IsRankable (λ a b. sign (compare_baseline a b))
compare_baseline-IsOrder = same-IsOrder sign-compare_baseline by_time_criteria-IsOrder

pub compare_constrained-IsOrder : IsOrder IsRankable (λ a b. sign (compare_constrained a b))
compare_constrained-IsOrder = same-IsOrder sign-compare_constrained (
    then_by-IsOrder (by_rank-IsOrder (λ i. i.satisfaction.satisfaction_count))
      by_time_criteria-IsOrder)

-- `rankBaseline` rearranges its candidates so that none strictly precedes one before it.
pub rank_baseline_lem :
    (candidates : List RankedItinerary)
    → All IsRankable candidates
    → Perm (rank_baseline candidates) candidates
      × IsRanked (λ a b. sign (compare_baseline a b)) (rank_baseline candidates)
unfolding rank_baseline
rank_baseline_lem candidates h =
    (sort-perm _ candidates, sort-IsRanked _ compare_baseline-IsOrder candidates h)

-- `rankConstrained` rearranges its candidates, whose metrics are not NaN, so that none strictly
-- precedes one before it.
pub rank_constrained_lem :
    (candidates : List RankedItinerary)
    → All IsRankable candidates
    → Perm (rank_constrained candidates) candidates
      × IsRanked (λ a b. sign (compare_constrained a b)) (rank_constrained candidates)
unfolding rank_constrained
rank_constrained_lem candidates h =
    (sort-perm _ candidates, sort-IsRanked _ compare_constrained-IsOrder candidates h)
