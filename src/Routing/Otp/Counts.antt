-- ===== src/Routing/Otp/Counts.antt =====
-- services/routing/src/otp-provider/provider.ts: the rejections of an answer, counted by their reason.
use better_mta.Prelude.{
  ◌≡◌, refl, sym, ap, ◌∙◌, ℕ, suc, ◌+◌, Bool, true, false, Option, List, [], ◌∷◌, ◌++◌, arith, inl,
  inr,
}
use mathlib.Core.List.{append_assoc, append-nil}
use better_mta.Routing.Types.{Host, Draft}
use better_mta.Routing.Otp.Types.{
  Engine, returned, OtpItinerary, MapContext, OtpRejectReason, empty_legs, non_chronological,
  zero_duration_transit, unmappable_route, missing_times,
}
use better_mta.Routing.Otp.Map.{
  MapResult, mapped, rejected, map_raised, map_one_itinerary, RejectionCounts, no_rejections, total,
  bump, MapItinerariesResult, map_step, map_from,
}
use better_mta.Routing.Otp.Laws.{map_from-nil, map_from-raised, map_from-returned, Attempt-cases}
use better_mta.Routing.Otp.Provider.{add_counts}

-- The counter of a reason.
abbrev pub count_of : OtpRejectReason → RejectionCounts → ℕ
count_of empty_legs n = n.empty_legs_count
count_of non_chronological n = n.non_chronological_count
count_of zero_duration_transit n = n.zero_duration_count
count_of unmappable_route n = n.unmappable_count
count_of missing_times n = n.missing_times_count

abbrev pub same_reason : OtpRejectReason → OtpRejectReason → Bool
same_reason empty_legs empty_legs = true
same_reason non_chronological non_chronological = true
same_reason zero_duration_transit zero_duration_transit = true
same_reason unmappable_route unmappable_route = true
same_reason missing_times missing_times = true
same_reason _ _ = false

-- One for an itinerary that is rejected for the reason.
abbrev pub hits : OtpRejectReason → MapResult → ℕ
hits r (rejected s) = elim (same_reason r s) [ true ↦ 1 | false ↦ 0 ]
hits r (mapped d) = 0
hits r (map_raised m) = 0

-- One for an itinerary that is rejected.
abbrev pub any_hit : MapResult → ℕ
any_hit (rejected s) = 1
any_hit (mapped d) = 0
any_hit (map_raised m) = 0

abbrev pub draft_list : MapResult → List Draft
draft_list (mapped d) = d ∷ []
draft_list (rejected s) = []
draft_list (map_raised m) = []

module _ (host : Host) (engine : Engine) (ctx : MapContext) where
  -- The drafts of the itineraries from this number on.
  abbrev pub drafts_of : ℕ → List (Option OtpItinerary) → List Draft
  drafts_of i [] = []
  drafts_of i (it ∷ its) =
      draft_list (map_one_itinerary host engine it i ctx) ++ drafts_of (suc i) its

  -- How many of them are rejected for a reason.
  abbrev pub rejections_of : OtpRejectReason → ℕ → List (Option OtpItinerary) → ℕ
  rejections_of r i [] = 0
  rejections_of r i (it ∷ its) =
      hits r (map_one_itinerary host engine it i ctx) + rejections_of r (suc i) its

  -- How many of them are rejected.
  abbrev pub rejected_of : ℕ → List (Option OtpItinerary) → ℕ
  rejected_of i [] = 0
  rejected_of i (it ∷ its) =
      any_hit (map_one_itinerary host engine it i ctx) + rejected_of (suc i) its

returned-injective : {x y : MapItinerariesResult} → returned x ≡ returned y → x ≡ y
returned-injective h = cc

count_of-bump :
    (r s : OtpRejectReason) (n : RejectionCounts)
    → count_of r (bump n s) ≡ count_of r n + hits r (rejected s)
unfolding bump
count_of-bump r s n = ground arith

total-bump : (s : OtpRejectReason) (n : RejectionCounts) → total (bump n s) ≡ total n + 1
unfolding bump
total-bump s n = ground arith

pub count_of-no_rejections : (r : OtpRejectReason) → count_of r no_rejections ≡ 0
count_of-no_rejections r = ground arith

pub count_of-add_counts :
    (r : OtpRejectReason) (n m : RejectionCounts)
    → count_of r (add_counts n m) ≡ count_of r n + count_of r m
count_of-add_counts r n m = ground arith

module _ (host : Host) (engine : Engine) (ctx : MapContext) where
  -- The result has what the itineraries give behind what was there before.
  unfoldable pub Gathers :
      ℕ → List (Option OtpItinerary) → MapItinerariesResult → MapItinerariesResult → Type 0
  Gathers i its before after =
      (after.drafts ≡ before.drafts ++ drafts_of host engine ctx i its)
      × ((r : OtpRejectReason)
          → count_of r after.rejection_counts
            ≡ count_of r before.rejection_counts + rejections_of host engine ctx r i its)
      × (total after.rejection_counts
          ≡ total before.rejection_counts + rejected_of host engine ctx i its)

  -- What one round of the loop adds.
  Adds : MapResult → MapItinerariesResult → MapItinerariesResult → Type 0
  Adds r before after =
      (after.drafts ≡ before.drafts ++ draft_list r)
      × ((s : OtpRejectReason)
          → count_of s after.rejection_counts ≡ count_of s before.rejection_counts + hits s r)
      × (total after.rejection_counts ≡ total before.rejection_counts + any_hit r)

  map_step-Adds :
      (r : MapResult) (before after : MapItinerariesResult)
      → map_step r before ≡ returned after
      → Adds r before after
  unfolding Adds map_step
  map_step-Adds (map_raised m) before after h = cc
  map_step-Adds (mapped d) before after h =
      let same = returned-injective h in rw (← same) (refl, (λ s. omega arith), omega arith)
  map_step-Adds (rejected s) before after h =
      let same = returned-injective h in
      rw (← same) (
        sym (append-nil before.drafts),
        (λ r. count_of-bump r s before.rejection_counts),
        total-bump s before.rejection_counts,
      )

  pub map_from-Gathers :
      (i : ℕ) (its : List (Option OtpItinerary)) (before after : MapItinerariesResult)
      → map_from host engine ctx i its before ≡ returned after
      → Gathers i its before after
  unfolding Gathers Adds
  map_from-Gathers i [] before after h =
      let same = returned-injective (sym (map_from-nil host engine ctx i before) ∙ h) in
      rw (← same) (sym (append-nil before.drafts), (λ r. omega arith), omega arith)
  map_from-Gathers i (it ∷ its) before after h =
      let result = map_one_itinerary host engine it i ctx in
      elim (Attempt-cases (map_step result before)) [
        | inl (m, e) ↦ cc (sym (map_from-raised host engine ctx i it its before m e) ∙ h)
        | inr (next, e) ↦
            let (d, c, t) = map_step-Adds result before next e in
            let (d', c', t') =
              map_from-Gathers (suc i) its next after
                (sym (map_from-returned host engine ctx i it its before next e) ∙ h) in
            (
              d'
                  ∙ ap (λ ds. ds ++ drafts_of host engine ctx (suc i) its) d
                  ∙ append_assoc before.drafts (draft_list result)
                      (drafts_of host engine ctx (suc i) its),
              (λ r. let a = c r in let b = c' r in omega arith),
              omega arith,
            )
      ]
