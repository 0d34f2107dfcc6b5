-- ===== src/Routing/Search/Pure.antt =====
-- The parts of the search as pure functions, for a selection that is normalized, and
-- the proof that the search computes them.
use mathlib.Core.Option
use better_mta.Prelude.{
  ◌≡◌, refl, not, Option, none, List, [], ◌∷◌, map, arith, Bool-cases, inl, inr, if◌then◌else◌,
  nat_eqb, length, filter, any, first,
}
use better_mta.Prelude.Text.{Text}
use better_mta.Routing.Types.{
  Host, Draft, DataMode, RankedItinerary, Tally, max_returned_itineraries, SatisfactionResult,
  Result, ok,
}
use better_mta.Routing.Satisfaction.{normalize_selected_line_ids, satisfaction_of, collect}
use better_mta.Routing.Satisfaction.Laws.{compute_satisfaction-ok}
use better_mta.Routing.Ranking.{rank_baseline, rank_constrained, truncate_top}
use better_mta.Routing.Search.{
  is_baseline_family, present, enrich_candidate, map_result, dedupe_by_fingerprint, restamp,
  with_constrained_satisfaction, has_transit, outcome_of, unconstrained_results,
  constrained_results, conclude, best_baseline_arrival, search_drafts, no_transit_path,
  SearchResults,
}

normalize-nil : normalize_selected_line_ids [] ≡ ok []
unfolding normalize_selected_line_ids collect
normalize-nil = refl

-- `f` never throws, and returns what `g` does.
pub map_result-ok {ℓ κ} :
    {A : Type ℓ} {B : Type κ} (f : A → Result B) (g : A → B) (xs : List A)
    → ((x : A) → f x ≡ ok (g x))
    → map_result f xs ≡ ok (map g xs)
unfolding map_result
map_result-ok f g [] h = refl
map_result-ok f g (x ∷ xs) h = rw (h x) (rw (map_result-ok f g xs h))

module _ (host : Host) (mode : DataMode) where
  -- The satisfaction that a draft is enriched with.
  abbrev pub measured : List Text → Draft → SatisfactionResult
  measured selected d =
      if is_baseline_family d.candidate_family
      then satisfaction_of [] d.legs
      else satisfaction_of selected d.legs

  unfoldable pub enriched : List Text → Option Text → Draft → RankedItinerary
  enriched selected best d = present host d (measured selected d) best mode

  enrich_candidate-ok :
      (selected : List Text) (best : Option Text) (d : Draft)
      → normalize_selected_line_ids selected ≡ ok selected
      → enrich_candidate host d selected best mode ≡ ok (enriched selected best d)
  unfolding enrich_candidate enriched
  enrich_candidate-ok selected best d h =
      elim (Bool-cases (is_baseline_family d.candidate_family)) [
        | inl family ↦ rw (
          compute_satisfaction-ok selected selected d.legs h,
          family,
          compute_satisfaction-ok [] [] d.legs normalize-nil,
        )
        | inr other ↦ rw (compute_satisfaction-ok selected selected d.legs h, other)
      ]

  abbrev pub family_of : List Draft → List Draft
  family_of drafts = filter (λ d. is_baseline_family d.candidate_family) drafts

  -- The arrival of the best candidate of the baseline family.
  unfoldable pub best_arrival : List Draft → Option Text
  best_arrival drafts =
      Option.map (λ i. i.arrival_time)
        (first (rank_baseline (dedupe_by_fingerprint (map (enriched [] none) (family_of drafts)))))

  best_baseline_arrival-ok :
      (drafts : List Draft) → best_baseline_arrival host mode drafts ≡ ok (best_arrival drafts)
  unfolding best_baseline_arrival best_arrival
  best_baseline_arrival-ok drafts = rw (
      map_result-ok _ (enriched [] none) (family_of drafts)
        (λ d. enrich_candidate-ok [] none d normalize-nil))

  module _ (selected : List Text) (drafts : List Draft) where
    -- All candidates, enriched.
    unfoldable pub enriched_all : List RankedItinerary
    enriched_all = map (enriched selected (best_arrival drafts)) drafts

    unfoldable pub baseline_pool : List RankedItinerary
    baseline_pool =
        dedupe_by_fingerprint (filter (λ i. is_baseline_family i.candidate_family) enriched_all)

    unfoldable pub baseline_list : List RankedItinerary
    baseline_list = truncate_top (rank_baseline baseline_pool) max_returned_itineraries

    unfoldable pub stamp : RankedItinerary → RankedItinerary
    stamp i = restamp i (satisfaction_of selected i.legs)

    -- The candidates for the constrained list.
    unfoldable pub constrained_pool : List RankedItinerary
    constrained_pool = map stamp (dedupe_by_fingerprint enriched_all)

    unfoldable pub constrained_list : List RankedItinerary
    constrained_list = truncate_top (rank_constrained constrained_pool) max_returned_itineraries

    abbrev pub results : Tally → SearchResults
    results counts =
        if nat_eqb (length selected) 0
        then unconstrained_results mode counts baseline_list
        else constrained_results mode (length selected) counts baseline_list constrained_list

    with_constrained_satisfaction-ok :
        normalize_selected_line_ids selected ≡ ok selected
        → (i : RankedItinerary) → with_constrained_satisfaction selected i ≡ ok (stamp i)
    unfolding with_constrained_satisfaction stamp
    with_constrained_satisfaction-ok h i = rw (compute_satisfaction-ok selected selected i.legs h)

    concluded :
        (counts : Tally)
        → normalize_selected_line_ids selected ≡ ok selected
        → (if not (any has_transit (map (enriched selected (best_arrival drafts)) drafts))
            then ok (no_transit_path (length selected))
            else conclude host mode selected counts
                (truncate_top
                  (rank_baseline (
                    dedupe_by_fingerprint (
                      filter
                        (λ i. is_baseline_family i.candidate_family)
                        (map (enriched selected (best_arrival drafts)) drafts))))
                  max_returned_itineraries)
                (if nat_eqb (length selected) 0
                  then []
                  else dedupe_by_fingerprint
                      (map (enriched selected (best_arrival drafts)) drafts)))
          ≡ ok (
              if not (any has_transit enriched_all)
              then no_transit_path (length selected)
              else outcome_of (length selected) (results counts))
    unfolding enriched_all baseline_list baseline_pool constrained_list constrained_pool conclude
    concluded counts h = elim (Bool-cases (nat_eqb (length selected) 0)) [
      | inl zero_lines ↦ rw zero_lines (ground arith)
      | inr some_line ↦ rw some_line (
          rw
            (map_result-ok (with_constrained_satisfaction selected) stamp
              (dedupe_by_fingerprint (map (enriched selected (best_arrival drafts)) drafts))
              (with_constrained_satisfaction-ok h))
            (ground arith))
    ]

    -- The search over valid drafts returns, and this is what.
    pub search_drafts-ok :
        (counts : Tally)
        → normalize_selected_line_ids selected ≡ ok selected
        → search_drafts host mode selected counts drafts
          ≡ ok (
              if not (any has_transit enriched_all)
              then no_transit_path (length selected)
              else outcome_of (length selected) (results counts))
    unfolding search_drafts
    search_drafts-ok counts h = rw (best_baseline_arrival-ok drafts) (
        rw
          (map_result-ok (λ d. enrich_candidate host d selected (best_arrival drafts) mode)
            (enriched selected (best_arrival drafts)) drafts
            (λ d. enrich_candidate-ok selected (best_arrival drafts) d h))
          (concluded counts h))
