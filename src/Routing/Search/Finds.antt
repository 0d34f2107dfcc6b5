-- ===== src/Routing/Search/Finds.antt =====
-- When a search finds itineraries.
use mathlib.Core.Path.{subst}
use better_mta.Prelude.{
  ℕ, ◌<◌, ◌≡◌, refl, ap, sym, ◌∙◌, true, false, List, [], ◌∷◌, Memᴰ, arith, inl, inr, length, any,
  is_empty, any-of_Memᴰ, Memᴰ-map,
}
use better_mta.Prelude.Text.{Text}
use better_mta.Routing.Types.{Host, Draft, DataMode, CandidateSearchRequest, Tally, ok}
use better_mta.Routing.Satisfaction.{normalize_selected_line_ids}
use better_mta.Routing.Satisfaction.Selection.{normalize_selected_line_ids_idempotent}
use better_mta.Routing.Validate.{valid, validate_candidate_draft}
use better_mta.Routing.Search.{
  CandidateProvider, drafted, found, SearchResults, valid_drafts, is_transit, is_exhausted,
  is_unavailable, has_transit, normalized_request, run_route_search, settle, judge, search_drafts,
  outcome_of, rejection_counts, constrained_results, present,
}
use better_mta.Routing.Search.Pure.{
  enriched, enriched_all, best_arrival, baseline_list, constrained_list, results, search_drafts-ok,
}
use better_mta.Routing.Search.Members.{constrained_pool-covers}
use better_mta.Routing.Search.Laws.{Memᴰ-of_valid_drafts, results-cases}
use better_mta.Routing.Search.Summary.{list-head}

module _ {ℓ} {A : Type ℓ} where
  is_empty-of_Memᴰ : (xs : List A) {a : A} → Memᴰ a xs → is_empty xs ≡ false
  is_empty-of_Memᴰ [] m = elim m [ ]
  is_empty-of_Memᴰ (x ∷ xs) m = refl

outcome_of-some :
    (n : ℕ) (r : SearchResults) → is_empty r.constrained ≡ false → outcome_of n r ≡ found r
unfolding outcome_of
outcome_of-some n r h = ground arith

module _ (host : Host) (mode : DataMode) (selected : List Text) (drafts : List Draft)
    (gated : (d : Draft) → Memᴰ d drafts → validate_candidate_draft host d ≡ valid) (d : Draft)
    (m : Memᴰ d drafts) where
  has_transit-enriched :
      any is_transit d.legs ≡ true → any has_transit (enriched_all host mode selected drafts) ≡ true
  unfolding enriched_all enriched present
  has_transit-enriched h =
      any-of_Memᴰ has_transit _
        (Memᴰ-map (enriched host mode selected (best_arrival host mode drafts)) drafts m) h

  constrained_list-some : is_empty (constrained_list host mode selected drafts) ≡ false
  constrained_list-some =
      let (e, l, k, f) = constrained_pool-covers host mode selected drafts d m in
      let (x, _, n, _) = list-head host mode selected drafts gated k in is_empty-of_Memᴰ _ n

  constrained-some :
      (counts : Tally)
      → is_empty
          (constrained_results mode
            (length selected)
            counts
            (baseline_list host mode selected drafts)
            (constrained_list host mode selected drafts)).constrained
        ≡ false
  unfolding constrained_results
  constrained-some counts = constrained_list-some

  outcome_of-results :
      (n : ℕ) (counts : Tally)
      → 0 < length selected
      → outcome_of n (results host mode selected drafts counts)
        ≡ found (results host mode selected drafts counts)
  outcome_of-results n counts some_line = elim (results-cases host mode selected drafts counts) [
    | inl (_, none) ↦ ground arith
    | inr (e, _) ↦
        subst (λ r. outcome_of n r ≡ found r) (sym e)
          (outcome_of-some n _ (constrained-some counts))
  ]

  search_drafts-finds :
      (counts : Tally)
      → normalize_selected_line_ids selected ≡ ok selected
      → 0 < length selected
      → any is_transit d.legs ≡ true
      → search_drafts host mode selected counts drafts
        ≡ ok (found (results host mode selected drafts counts))
  search_drafts-finds counts stable some_line h =
      search_drafts-ok host mode selected drafts counts stable
      ∙ rw (has_transit-enriched h) (ap ok (outcome_of-results (length selected) counts some_line))

-- A search with selected lines finds itineraries if the snapshot is available and the provider answers
-- with drafts of which none is the sentinel of exhausted coverage and one passes the validity gate and
-- has a transit leg.
pub run_route_search-finds :
    (host : Host) (provider : CandidateProvider) (request : CandidateSearchRequest)
    (selected : List Text) (drafts : List Draft) (d : Draft)
    → normalize_selected_line_ids request.selected_line_ids ≡ ok selected
    → 0 < length selected
    → is_unavailable request.snapshot.data_mode ≡ false
    → provider (normalized_request request selected) ≡ drafted drafts
    → any is_exhausted drafts ≡ false
    → Memᴰ d (valid_drafts host drafts)
    → any is_transit d.legs ≡ true
    → (r : SearchResults) × (run_route_search host provider request ≡ ok (found r))
unfolding run_route_search settle judge
run_route_search-finds host provider request selected drafts d normalized some_line available
      answered trusted m rides =
    let stable = normalize_selected_line_ids_idempotent _ selected normalized in
    let (k, _) = Memᴰ-of_valid_drafts host drafts m in
    (
      results host request.snapshot.data_mode selected (valid_drafts host drafts)
          (rejection_counts host drafts []),
      rw (normalized, available, answered)
          (rw (is_empty-of_Memᴰ drafts k, trusted, is_empty-of_Memᴰ _ m)
            (search_drafts-finds host request.snapshot.data_mode selected (valid_drafts host drafts)
              (λ e n. (Memᴰ-of_valid_drafts host drafts n).1) d m (rejection_counts host drafts [])
              stable some_line rides)),
    )
