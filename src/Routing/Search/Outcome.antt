-- ===== src/Routing/Search/Outcome.antt =====
-- Which outcome `runRouteSearch` comes to, and when it throws.
use better_mta.Prelude.{
  ℕ, ◌≡◌, refl, sym, true, false, ◌&&◌, List, [], arith, Bool-cases, inl, inr, any, length,
  is_empty,
}
use better_mta.Prelude.Text.{Text}
use better_mta.Routing.Types.{
  Host, Draft, DataMode, CandidateSearchRequest, Tally, Result-cases, ok,
}
use better_mta.Routing.Satisfaction.{normalize_selected_line_ids}
use better_mta.Routing.Satisfaction.Selection.{normalize_selected_line_ids_idempotent}
use better_mta.Routing.Search.{
  CandidateProvider, ProviderAnswer, drafted, otp_failed, failed, timed_out, unreachable,
  bad_response, found, SearchResults, valid_drafts, rejection_counts, has_transit, is_exhausted,
  is_unavailable, outcome_of, search_drafts, judge, settle, normalized_request, run_route_search,
}
use better_mta.Routing.Search.Pure.{enriched_all, results, search_drafts-ok}

outcome_of-found :
    (n : ℕ) (r s : SearchResults)
    → outcome_of n r ≡ found s
    → (s ≡ r) × ((is_empty s.baseline && is_empty s.constrained) ≡ false)
unfolding outcome_of
outcome_of-found n r s h = elim (Bool-cases (is_empty r.baseline && is_empty r.constrained)) [
  | inl none_left ↦ cc (rw none_left at h)
  | inr some_left ↦ let same : r ≡ s = cc (rw some_left at h) in (sym same, rw (← same) some_left)
]

-- What is known of a search that found itineraries.
pub record Found (host : Host) (provider : CandidateProvider) (request : CandidateSearchRequest)
    (r : SearchResults) : Type 0 where
  pub selected : List Text
  pub normalized : normalize_selected_line_ids request.selected_line_ids ≡ ok selected
  pub available : is_unavailable request.snapshot.data_mode ≡ false
  pub drafts : List Draft
  pub answered : provider (normalized_request request selected) ≡ drafted drafts
  pub trusted : any is_exhausted drafts ≡ false
  pub rides :
      any has_transit
        (enriched_all host request.snapshot.data_mode selected (valid_drafts host drafts))
      ≡ true
  pub computed :
      r
      ≡ results host request.snapshot.data_mode selected
          (valid_drafts host drafts)
          (rejection_counts host drafts [])
  pub some_left : (is_empty r.baseline && is_empty r.constrained) ≡ false

module _ (host : Host) (mode : DataMode) (selected : List Text)
    (stable : normalize_selected_line_ids selected ≡ ok selected) where
  search_drafts-found :
      (counts : Tally) (drafts : List Draft) (r : SearchResults)
      → search_drafts host mode selected counts drafts ≡ ok (found r)
      → (any has_transit (enriched_all host mode selected drafts) ≡ true)
        × (r ≡ results host mode selected drafts counts)
        × ((is_empty r.baseline && is_empty r.constrained) ≡ false)
  search_drafts-found counts drafts r h =
      elim (Bool-cases (any has_transit (enriched_all host mode selected drafts))) [
        | inr walks ↦ cc (rw (search_drafts-ok host mode selected drafts counts stable, walks) at h)
        | inl rides ↦
            let (same, left) =
              outcome_of-found (length selected) _ r
                (cc (rw (search_drafts-ok host mode selected drafts counts stable, rides) at h)) in
            (rides, same, left)
      ]

  judge-found :
      (drafts : List Draft) (r : SearchResults)
      → judge host mode selected drafts ≡ ok (found r)
      → (any is_exhausted drafts ≡ false)
        × (search_drafts host mode selected
              (rejection_counts host drafts [])
              (valid_drafts host drafts)
            ≡ ok (found r))
  unfolding judge
  judge-found drafts r h = (ground arith, ground arith)

settle-found :
    (host : Host) (mode : DataMode) (selected : List Text) (answer : ProviderAnswer)
    (r : SearchResults)
    → settle host mode selected answer ≡ ok (found r)
    → (drafts : List Draft) × (answer ≡ drafted drafts)
      × (judge host mode selected drafts ≡ ok (found r))
unfolding settle
settle-found host mode selected (drafted drafts) r h = (drafts, refl, h)
settle-found host mode selected (otp_failed timed_out m) r h = cc
settle-found host mode selected (otp_failed unreachable m) r h = cc
settle-found host mode selected (otp_failed bad_response m) r h = cc
settle-found host mode selected (failed m) r h = absurd (none_found m h)
  where
    none_found : (m : Text) → settle host mode selected (failed m) ≡ ok (found r) → ⊥
    none_found m h = ground arith

pub run_route_search-Found :
    (host : Host) (provider : CandidateProvider) (request : CandidateSearchRequest)
    (r : SearchResults)
    → run_route_search host provider request ≡ ok (found r)
    → Found host provider request r
unfolding run_route_search
run_route_search-Found host provider request r h =
    elim (Result-cases (normalize_selected_line_ids request.selected_line_ids)) [
      | inr (e, refused) ↦ absurd (cc (rw refused at h))
      | inl (selected, normalized) ↦ elim (Bool-cases (is_unavailable request.snapshot.data_mode)) [
        | inl down ↦ absurd (cc (rw (normalized, down) at h))
        | inr available ↦
            let stable = normalize_selected_line_ids_idempotent _ selected normalized in
            let (drafts, answered, judged) =
              settle-found host request.snapshot.data_mode selected _ r
                (rw (normalized, available) at h) in
            let (trusted, searched) =
              judge-found host request.snapshot.data_mode selected stable drafts r judged in
            let (rides, computed, left) =
              search_drafts-found host request.snapshot.data_mode selected stable _
                (valid_drafts host drafts) r searched in
            record {
              selected = selected;
              normalized = normalized;
              available = available;
              drafts = drafts;
              answered = answered;
              trusted = trusted;
              rides = rides;
              computed = computed;
              some_left = left;
            }
      ]
    ]
