-- ===== src/Routing/Search/Lists.antt =====
-- What a search that found itineraries returns in its two lists.
use mathlib.Core.Path.{subst, ap₂, ◌≡⟨◌⟩◌, ◌∎}
use better_mta.Prelude.{
  ◌≤◌, ◌≡◌, refl, sym, ◌∙◌, true, List, [], ◌∷◌, ◌++◌, map, Memᴰ, arith, Bool-cases, ◌⊎◌, inl, inr,
  length, Ordering, Memᴰ-append_cases, All, All-of_Memᴰ, filter, Option,
}
use better_mta.Prelude.Text.{Text}
use better_mta.Prelude.Number.{sign}
use better_mta.Prelude.Sort.{IsRanked, IsPairwise}
use better_mta.Routing.Types.{
  Host, Draft, DataMode, RankedItinerary, CandidateSearchRequest, max_returned_itineraries, ok,
}
use better_mta.Routing.Satisfaction.{normalize_selected_line_ids}
use better_mta.Routing.Validate.{valid, validate_candidate_draft}
use better_mta.Routing.Ranking.{compare_baseline, compare_constrained}
use better_mta.Routing.Search.{
  CandidateProvider, drafted, found, SearchResults, valid_drafts, normalized_request,
  run_route_search, is_baseline_family, present,
}
use better_mta.Routing.Search.Pure.{
  enriched, enriched_all, baseline_pool, baseline_list, constrained_list, family_of,
}
use better_mta.Routing.Search.Members.{
  DifferentFingerprints, Presents, enriched-Presents, Memᴰ-of_baseline_list,
  Memᴰ-of_constrained_list,
}
use better_mta.Routing.Search.Outcome.{Found, run_route_search-Found}
use better_mta.Routing.Search.Laws.{
  Memᴰ-of_valid_drafts, stamp-Presents, baseline_list-IsRanked, constrained_list-IsRanked,
  baseline_list-IsPairwise, constrained_list-IsPairwise, baseline_list-length,
  constrained_list-length, baseline-results, constrained-results,
}

-- The itinerary has the identity, the legs, the times and the metrics of one of the drafts, which
-- passes the validity gate.
abbrev pub IsFrom : Host → List Draft → RankedItinerary → Type 0
IsFrom host drafts i =
    (d : Draft) × Memᴰ d drafts × (validate_candidate_draft host d ≡ valid) × Presents host d i

module _ (host : Host) (provider : CandidateProvider) (request : CandidateSearchRequest)
    (r : SearchResults) (f : Found host provider request r) where
  abbrev kept : List Draft
  kept = valid_drafts host f.drafts

  pub baseline-Found : r.baseline ≡ baseline_list host request.snapshot.data_mode f.selected kept
  baseline-Found =
      rw (f.computed) (baseline-results host request.snapshot.data_mode f.selected kept _)

  pub constrained-Found :
      (r.constrained ≡ [])
      ⊎ (r.constrained ≡ constrained_list host request.snapshot.data_mode f.selected kept)
  constrained-Found =
      rw (f.computed) (constrained-results host request.snapshot.data_mode f.selected kept _)

  Memᴰ-of_constrained :
      {i : RankedItinerary}
      → Memᴰ i r.constrained
      → Memᴰ i (constrained_list host request.snapshot.data_mode f.selected kept)
  Memᴰ-of_constrained m = elim constrained-Found [
    | inl empty ↦ absurd (none (rw empty at m))
    | inr same ↦ rw same at m
  ]
    where
      none : {i : RankedItinerary} → Memᴰ i [] → ⊥
      none m = elim m [ ]

  abbrev IsListed : RankedItinerary → Type 0
  IsListed i = IsFrom host f.drafts i

  baseline-IsListed : (i : RankedItinerary) → Memᴰ i r.baseline → IsListed i
  baseline-IsListed i m =
      let mode = request.snapshot.data_mode in
      let ((d, k, e), _) =
        Memᴰ-of_baseline_list host mode f.selected kept (subst (λ l. Memᴰ i l) baseline-Found m) in
      let (l, v) = Memᴰ-of_valid_drafts host f.drafts k in
      (d, l, v, subst (Presents host d) (sym e) (enriched-Presents host mode f.selected _ d))

  constrained-IsListed : (i : RankedItinerary) → Memᴰ i r.constrained → IsListed i
  constrained-IsListed i m =
      let mode = request.snapshot.data_mode in
      let (d, k, e) = Memᴰ-of_constrained_list host mode f.selected kept (Memᴰ-of_constrained m) in
      let (l, v) = Memᴰ-of_valid_drafts host f.drafts k in
      (
        d,
        l,
        v,
        subst (Presents host d) (sym e) (
            stamp-Presents host mode f.selected kept
              (λ a n. (Memᴰ-of_valid_drafts host f.drafts n).1) d _
              (enriched-Presents host mode f.selected _ d)),
      )

  IsListed-Presents : (i : RankedItinerary) → Memᴰ i (r.baseline ++ r.constrained) → IsListed i
  IsListed-Presents i m = elim (Memᴰ-append_cases r.baseline r.constrained m) [
    | inl b ↦ baseline-IsListed i b
    | inr c ↦ constrained-IsListed i c
  ]

-- No itinerary is made up: the provider answered the normalized request with drafts, and each
-- itinerary listed has the identity, the legs, the times and the metrics of one of these drafts,
-- which passed the validity gate.
pub run_route_search_grounded :
    (host : Host) (provider : CandidateProvider) (request : CandidateSearchRequest)
    (r : SearchResults)
    → run_route_search host provider request ≡ ok (found r)
    → (selected : List Text) × (drafts : List Draft) × (normalize_selected_line_ids
          request.selected_line_ids
        ≡ ok selected)
      × (provider (normalized_request request selected) ≡ drafted drafts)
      × All (IsFrom host drafts) (r.baseline ++ r.constrained)
run_route_search_grounded host provider request r h =
    let f = run_route_search-Found host provider request r h in
    (
      f.selected,
      f.drafts,
      f.normalized,
      f.answered,
      All-of_Memᴰ (IsFrom host f.drafts) _ (IsListed-Presents host provider request r f),
    )

-- A list as it is returned: at most three itineraries, no two with one fingerprint, none of which
-- strictly precedes one before it.
pub record IsTopList (c : RankedItinerary → RankedItinerary → Ordering) (xs : List RankedItinerary)
    : Type 0 where
  pub within : length xs ≤ max_returned_itineraries
  pub distinct : IsPairwise DifferentFingerprints xs
  pub ranked : IsRanked c xs

-- The baseline list is ranked by `compareBaseline` and the constrained one by `compareConstrained`;
-- each has at most three itineraries, and none with the fingerprint of another.
pub run_route_search-IsTopList :
    (host : Host) (provider : CandidateProvider) (request : CandidateSearchRequest)
    (r : SearchResults)
    → run_route_search host provider request ≡ ok (found r)
    → IsTopList (λ a b. sign (compare_baseline a b)) r.baseline
      × IsTopList (λ a b. sign (compare_constrained a b)) r.constrained
run_route_search-IsTopList host provider request r h =
    let f = run_route_search-Found host provider request r h in
    let mode = request.snapshot.data_mode in
    let kept = valid_drafts host f.drafts in
    let gated = λ (d : Draft) (m : Memᴰ d kept). (Memᴰ-of_valid_drafts host f.drafts m).1 in
    (
      rw (baseline-Found host provider request r f) (record {
        within = baseline_list-length host mode f.selected kept;
        distinct = baseline_list-IsPairwise host mode f.selected kept;
        ranked = baseline_list-IsRanked host mode f.selected kept gated;
      }),
      elim (constrained-Found host provider request r f) [
        | inl empty ↦ rw empty (record { within = omega arith; distinct = tt; ranked = tt })
        | inr same ↦ rw same (record {
          within = constrained_list-length host mode f.selected kept;
          distinct = constrained_list-IsPairwise host mode f.selected kept;
          ranked = constrained_list-IsRanked host mode f.selected kept gated;
        })
      ],
    )

module _ (host : Host) (mode : DataMode) (selected : List Text) (best : Option Text) where
  enriched-family :
      (d : Draft) → (enriched host mode selected best d).candidate_family ≡ d.candidate_family
  enriched-family d = (enriched-Presents host mode selected best d).family

  -- A draft of the baseline family is enriched in the same way whatever is selected.
  enriched-baseline :
      (d : Draft)
      → is_baseline_family d.candidate_family ≡ true
      → enriched host mode selected best d ≡ enriched host mode [] best d
  unfolding enriched
  enriched-baseline d h = rw h

  filter-enriched :
      (drafts : List Draft)
      → filter
          (λ i. is_baseline_family i.candidate_family)
          (map (enriched host mode selected best) drafts)
        ≡ map (enriched host mode [] best) (family_of host mode drafts)
  unfolding enriched present
  filter-enriched [] = refl
  filter-enriched (d ∷ drafts) = elim (Bool-cases (is_baseline_family d.candidate_family)) [
    | inl family ↦
        rw (enriched-family d, family) (cc (enriched-baseline d family, filter-enriched drafts))
    | inr other ↦ rw (enriched-family d, other) (filter-enriched drafts)
  ]

baseline_list-unbiased :
    (host : Host) (mode : DataMode) (selected : List Text) (drafts : List Draft)
    → baseline_list host mode selected drafts ≡ baseline_list host mode [] drafts
unfolding baseline_list baseline_pool enriched_all
baseline_list-unbiased host mode selected drafts =
    rw (filter-enriched host mode selected _ drafts, filter-enriched host mode [] _ drafts)

pub drafted-injective : {a b : List Draft} → drafted a ≡ drafted b → a ≡ b
drafted-injective e = cc

-- The baseline list takes no account of the selected lines: two searches with one set of drafts and
-- one data mode that both find itineraries return the same baseline list.
pub run_route_search_unbiased :
    (host : Host) (drafts : List Draft) (request other : CandidateSearchRequest)
    (r s : SearchResults)
    → request.snapshot.data_mode ≡ other.snapshot.data_mode
    → run_route_search host (λ _. drafted drafts) request ≡ ok (found r)
    → run_route_search host (λ _. drafted drafts) other ≡ ok (found s)
    → r.baseline ≡ s.baseline
run_route_search_unbiased host drafts request other r s same h k =
    let f = run_route_search-Found host (λ _. drafted drafts) request r h in
    let g = run_route_search-Found host (λ _. drafted drafts) other s k in
    r.baseline
    ≡⟨ baseline-Found host (λ _. drafted drafts) request r f ⟩
      baseline_list host request.snapshot.data_mode f.selected (valid_drafts host f.drafts)
    ≡⟨ baseline_list-unbiased host request.snapshot.data_mode f.selected
        (valid_drafts host f.drafts) ⟩
      baseline_list host request.snapshot.data_mode [] (valid_drafts host f.drafts)
    ≡⟨ ap₂ (λ (m : DataMode) (ds : List Draft). baseline_list host m [] (valid_drafts host ds)) same
        (drafted-injective (sym f.answered ∙ g.answered)) ⟩
      baseline_list host other.snapshot.data_mode [] (valid_drafts host g.drafts)
    ≡⟨ sym (
        baseline_list-unbiased host other.snapshot.data_mode g.selected
          (valid_drafts host g.drafts)) ⟩
      baseline_list host other.snapshot.data_mode g.selected (valid_drafts host g.drafts)
    ≡⟨ sym (baseline-Found host (λ _. drafted drafts) other s g) ⟩ s.baseline ∎
