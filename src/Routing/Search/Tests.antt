-- ===== src/Routing/Search/Tests.antt =====
-- The search, run on a small example.
use better_mta.Prelude.{
  any, arith, All, ◌≡◌, ◌↔◌, ◌⊎◌, refl, sym, ◌∙◌, ap, true, false, List, [], ◌∷◌, ◌++◌, map, Memᴰ,
}
use better_mta.Prelude.Int.{◌+ℤ◌, ◌-ℤ◌}
use better_mta.Prelude.Text.{
  Text, text, ◌===◌, trim, text_ltb, join, includes, compare_text, show_ℕ, trim_start, trim_end,
}
use better_mta.Prelude.Number.{sign, ◌-ₙ◌, ◌+ₙ◌, show}
use better_mta.Prelude.Sort.{sort}
use better_mta.Routing.Types.{ok, throw, Draft, SearchError, provider_failed, live}
use better_mta.Routing.Samples.{host, request, provider, lines, selected, drafts, fast, slow}
use better_mta.Routing.Satisfaction.{
  normalize_selected_line_ids, satisfaction_of, uses_line, compute_satisfaction, assess, collect,
  contains, line_sequence_from_legs, sequence_from, transit_legs_of, compute_per_line_ride_seconds,
  add_to, ride_seconds,
}
use better_mta.Routing.Validate.{
  validate_candidate_draft, count_rejection, is_non_negative, check_legs, overlaps,
}
use better_mta.Routing.Ranking.{
  compare_baseline, compare_constrained, rank_baseline, rank_constrained,
}
use better_mta.Routing.Fingerprint.{fingerprint_itinerary, material, leg_key, transit_key, walk_key}
use better_mta.Routing.Explanation.{
  build_explanation, alert_facts, delta_facts, delta_message, realtime_facts,
  summary_from_satisfaction, transfer_facts, wait_facts, walk_facts,
}
use better_mta.Routing.Search.{
  run_route_search, SearchResults, found, valid_drafts, CandidateProvider, drafted, failed,
  rejection_counts, normalized_request, is_unavailable, is_exhausted, settle, judge, search_drafts,
  best_baseline_arrival, conclude, map_result, enrich_candidate, present, restamp,
  with_constrained_satisfaction, apply_data_mode_confidence, baseline_delta, dedupe_by_fingerprint,
  dedupe_from, constrained_results, unconstrained_results, outcome_of,
}
use better_mta.Routing.Search.Pure.{
  results, best_arrival, enriched, enriched_all, baseline_pool, baseline_list, stamp,
  constrained_pool, constrained_list,
}
use better_mta.Routing.Search.Errors.{IsRethrown, run_route_search-throw_iff}
use better_mta.Routing.Search.Lists.{
  IsFrom, IsTopList, run_route_search_grounded, run_route_search-IsTopList,
  run_route_search_unbiased,
}
use better_mta.Routing.Search.Summary.{FingerprintsTell, fingerprint_of}
use better_mta.Routing.Search.Finds.{run_route_search-finds}
use better_mta.Routing.Search.Complete.{Summarizes, run_route_search-Summarizes}

abbrev listed : SearchResults
listed = results host live selected (valid_drafts host drafts) (rejection_counts host drafts [])

abbrev listed_free : SearchResults
listed_free = results host live [] (valid_drafts host drafts) (rejection_counts host drafts [])

normalized : normalize_selected_line_ids lines ≡ ok selected
unfolding normalize_selected_line_ids ◌===◌ trim
normalized = refl

search_tests :
    (run_route_search host provider (request lines) ≡ ok (found listed))
    × (run_route_search host provider (request []) ≡ ok (found listed_free))
    × (map (λ i. i.itinerary_id) listed.baseline ≡ text "fast" ∷ [])
    × (map (λ i. i.itinerary_id) listed.constrained ≡ text "slow" ∷ text "fast" ∷ [])
    × (listed.satisfaction_summary.best_satisfaction_count ≡ 2)
unfolding run_route_search settle judge search_drafts best_baseline_arrival conclude map_result
    enrich_candidate present restamp with_constrained_satisfaction apply_data_mode_confidence
    baseline_delta dedupe_by_fingerprint dedupe_from constrained_results unconstrained_results
    outcome_of valid_drafts rejection_counts count_rejection validate_candidate_draft
    is_non_negative check_legs overlaps normalize_selected_line_ids compute_satisfaction
    satisfaction_of assess collect contains uses_line line_sequence_from_legs sequence_from
    transit_legs_of compute_per_line_ride_seconds add_to ride_seconds compare_baseline
    compare_constrained rank_baseline rank_constrained fingerprint_itinerary material leg_key
    transit_key walk_key build_explanation alert_facts delta_facts delta_message realtime_facts
    summary_from_satisfaction transfer_facts wait_facts walk_facts sort show compare_text includes
    join show_ℕ text_ltb trim trim_start trim_end ◌===◌ ◌+ₙ◌ ◌-ₙ◌ ◌+ℤ◌ ◌-ℤ◌ best_arrival enriched
    enriched_all baseline_pool baseline_list stamp constrained_pool constrained_list
search_tests = (refl, refl, refl, refl, refl)

gated : valid_drafts host drafts ≡ slow ∷ fast ∷ []
unfolding valid_drafts validate_candidate_draft is_non_negative check_legs overlaps
gated = refl

trusted : any is_exhausted drafts ≡ false
unfolding ◌===◌
trusted = refl

abbrev failing : CandidateProvider
failing _ = failed (text "boom")

abbrev boom : SearchError
boom = provider_failed (text "boom")

run_route_search-throw_iff_example :
    (run_route_search host failing (request lines) ≡ throw boom) ↔ (
      (normalize_selected_line_ids lines ≡ throw boom)
      ⊎ ((s : List Text) × (normalize_selected_line_ids lines ≡ ok s)
          × (is_unavailable live ≡ false)
          × IsRethrown (failing (normalized_request (request lines) s)) boom))
run_route_search-throw_iff_example = run_route_search-throw_iff host failing (request lines) boom

run_route_search_grounded_example :
    (s : List Text) × (ds : List Draft) × (normalize_selected_line_ids lines ≡ ok s)
    × (provider (normalized_request (request lines) s) ≡ drafted ds)
    × All (IsFrom host ds) (listed.baseline ++ listed.constrained)
run_route_search_grounded_example =
    run_route_search_grounded host provider (request lines) listed search_tests.0

run_route_search-IsTopList_example :
    IsTopList (λ a b. sign (compare_baseline a b)) listed.baseline
    × IsTopList (λ a b. sign (compare_constrained a b)) listed.constrained
run_route_search-IsTopList_example =
    run_route_search-IsTopList host provider (request lines) listed search_tests.0

run_route_search_unbiased_example : listed.baseline ≡ listed_free.baseline
run_route_search_unbiased_example =
    run_route_search_unbiased host drafts (request lines) (request []) listed listed_free refl
      search_tests.0 search_tests.1

slow-ne-fast : fingerprint_of host slow ≡ fingerprint_of host fast → ⊥
unfolding fingerprint_itinerary material leg_key transit_key join show show_ℕ transit_legs_of ◌===◌
slow-ne-fast e = let h : false ≡ true = ap (λ t. t === fingerprint_of host fast) e in cc

told : FingerprintsTell host (valid_drafts host drafts)
told = rw gated (record { tell = by_cases })
  where
    by_cases :
        (d e : Draft)
        → Memᴰ d (slow ∷ fast ∷ [])
        → Memᴰ e (slow ∷ fast ∷ [])
        → fingerprint_of host d ≡ fingerprint_of host e
        → (id : Text) → uses_line d.legs id ≡ uses_line e.legs id
    by_cases d e (Memᴰ.head p) (Memᴰ.head q) h id = cc
    by_cases d e (Memᴰ.head p) (Memᴰ.tail (Memᴰ.head q)) h id =
        absurd (slow-ne-fast (sym (ap (fingerprint_of host) p) ∙ h ∙ ap (fingerprint_of host) q))
    by_cases d e (Memᴰ.tail (Memᴰ.head p)) (Memᴰ.head q) h id =
        absurd
          (slow-ne-fast (sym (ap (fingerprint_of host) q) ∙ sym h ∙ ap (fingerprint_of host) p))
    by_cases d e (Memᴰ.tail (Memᴰ.head p)) (Memᴰ.tail (Memᴰ.head q)) h id = cc
    by_cases d e (Memᴰ.tail (Memᴰ.tail m)) n h id = elim m [ ]
    by_cases d e (Memᴰ.head p) (Memᴰ.tail (Memᴰ.tail n)) h id = elim n [ ]
    by_cases d e (Memᴰ.tail (Memᴰ.head p)) (Memᴰ.tail (Memᴰ.tail n)) h id = elim n [ ]

run_route_search-Summarizes_example : Summarizes selected (valid_drafts host drafts) listed
run_route_search-Summarizes_example =
    run_route_search-Summarizes host provider (request lines) selected drafts listed normalized refl
      told search_tests.0

run_route_search-finds_example :
    (r : SearchResults) × (run_route_search host provider (request lines) ≡ ok (found r))
run_route_search-finds_example =
    run_route_search-finds host provider (request lines) selected drafts slow normalized
      (omega arith) refl refl trusted (rw gated (Memᴰ.head refl)) refl
