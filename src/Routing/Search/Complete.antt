-- ===== src/Routing/Search/Complete.antt =====
-- The summary of `runRouteSearch` (services/routing/src/search.ts) against all valid drafts.
use better_mta.Prelude.{
  ℕ, ◌≤◌, ◌≡◌, ◌↔◌, refl, ap, sym, ◌∙◌, true, List, [], ◌∷◌, Memᴰ, arith, Bool-cases, inl, inr,
  length, any, any-of_Memᴰ, Memᴰ-of_any, Memᴰ-of_map, nat_eqb, length-filter,
}
use mathlib.Core.Path.{subst}
use better_mta.Prelude.Text.{Text}
use better_mta.Routing.Types.{
  Host, Draft, DataMode, RankedItinerary, CandidateSearchRequest, Tally, Leg, ok, ok-injective,
}
use better_mta.Routing.Satisfaction.{
  normalize_selected_line_ids, satisfaction_of, uses_line, assess,
}
use better_mta.Routing.Search.{
  CandidateProvider, drafted, found, SearchResults, valid_drafts, normalized_request,
  run_route_search, constrained_results, unconstrained_results, has_transit,
}
use better_mta.Routing.Search.Pure.{enriched, enriched_all, constrained_list, results, best_arrival}
use better_mta.Routing.Search.Members.{Memᴰ-of_constrained_list}
use better_mta.Routing.Search.Outcome.{run_route_search-Found}
use better_mta.Routing.Search.Laws.{Memᴰ-of_valid_drafts, results-cases}
use better_mta.Routing.Search.Summary.{
  count_of, UsesAll, FingerprintsTell, satisfaction-offer, head-covers, is_complete_iff,
}
use better_mta.Routing.Search.Lists.{drafted-injective}
use better_mta.Routing.Validate.{valid, validate_candidate_draft}

complete-count :
    (requested : List Text) (legs : List Leg)
    → ((satisfaction_of requested legs).is_complete ≡ true)
      ↔ (length requested ≤ (satisfaction_of requested legs).satisfaction_count)
unfolding satisfaction_of
complete-count requested legs = elim (Bool-cases (nat_eqb (length requested) 0)) [
  | inl zero_lines ↦ rw zero_lines (ground arith)
  | inr some_line ↦
      rw some_line (unfold assess in (ground (arith, length-filter (uses_line legs) requested)))
]

-- The greatest number of selected lines that a draft uses, and whether one uses them all.
pub record Summarizes (selected : List Text) (drafts : List Draft) (r : SearchResults)
    : Type 0 where
  pub bound :
      (d : Draft)
      → Memᴰ d drafts
      → count_of selected d ≤ r.satisfaction_summary.best_satisfaction_count
  pub attained :
      (d : Draft) × Memᴰ d drafts
      × (count_of selected d ≡ r.satisfaction_summary.best_satisfaction_count)
  pub complete_iff :
      (r.satisfaction_summary.complete_match_found ≡ true)
      ↔ ((d : Draft) × Memᴰ d drafts × UsesAll selected d)
  pub infeasible_iff :
      (r.constraint_infeasible ≡ true) ↔ ((d : Draft) → Memᴰ d drafts → UsesAll selected d → ⊥)

none_selected : {selected : List Text} {id : Text} → length selected ≡ 0 → Memᴰ id selected → ⊥
none_selected {selected = []} h m = elim m [ ]
none_selected {selected = x ∷ xs} h m = ground arith

none_counted : (selected : List Text) → length selected ≡ 0 → (d : Draft) → count_of selected d ≡ 0
unfolding satisfaction_of
none_counted [] h d = refl
none_counted (x ∷ xs) h d = ground arith

module _ (host : Host) (mode : DataMode) (selected : List Text) (drafts : List Draft) where
  some-draft :
      any has_transit (enriched_all host mode selected drafts) ≡ true → (d : Draft) × Memᴰ d drafts
  unfolding enriched_all
  some-draft h =
      let (i, m, _) = Memᴰ-of_any has_transit _ h in
      let (d, k, _) =
        Memᴰ-of_map (enriched host mode selected (best_arrival host mode drafts)) drafts m in
      (d, k)

  listed-satisfaction :
      {x : RankedItinerary}
      → Memᴰ x (constrained_list host mode selected drafts)
      → (d : Draft) × Memᴰ d drafts × (x.satisfaction ≡ satisfaction_of selected d.legs)
  listed-satisfaction m =
      let (d, k, e) = Memᴰ-of_constrained_list host mode selected drafts m in
      (
        d,
        k,
        ap (λ (i : RankedItinerary). i.satisfaction) e
            ∙ satisfaction-offer host mode selected drafts d,
      )

  module _ (gated : (d : Draft) → Memᴰ d drafts → validate_candidate_draft host d ≡ valid)
      (apart : FingerprintsTell host drafts) where
    complete_list_iff :
        (any (λ c. c.satisfaction.is_complete) (constrained_list host mode selected drafts) ≡ true)
        ↔ ((d : Draft) × Memᴰ d drafts × UsesAll selected d)
    complete_list_iff = (to, from)
      where
        to :
            any (λ c. c.satisfaction.is_complete) (constrained_list host mode selected drafts)
              ≡ true
            → (d : Draft) × Memᴰ d drafts × UsesAll selected d
        to h =
            let (x, m, done) = Memᴰ-of_any (λ c. c.satisfaction.is_complete) _ h in
            let (d, k, e) = listed-satisfaction m in
            (d, k, (is_complete_iff selected d).0 (ap (λ s. s.is_complete) (sym e) ∙ done))

        from :
            (d : Draft) × Memᴰ d drafts × UsesAll selected d
            → any (λ c. c.satisfaction.is_complete) (constrained_list host mode selected drafts)
              ≡ true
        from (d, m, all) =
            let (x, _, k, above) = head-covers host mode selected drafts gated apart d m in
            let (e, _, f) = listed-satisfaction k in
            let enough = (complete-count selected d.legs).0 ((is_complete_iff selected d).1 all) in
            any-of_Memᴰ (λ c. c.satisfaction.is_complete) _ k
              (ap (λ s. s.is_complete) f
                ∙ (complete-count selected e.legs).1
                    (omega (arith, above, enough, ap (λ s. s.satisfaction_count) f)))

    constrained_results-Summarizes :
        (counts : Tally) (n : ℕ) (baseline_list : List RankedItinerary)
        → (d : Draft) → Memᴰ d drafts
        → Summarizes selected drafts (
            constrained_results mode n counts baseline_list
              (constrained_list host mode selected drafts))
    unfolding constrained_results
    constrained_results-Summarizes counts n baseline_list d m =
        let (x, head, k, above) = head-covers host mode selected drafts gated apart d m in
        let (e, l, f) = listed-satisfaction k in
        record {
          bound = λ b o.
              let (y, first_y, _, over) = head-covers host mode selected drafts gated apart b o in
              rw first_y over;
          attained = (e, l, rw head (sym (ap (λ s. s.satisfaction_count) f)));
          complete_iff = complete_list_iff;
          infeasible_iff = (
            (λ h b o all. ground (arith, complete_list_iff.1 (b, o, all), h)),
            λ h.
                elim (Bool-cases (
                  any (λ c. c.satisfaction.is_complete)
                    (constrained_list host mode selected drafts))) [
                      | inl t ↦ let (b, o, all) = complete_list_iff.0 t in absurd (h b o all)
                      | inr g ↦ rw g refl
                    ],
          );
        }

    unconstrained_results-Summarizes :
        (counts : Tally) (baseline_list : List RankedItinerary)
        → length selected ≡ 0
        → (d : Draft) → Memᴰ d drafts
        → Summarizes selected drafts (unconstrained_results mode counts baseline_list)
    unfolding unconstrained_results
    unconstrained_results-Summarizes counts baseline_list h d m = record {
      bound = λ b _. omega (arith, none_counted selected h b);
      attained = (d, m, none_counted selected h d);
      complete_iff = ((λ _. (d, m, λ id k. absurd (none_selected h k))), λ _. refl);
      infeasible_iff = ((λ f. cc), λ f. absurd (f d m (λ id k. absurd (none_selected h k))));
    }

    results-Summarizes :
        (counts : Tally)
        → any has_transit (enriched_all host mode selected drafts) ≡ true
        → Summarizes selected drafts (results host mode selected drafts counts)
    results-Summarizes counts h =
        let (d, m) = some-draft h in
        elim (results-cases host mode selected drafts counts) [
          | inl (e, zero_lines) ↦
              subst (Summarizes selected drafts) (sym e)
                (unconstrained_results-Summarizes counts _ zero_lines d m)
          | inr (e, _) ↦
              subst (Summarizes selected drafts) (sym e)
                (constrained_results-Summarizes counts _ _ d m)
        ]

-- The summary of a search that found itineraries is true of all valid drafts, not only of the three
-- itineraries listed, if no two valid drafts that use different lines have one fingerprint: the best
-- satisfaction count is the greatest number of selected lines that a valid draft uses; a complete
-- match is reported exactly when some valid draft uses every selected line, and the constraint is
-- reported infeasible exactly when none does.
pub run_route_search-Summarizes :
    (host : Host) (provider : CandidateProvider) (request : CandidateSearchRequest)
    (selected : List Text) (drafts : List Draft) (r : SearchResults)
    → normalize_selected_line_ids request.selected_line_ids ≡ ok selected
    → provider (normalized_request request selected) ≡ drafted drafts
    → FingerprintsTell host (valid_drafts host drafts)
    → run_route_search host provider request ≡ ok (found r)
    → Summarizes selected (valid_drafts host drafts) r
run_route_search-Summarizes host provider request selected drafts r normalized answered apart h =
    let f = run_route_search-Found host provider request r h in
    let same_lines : f.selected ≡ selected = ok-injective (sym f.normalized ∙ normalized) in
    let same_drafts : f.drafts ≡ drafts =
      drafted-injective (
        sym f.answered ∙ ap (λ s. provider (normalized_request request s)) same_lines ∙ answered) in
    rw (sym same_lines, sym same_drafts)
      (subst (Summarizes f.selected (valid_drafts host f.drafts)) (sym f.computed) (
        results-Summarizes host request.snapshot.data_mode f.selected (valid_drafts host f.drafts)
          (λ d m. (Memᴰ-of_valid_drafts host f.drafts m).1)
          (subst (λ ds. FingerprintsTell host (valid_drafts host ds)) (sym same_drafts) apart) _
          f.rides))
