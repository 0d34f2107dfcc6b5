-- ===== src/Routing/Search.antt =====
-- services/routing/src/search.ts. A promise is its result; what the code throws is a `throw`. The
-- enrichment of one candidate is in `Enrich`; the proofs are in the modules below.
mod Enrich
pub mod Pure
pub mod Members
pub mod Outcome
pub mod Errors
pub mod Laws
pub mod Lists
pub mod Summary
pub mod Complete
pub mod Finds
mod Tests
unfoldable pub use Enrich.{
  apply_data_mode_confidence, enrich_candidate, map_result, dedupe_by_fingerprint,
  with_constrained_satisfaction, present, restamp, baseline_delta, dedupe_from,
}
pub use Enrich.{is_baseline_family}
use better_mta.Prelude.{
  ℕ, Bool, true, false, not, ◌&&◌, Option, none, some, List, [], ◌∷◌, if◌then◌else◌, or_else,
  nat_eqb, length, filter, any, is_empty, first,
}
use mathlib.Core.Option
use better_mta.Prelude.Text.{Text, text, ◌===◌, includes}
use better_mta.Routing.Types.{
  Host, Leg, transit, walk, Draft, DataMode, schedule_only, stale, unavailable, RankedItinerary,
  CandidateSearchRequest, Tally, max_returned_itineraries, Result, ok, throw, provider_failed,
  ◌>>=◌,
}
use better_mta.Routing.Satisfaction.{normalize_selected_line_ids}
use better_mta.Routing.Validate.{
  DraftValidationResult, valid, rejected, validate_candidate_draft, count_rejection,
}
use better_mta.Routing.Ranking.{rank_baseline, rank_constrained, truncate_top}

pub data OtpErrorKind : Type 0 where
  timed_out unreachable bad_response : OtpErrorKind

-- What `generateCandidates` comes to: drafts, an `OtpProviderError`, or another error's message.
pub data ProviderAnswer : Type 0 where
  drafted : List Draft → ProviderAnswer
  otp_failed : OtpErrorKind → Text → ProviderAnswer
  failed : Text → ProviderAnswer

abbrev pub CandidateProvider : Type 0
CandidateProvider = CandidateSearchRequest → ProviderAnswer

pub record SatisfactionSummary : Type 0 where
  pub best_satisfaction_count : ℕ
  pub requested_count : ℕ
  pub complete_match_found : Bool

pub record SearchResults : Type 0 where
  pub baseline : List RankedItinerary
  pub constrained : List RankedItinerary
  pub satisfaction_summary : SatisfactionSummary
  pub constraint_infeasible : Bool
  pub data_degradation : Option DataMode
  pub invalid_draft_rejection_counts : Tally

pub data RouteSearchOutcome : Type 0 where
  found : SearchResults → RouteSearchOutcome
  no_transit_path : ℕ → RouteSearchOutcome
  insufficient_candidate_coverage data_unavailable timeout : ℕ → Text → RouteSearchOutcome

abbrev pub is_accepted : DraftValidationResult → Bool
is_accepted valid = true
is_accepted (rejected _) = false

-- The drafts that pass the validity gate.
unfoldable pub valid_drafts : Host → List Draft → List Draft
valid_drafts host drafts = filter (λ d. is_accepted (validate_candidate_draft host d)) drafts

abbrev count_result : Tally → DraftValidationResult → Tally
count_result counts valid = counts
count_result counts (rejected reason) = count_rejection counts reason

-- The counts of those that do not, by reason.
unfoldable pub rejection_counts : Host → List Draft → Tally → Tally
rejection_counts host [] counts = counts
rejection_counts host (d ∷ drafts) counts =
    rejection_counts host drafts (count_result counts (validate_candidate_draft host d))

abbrev pub is_transit : Leg → Bool
is_transit (transit _) = true
is_transit (walk _) = false

abbrev pub has_transit : RankedItinerary → Bool
has_transit itinerary = any is_transit itinerary.legs

abbrev pub is_exhausted : Draft → Bool
is_exhausted d = d.itinerary_id === text "__coverage_exhausted__"

abbrev pub degradation : DataMode → Option DataMode
degradation schedule_only = some schedule_only
degradation stale = some stale
degradation _ = none

abbrev pub is_unavailable : DataMode → Bool
is_unavailable unavailable = true
is_unavailable _ = false

abbrev pub best_count : Option RankedItinerary → ℕ
best_count none = 0
best_count (some best) = best.satisfaction.satisfaction_count

-- The outcome without selected lines.
unfoldable pub unconstrained_results : DataMode → Tally → List RankedItinerary → SearchResults
unconstrained_results mode counts baseline_list = record {
  baseline = baseline_list;
  constrained = [];
  satisfaction_summary = record {
    best_satisfaction_count = 0;
    requested_count = 0;
    complete_match_found = true;
  };
  constraint_infeasible = false;
  data_degradation = degradation mode;
  invalid_draft_rejection_counts = counts;
}

-- The outcome with selected lines, from the constrained list that is returned.
unfoldable pub constrained_results :
    DataMode → ℕ → Tally → List RankedItinerary → List RankedItinerary → SearchResults
constrained_results mode requested counts baseline_list constrained_list =
    let complete_found = any (λ c. c.satisfaction.is_complete) constrained_list in
    record {
      baseline = baseline_list;
      constrained = constrained_list;
      satisfaction_summary = record {
        best_satisfaction_count = best_count (first constrained_list);
        requested_count = requested;
        complete_match_found = complete_found;
      };
      constraint_infeasible = not complete_found;
      data_degradation = degradation mode;
      invalid_draft_rejection_counts = counts;
    }

-- Empty lists are reported as a missing path.
unfoldable pub outcome_of : ℕ → SearchResults → RouteSearchOutcome
outcome_of requested results =
    if is_empty results.baseline && is_empty results.constrained
    then no_transit_path requested
    else found results

module _ (host : Host) (mode : DataMode) where
  -- The last part of the search: the constrained list, the summary and the outcome.
  unfoldable pub conclude :
      List Text → Tally → List RankedItinerary → List RankedItinerary → Result RouteSearchOutcome
  conclude selected counts baseline_list constrained_pool =
      let constrained_outcome = (do
        stamped ← map_result (with_constrained_satisfaction selected) constrained_pool
        ok (
            outcome_of (length selected) (
              constrained_results mode (length selected) counts baseline_list
                (truncate_top (rank_constrained stamped) max_returned_itineraries)))) in
      if nat_eqb (length selected) 0
      then ok (outcome_of (length selected) (unconstrained_results mode counts baseline_list))
      else constrained_outcome

  -- The arrival that the others are compared with: that of the best baseline candidate.
  unfoldable pub best_baseline_arrival : List Draft → Result (Option Text)
  best_baseline_arrival drafts = do
    preliminary ←
        map_result (λ d. enrich_candidate host d [] none mode)
          (filter (λ d. is_baseline_family d.candidate_family) drafts)
    ok (
        Option.map (λ i. i.arrival_time)
          (first (rank_baseline (dedupe_by_fingerprint preliminary))))

  -- The search over drafts that are valid.
  unfoldable pub search_drafts : List Text → Tally → List Draft → Result RouteSearchOutcome
  search_drafts selected counts drafts = do
    best ← best_baseline_arrival drafts
    enriched ← map_result (λ d. enrich_candidate host d selected best mode) drafts
    let baseline_pool =
        dedupe_by_fingerprint (filter (λ i. is_baseline_family i.candidate_family) enriched)
    let constrained_pool =
        if nat_eqb (length selected) 0 then [] else dedupe_by_fingerprint enriched
    (if not (any has_transit enriched)
        then ok (no_transit_path (length selected))
        else conclude selected counts
            (truncate_top (rank_baseline baseline_pool) max_returned_itineraries) constrained_pool)

  -- The checks on what the provider returned.
  unfoldable pub judge : List Text → List Draft → Result RouteSearchOutcome
  judge selected drafts =
      let kept = valid_drafts host drafts in
      if is_empty drafts
      then ok (no_transit_path (length selected))
      else if any is_exhausted drafts
      then ok (
          insufficient_candidate_coverage (length selected)
            (text "Candidate budget exhausted without trustworthy itineraries."))
      else if is_empty kept
      then ok (no_transit_path (length selected))
      else search_drafts selected (rejection_counts host drafts []) kept

  -- What the search makes of the provider's answer.
  unfoldable pub settle : List Text → ProviderAnswer → Result RouteSearchOutcome
  settle selected (drafted drafts) = judge selected drafts
  settle selected (otp_failed timed_out message) = ok (timeout (length selected) message)
  settle selected (otp_failed _ message) = ok (data_unavailable (length selected) message)
  settle selected (failed message) =
      if includes message (text "INSUFFICIENT_CANDIDATE_COVERAGE")
      then ok (insufficient_candidate_coverage (length selected) message)
      else throw (provider_failed message)

-- The request as the provider gets it.
abbrev pub normalized_request : CandidateSearchRequest → List Text → CandidateSearchRequest
normalized_request request selected = record request {
  selected_line_ids = selected;
  candidate_budget = some (or_else request.candidate_budget 64);
}

unfoldable pub run_route_search :
    Host → CandidateProvider → CandidateSearchRequest → Result RouteSearchOutcome
run_route_search host provider request = do
  selected ← normalize_selected_line_ids request.selected_line_ids
  (if is_unavailable request.snapshot.data_mode
      then ok (
          data_unavailable (length selected)
            (text "Routing snapshot dataMode is unavailable; no itineraries fabricated."))
      else settle host request.snapshot.data_mode selected
          (provider (normalized_request request selected)))

pub data RankMode : Type 0 where
  by_constraint by_time : RankMode

unfoldable pub rank_only : List RankedItinerary → RankMode → List RankedItinerary
rank_only candidates by_constraint =
    truncate_top (rank_constrained candidates) max_returned_itineraries
rank_only candidates by_time = truncate_top (rank_baseline candidates) max_returned_itineraries
