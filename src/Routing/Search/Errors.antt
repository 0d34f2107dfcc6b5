-- ===== src/Routing/Search/Errors.antt =====
-- The errors of `runRouteSearch` (services/routing/src/search.ts).
use better_mta.Prelude.{◌≡◌, ◌↔◌, refl, false, List, [], arith, Bool-cases, ◌⊎◌, inl, inr}
use better_mta.Prelude.Text.{Text, text, includes}
use better_mta.Routing.Types.{
  Host, Draft, DataMode, CandidateSearchRequest, Result-cases, ok, throw, provider_failed,
  SearchError,
}
use better_mta.Routing.Satisfaction.{normalize_selected_line_ids}
use better_mta.Routing.Satisfaction.Selection.{normalize_selected_line_ids_idempotent}
use better_mta.Routing.Search.{
  CandidateProvider, ProviderAnswer, drafted, otp_failed, failed, timed_out, unreachable,
  bad_response, valid_drafts, rejection_counts, is_unavailable, judge, settle, normalized_request,
  run_route_search,
}
use better_mta.Routing.Search.Pure.{search_drafts-ok}

abbrev pub coverage_marker : Text
coverage_marker = text "INSUFFICIENT_CANDIDATE_COVERAGE"

judge-ne-throw :
    (host : Host) (mode : DataMode) (selected : List Text) (drafts : List Draft) (e : SearchError)
    → normalize_selected_line_ids selected ≡ ok selected
    → judge host mode selected drafts ≡ throw e
    → ⊥
unfolding judge
judge-ne-throw host mode selected drafts e stable h = ground (
  arith,
  search_drafts-ok host mode selected (valid_drafts host drafts) (rejection_counts host drafts [])
      stable,
)

-- The answer is an error that is not about coverage, and the error thrown carries its message.
abbrev pub IsRethrown : ProviderAnswer → SearchError → Type 0
IsRethrown answer e =
    (message : Text) × (answer ≡ failed message)
    × (includes message coverage_marker ≡ false)
    × (e ≡ provider_failed message)

settle-throw :
    (host : Host) (mode : DataMode) (selected : List Text) (answer : ProviderAnswer)
    (e : SearchError)
    → normalize_selected_line_ids selected ≡ ok selected
    → settle host mode selected answer ≡ throw e
    → IsRethrown answer e
unfolding settle
settle-throw host mode selected (drafted drafts) e stable h =
    absurd (judge-ne-throw host mode selected drafts e stable h)
settle-throw host mode selected (otp_failed timed_out m) e stable h = cc
settle-throw host mode selected (otp_failed unreachable m) e stable h = cc
settle-throw host mode selected (otp_failed bad_response m) e stable h = cc
settle-throw host mode selected (failed m) e stable h = (m, refl, ground arith, ground arith)

-- The search throws exactly in two cases: the selection has too many lines, with the error of
-- `normalizeSelectedLineIds`; or the snapshot is available and the provider fails with an error that
-- is neither an `OtpProviderError` nor about coverage, which is passed on. In every other case it
-- returns an outcome.
pub run_route_search-throw_iff :
    (host : Host) (provider : CandidateProvider) (request : CandidateSearchRequest)
    (e : SearchError)
    → (run_route_search host provider request ≡ throw e) ↔ (
        (normalize_selected_line_ids request.selected_line_ids ≡ throw e)
        ⊎ ((selected : List Text) × (normalize_selected_line_ids request.selected_line_ids
              ≡ ok selected)
            × (is_unavailable request.snapshot.data_mode ≡ false)
            × IsRethrown (provider (normalized_request request selected)) e))
unfolding run_route_search
run_route_search-throw_iff host provider request e = (to, from)
  where
    Thrown : Type 0
    Thrown =
        (normalize_selected_line_ids request.selected_line_ids ≡ throw e)
        ⊎ ((selected : List Text) × (normalize_selected_line_ids request.selected_line_ids
              ≡ ok selected)
            × (is_unavailable request.snapshot.data_mode ≡ false)
            × IsRethrown (provider (normalized_request request selected)) e)

    asked :
        (selected : List Text)
        → normalize_selected_line_ids request.selected_line_ids ≡ ok selected
        → run_route_search host provider request ≡ throw e
        → Thrown
    asked selected normalized h = elim (Bool-cases (is_unavailable request.snapshot.data_mode)) [
      | inl down ↦ absurd (cc (rw (normalized, down) at h))
      | inr available ↦ inr (
        selected,
        normalized,
        available,
        settle-throw host request.snapshot.data_mode selected _ e
            (normalize_selected_line_ids_idempotent _ selected normalized)
            (rw (normalized, available) at h),
      )
    ]

    to : run_route_search host provider request ≡ throw e → Thrown
    to h = elim (Result-cases (normalize_selected_line_ids request.selected_line_ids)) [
      | inr (f, refused) ↦ inl (cc (rw refused at h))
      | inl (selected, normalized) ↦ asked selected normalized h
    ]

    from : Thrown → run_route_search host provider request ≡ throw e
    from (inl refused) = rw refused
    from (inr (selected, normalized, available, (m, answer, marker, same))) =
        rw (normalized, available, answer, same) (unfold settle in rw marker)
