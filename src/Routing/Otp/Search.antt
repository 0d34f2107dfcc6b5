-- ===== src/Routing/Otp/Search.antt =====
-- The search of services/routing/src/search.ts over the provider of otp-provider/provider.ts.
use better_mta.Prelude.{
  ◌≡◌, refl, ap, sym, ◌∙◌, inl, inr, Bool, true, false, Option, none, some, List, [], ◌∷◌, all,
  is_some, is_empty, Bool-cases, Option-cases, if◌then◌else◌,
}
use better_mta.Prelude.Int.{ℤ}
use better_mta.Prelude.Text.{Text}
use better_mta.Prelude.Number.{Number, finite}
use better_mta.Routing.Types.{Host, CandidateSearchRequest, ok, Result-cases}
use better_mta.Routing.Satisfaction.{normalize_selected_line_ids}
use better_mta.Routing.Search.{
  OtpErrorKind, unreachable, failed, CandidateProvider, RouteSearchOutcome, run_route_search,
  normalized_request,
}
use better_mta.Routing.Search.Errors.{run_route_search-throw_iff}
use better_mta.Routing.Otp.Types.{Engine, Attempt, returned, raised, OtpItinerary}
use better_mta.Routing.Otp.Times.{in_range}
use better_mta.Routing.Otp.Map.{MapItinerariesResult}
use better_mta.Routing.Otp.Readable.{are_readable}
use better_mta.Routing.Otp.Laws.{IsMapped, map_otp_itineraries-valid}
use better_mta.Routing.Otp.Provider.{
  ProviderState, QueryEngine, OtpProviderOptions, Query, FetchOutcome, aborted, fetch_error,
  response, Payload, null_payload, payload, Plan, no_plan, plan, departs,
  resolve_departure_epoch_ms, Itineraries, itineraries, refused, crashed, classify_fetch_failure,
  read_payload, error_texts, of_errors, of_plan, of_payload, of_fetch, context_of, conclude_mapped,
  conclude_query, query_at, query_from, generate_candidates,
}

module _ (host : Host) (engine : Engine) where
  abbrev pub is_readable_plan : Plan → Bool
  is_readable_plan no_plan = true
  is_readable_plan (plan none) = true
  is_readable_plan (plan (some its)) = are_readable host engine its

  -- Not null, and without a null in the list that is read: the errors, or else the itineraries.
  abbrev pub is_readable_payload : Option Payload → Bool
  is_readable_payload none = true
  is_readable_payload (some null_payload) = false
  is_readable_payload (some (payload p)) =
      if is_empty p.errors then is_readable_plan p.answer else all is_some p.errors

  -- A response that is no success, or not JSON, or JSON of the declared type without such a null
  -- and with its instants in the range of Date; or none at all.
  abbrev pub is_readable_response : QueryEngine → FetchOutcome → Bool
  is_readable_response queries (response true status content_type body) =
      is_readable_payload (read_payload queries content_type body)
  is_readable_response queries (response false status content_type body) = true
  is_readable_response queries aborted = true
  is_readable_response queries (fetch_error m) = true

error_texts-some :
    (errors : List (Option (Option Text)))
    → all is_some errors ≡ true
    → error_texts errors ≡ none
    → ⊥
unfolding error_texts
error_texts-some [] h k = cc k
error_texts-some (none ∷ errors) h k = cc h
error_texts-some (some m ∷ errors) h k = elim (Option-cases (error_texts errors)) [
  | inl n ↦ error_texts-some errors h n
  | inr (ts, e) ↦ cc (rw e at k)
]

module _ (host : Host) (engine : Engine) (queries : QueryEngine) (options : OtpProviderOptions)
    (query : Query) (fetched : FetchOutcome) (state : ProviderState) where
  -- The provider, with what its query comes to.
  abbrev pub otp_provider : CandidateProvider
  otp_provider request =
      (generate_candidates host engine queries options query fetched request state).0

  -- No error but an OTP error comes of the itineraries.
  IsCalm : Itineraries → Type 0
  IsCalm (itineraries its) = are_readable host engine its ≡ true
  IsCalm (refused kind m) = Unit
  IsCalm (crashed m) = ⊥

  of_plan-IsCalm : (p : Plan) → is_readable_plan host engine p ≡ true → IsCalm (of_plan p)
  unfolding IsCalm are_readable
  of_plan-IsCalm no_plan h = tt
  of_plan-IsCalm (plan none) h = refl
  of_plan-IsCalm (plan (some its)) h = h

  of_errors-IsCalm :
      (errors : List (Option (Option Text)))
      → all is_some errors ≡ true
      → IsCalm (of_errors engine (error_texts errors))
  unfolding IsCalm of_errors
  of_errors-IsCalm errors h = elim (Option-cases (error_texts errors)) [
    | inl n ↦ absurd (error_texts-some errors h n)
    | inr (ts, k) ↦ rw k tt
  ]

  of_payload-IsCalm :
      (p : Option Payload) → is_readable_payload host engine p ≡ true → IsCalm (of_payload engine p)
  unfolding IsCalm of_payload
  of_payload-IsCalm none h = tt
  of_payload-IsCalm (some null_payload) h = cc
  of_payload-IsCalm (some (payload p)) h = elim (Bool-cases (is_empty p.errors)) [
    | inl e ↦ rw e (of_plan-IsCalm p.answer (rw e at h))
    | inr e ↦ rw e (of_errors-IsCalm p.errors (rw e at h))
  ]

  IsCalm-if :
      (b : Bool) (kind : OtpErrorKind) (x y : Text)
      → IsCalm (if b then refused kind x else refused kind y)
  unfolding IsCalm
  IsCalm-if true kind x y = tt
  IsCalm-if false kind x y = tt

  classify_fetch_failure-IsCalm : (m : Text) → IsCalm (classify_fetch_failure queries m)
  unfolding IsCalm classify_fetch_failure
  classify_fetch_failure-IsCalm m = IsCalm-if _ unreachable _ _

  of_fetch-IsCalm :
      (f : FetchOutcome)
      → is_readable_response host engine queries f ≡ true
      → IsCalm (of_fetch engine queries f)
  unfolding IsCalm of_fetch classify_fetch_failure
  of_fetch-IsCalm aborted h = tt
  of_fetch-IsCalm (fetch_error m) h = classify_fetch_failure-IsCalm m
  of_fetch-IsCalm (response false status content_type body) h = tt
  of_fetch-IsCalm (response true status content_type body) h =
      of_payload-IsCalm (read_payload queries content_type body) h

  module _
      (parses : (n : ℤ) → in_range n ≡ true → host.date_parse (engine.to_iso n) ≡ finite n) where
    conclude_mapped-ne-failed :
        (its : List (Option OtpItinerary)) (a : Attempt MapItinerariesResult) (message : Text)
        → are_readable host engine its ≡ true
        → IsMapped host engine its a
        → (conclude_mapped query a state).0 ≡ failed message
        → ⊥
    unfolding conclude_mapped
    conclude_mapped-ne-failed its (raised m) message r p h = cc (r, p)
    conclude_mapped-ne-failed its (returned out) message r p h = cc h

    conclude_query-ne-failed :
        (r : Itineraries) (message : Text)
        → IsCalm r
        → (conclude_query host engine options query r state).0 ≡ failed message
        → ⊥
    unfolding conclude_query IsCalm
    conclude_query-ne-failed (refused kind m) message c h = cc h
    conclude_query-ne-failed (crashed m) message c h = c
    conclude_query-ne-failed (itineraries its) message c h =
        conclude_mapped-ne-failed its _ message c
          (map_otp_itineraries-valid host engine parses its (context_of options query)) h

  otp_provider-concludes :
      (request : CandidateSearchRequest) (ms : Number) (when : Text × Text)
      → resolve_departure_epoch_ms host request.timing query.started ≡ departs ms
      → queries.new_york_time ms ≡ some when
      → otp_provider request
        ≡ (conclude_query host engine options query (of_fetch engine queries fetched) state).0
  unfolding generate_candidates query_from query_at
  otp_provider-concludes request ms when h k =
      ap (λ d. (query_from host engine queries options query fetched state d).0) h
      ∙ ap (λ o. (query_at host engine queries options query fetched state ms o).0) k

-- Over OpenTripPlanner a search returns an outcome, also where the server does not answer, or with an
-- error, or with what is not JSON, if the selection is not too long, the departure is an instant, and
-- the engine has a date and a time in New York for it. This is for answers of the declared type
-- without a null body, error, itinerary or leg, and with instants in the range of Date, which the
-- engine reads, once printed, as what they were.
pub run_route_search-otp_provider :
    (host : Host) (engine : Engine) (queries : QueryEngine) (options : OtpProviderOptions)
    (query : Query) (fetched : FetchOutcome) (state : ProviderState)
    (request : CandidateSearchRequest) (selected : List Text) (ms : Number) (when : Text × Text)
    → ((n : ℤ) → in_range n ≡ true → host.date_parse (engine.to_iso n) ≡ finite n)
    → is_readable_response host engine queries fetched ≡ true
    → normalize_selected_line_ids request.selected_line_ids ≡ ok selected
    → resolve_departure_epoch_ms host request.timing query.started ≡ departs ms
    → queries.new_york_time ms ≡ some when
    → (outcome : RouteSearchOutcome) × (run_route_search host
          (otp_provider host engine queries options query fetched state)
          request
        ≡ ok outcome)
run_route_search-otp_provider host engine queries options query fetched state request selected ms
      when parses readable normal leaves known =
    let provider = otp_provider host engine queries options query fetched state in
    elim (Result-cases (run_route_search host provider request)) [
      | inl found ↦ found
      | inr (e, thrown) ↦
          absurd (elim ((run_route_search-throw_iff host provider request e).0 thrown) [
            | inl long ↦ cc (normal, long)
            | inr (chosen, same, available, (message, answer, apart, same_error)) ↦
                conclude_query-ne-failed host engine queries options query fetched state parses
                  (of_fetch engine queries fetched) message
                  (of_fetch-IsCalm host engine queries options query fetched state fetched readable)
                  (sym (
                      otp_provider-concludes host engine queries options query fetched state
                        (normalized_request request chosen) ms when leaves known)
                    ∙ answer)
          ])
    ]
