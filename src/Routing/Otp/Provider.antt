-- ===== src/Routing/Otp/Provider.antt =====
-- services/routing/src/otp-provider/provider.ts and the helpers of query.ts that it calls: one query, as a
-- step on the counters of the provider. What `fetch` comes to is an argument, and so are the clock,
-- the id of the query and the wall-clock formatter of the engine.
use better_mta.Prelude.{
  ℕ, ◌+◌, Bool, true, false, not, ◌&&◌, Option, none, some, List, [], ◌∷◌, ◌++◌, length, any,
  or_else, is_empty, if◌then◌else◌,
}
use better_mta.Prelude.Text.{Text, text, includes, starts_with, trim_start, show_ℕ, join}
use better_mta.Prelude.Number.{Number, is_finite, max_zero, show, ◌-ₙ◌}
use better_mta.Routing.Types.{
  Host, CandidateSearchRequest, Timing, depart_now, depart_at, arrive_by, baseline,
}
use better_mta.Routing.Search.{
  OtpErrorKind, timed_out, unreachable, bad_response, ProviderAnswer, drafted, otp_failed, failed,
}
use better_mta.Routing.Otp.Types.{Engine, Attempt, returned, raised, OtpItinerary, MapContext}
use better_mta.Routing.Otp.Map.{
  RejectionCounts, no_rejections, total, MapItinerariesResult, map_otp_itineraries,
}

pub record OtpQueryStats : Type 0 where
  pub duration_ms : Number
  pub is_ok : Bool
  pub itinerary_count : ℕ
  pub rejected_count : ℕ
  pub error_kind : Option OtpErrorKind

-- The counters of a provider.
pub record ProviderState : Type 0 where
  pub rejection_counts : RejectionCounts
  pub last_query_stats : Option OtpQueryStats

-- A new provider, and one after `resetCounters`.
abbrev pub new_provider : ProviderState
new_provider = record { rejection_counts = no_rejections; last_query_stats = none }

-- `data.plan`: missing, or with its itineraries, which may be null; they are an array otherwise, and
-- may have null in it.
pub data Plan : Type 0 where
  no_plan : Plan
  plan : Option (List (Option OtpItinerary)) → Plan

-- An error of the list may be null, and has a message otherwise, unless that is missing.
pub record OtpPlanResponse : Type 0 where
  pub errors : List (Option (Option Text))
  pub answer : Plan

-- What `JSON.parse` returns: null, or a value of the declared type.
pub data Payload : Type 0 where
  null_payload : Payload
  payload : OtpPlanResponse → Payload

-- What the request comes to: `fetch` rejects, with an abort or an error's message, or there is a
-- response with its status, its type of content, and its body, unless that cannot be read.
pub data FetchOutcome : Type 0 where
  aborted : FetchOutcome
  fetch_error : Text → FetchOutcome
  response :
      (is_ok : Bool) (status : ℕ) (content_type : Option Text) (body : Option Text) → FetchOutcome

pub record OtpProviderOptions : Type 0 where
  pub graph_version : Option Text
  pub route_id_to_line_id : Text → Option Text

-- `JSON.parse` of an answer of the endpoint, and the date and time in New York of an instant.
pub record QueryEngine : Type 0 where
  pub json_parse : Text → Option Payload
  pub new_york_time : Number → Option (Text × Text)
  pub lower_case : Text → Text

-- An instant, or the message of the error that is thrown.
pub data Departure : Type 0 where
  departs : Number → Departure
  invalid : Text → Departure

unfoldable pub iso_to_epoch_ms : Host → Text → Departure
iso_to_epoch_ms host iso =
    let ms = host.date_parse iso in
    if is_finite ms then departs ms else invalid (text "Invalid ISO instant: " ++ iso)

unfoldable pub resolve_departure_epoch_ms : Host → Timing → Number → Departure
unfolding iso_to_epoch_ms
resolve_departure_epoch_ms host depart_now now = departs now
resolve_departure_epoch_ms host (depart_at time) now = iso_to_epoch_ms host time
resolve_departure_epoch_ms host (arrive_by time) now = iso_to_epoch_ms host time

-- The itineraries of a payload, or the OTP error that is thrown, or the message of another error.
pub data Itineraries : Type 0 where
  itineraries : List (Option OtpItinerary) → Itineraries
  refused : OtpErrorKind → Text → Itineraries
  crashed : Text → Itineraries

-- `classifyFetchFailure` of an error with a message
unfoldable pub classify_fetch_failure : QueryEngine → Text → Itineraries
unfolding includes
classify_fetch_failure engine message =
    let lower = engine.lower_case message in
    if any (includes lower) (
      text "econnrefused"
      ∷ text "enotfound"
      ∷ text "fetch failed"
      ∷ text "network"
      ∷ text "socket"
      ∷ [])
    then refused unreachable (text "OTP unavailable: " ++ message)
    else refused unreachable (text "OTP request failed: " ++ message)

-- The payload of a body, unless it is not JSON.
unfoldable pub read_payload : QueryEngine → Option Text → Option Text → Option Payload
unfolding includes trim_start
read_payload engine content_type none = none
read_payload engine content_type (some body) =
    let declared = or_else content_type [] in
    if not (is_empty declared)
      && (not (includes declared (text "json")) && not (starts_with (trim_start body) (text "{")))
    then none
    else engine.json_parse body

abbrev cons_text : Text → Option (List Text) → Option (List Text)
cons_text t none = none
cons_text t (some ts) = some (t ∷ ts)

-- `payload.errors.map((e) => e.message ?? "error")`, if none of them is null
unfoldable pub error_texts : List (Option (Option Text)) → Option (List Text)
error_texts [] = some []
error_texts (none ∷ errors) = none
error_texts (some message ∷ errors) =
    cons_text (or_else message (text "error")) (error_texts errors)

-- The error for a list of errors.
unfoldable pub of_errors : Engine → Option (List Text) → Itineraries
unfolding join
of_errors engine none = crashed (engine.null_error (text "message"))
of_errors engine (some messages) =
    refused unreachable (text "OTP GraphQL errors: " ++ join (text "; ") messages)

abbrev pub of_plan : Plan → Itineraries
of_plan no_plan = refused bad_response (text "OTP response missing data.plan")
of_plan (plan none) = itineraries []
of_plan (plan (some its)) = itineraries its

unfoldable pub of_payload : Engine → Option Payload → Itineraries
unfolding of_errors error_texts
of_payload engine none = refused bad_response (text "OTP returned non-JSON or unparseable body")
of_payload engine (some null_payload) = crashed (engine.null_error (text "errors"))
of_payload engine (some (payload p)) =
    if is_empty p.errors then of_plan p.answer else of_errors engine (error_texts p.errors)

unfoldable pub of_fetch : Engine → QueryEngine → FetchOutcome → Itineraries
unfolding classify_fetch_failure read_payload of_payload
of_fetch engine queries aborted = refused timed_out (text "OTP plan query timed out")
of_fetch engine queries (fetch_error message) = classify_fetch_failure queries message
of_fetch engine queries (response false status content_type body) =
    refused unreachable (text "OTP HTTP " ++ show_ℕ status)
of_fetch engine queries (response true status content_type body) =
    of_payload engine (read_payload queries content_type body)

abbrev pub add_counts : RejectionCounts → RejectionCounts → RejectionCounts
add_counts n m = record {
  empty_legs_count = n.empty_legs_count + m.empty_legs_count;
  non_chronological_count = n.non_chronological_count + m.non_chronological_count;
  zero_duration_count = n.zero_duration_count + m.zero_duration_count;
  unmappable_count = n.unmappable_count + m.unmappable_count;
  missing_times_count = n.missing_times_count + m.missing_times_count;
}

-- One query: its id, and the clock when it begins and when it ends.
pub record Query : Type 0 where
  pub query_id : Text
  pub started : Number
  pub ended : Number

unfoldable pub stats_of : Query → Bool → ℕ → ℕ → Option OtpErrorKind → OtpQueryStats
unfolding ◌-ₙ◌
stats_of query is_ok drafts rejected kind = record {
  duration_ms = max_zero (query.ended -ₙ query.started);
  is_ok = is_ok;
  itinerary_count = drafts;
  rejected_count = rejected;
  error_kind = kind;
}

unfoldable pub context_of : OtpProviderOptions → Query → MapContext
context_of options query = record {
  query_id = query.query_id;
  graph_version = or_else options.graph_version (text "unknown");
  route_id_to_line_id = options.route_id_to_line_id;
  candidate_family = some baseline;
}

-- The end of a query whose itineraries are mapped.
unfoldable pub conclude_mapped :
    Query → Attempt MapItinerariesResult → ProviderState → ProviderAnswer × ProviderState
unfolding stats_of
conclude_mapped query (raised message) state = (failed message, state)
conclude_mapped query (returned mapped) state = (
  drafted mapped.drafts,
  record {
    rejection_counts = add_counts state.rejection_counts mapped.rejection_counts;
    last_query_stats =
        some (stats_of query true (length mapped.drafts) (total mapped.rejection_counts) none);
  },
)

-- The end of a query.
unfoldable pub conclude_query :
    Host
    → Engine
    → OtpProviderOptions
    → Query
    → Itineraries
    → ProviderState
    → ProviderAnswer × ProviderState
unfolding stats_of context_of conclude_mapped
conclude_query host engine options query (refused kind message) state = (
  otp_failed kind message,
  record state { last_query_stats = some (stats_of query false 0 0 (some kind)) },
)
conclude_query host engine options query (crashed message) state = (failed message, state)
conclude_query host engine options query (itineraries its) state =
    conclude_mapped query (map_otp_itineraries host engine its (context_of options query)) state

-- A query whose departure has a date and a time in New York.
unfoldable pub query_at :
    Host
    → Engine
    → QueryEngine
    → OtpProviderOptions
    → Query
    → FetchOutcome
    → ProviderState
    → Number
    → Option (Text × Text)
    → ProviderAnswer × ProviderState
unfolding of_fetch conclude_query
query_at host engine queries options query fetched state ms none =
    (failed (text "Invalid epoch millis: " ++ show ms), state)
query_at host engine queries options query fetched state ms (some date_time) =
    conclude_query host engine options query (of_fetch engine queries fetched) state

unfoldable pub query_from :
    Host
    → Engine
    → QueryEngine
    → OtpProviderOptions
    → Query
    → FetchOutcome
    → ProviderState
    → Departure
    → ProviderAnswer × ProviderState
unfolding query_at
query_from host engine queries options query fetched state (invalid message) =
    (failed message, state)
query_from host engine queries options query fetched state (departs ms) =
    query_at host engine queries options query fetched state ms (queries.new_york_time ms)

-- `generateCandidates`, up to the body of the request, which only the server reads.
unfoldable pub generate_candidates :
    Host
    → Engine
    → QueryEngine
    → OtpProviderOptions
    → Query
    → FetchOutcome
    → CandidateSearchRequest
    → ProviderState
    → ProviderAnswer × ProviderState
unfolding query_from resolve_departure_epoch_ms
generate_candidates host engine queries options query fetched request state =
    query_from host engine queries options query fetched state
      (resolve_departure_epoch_ms host request.timing query.started)
