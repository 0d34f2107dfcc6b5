-- ===== src/Routing/Otp/Tests.antt =====
-- An answer of OpenTripPlanner with a ride and a walk, and one with a bus.
use better_mta.Prelude.{ℕ, ◌≡◌, refl, true, false, Option, none, some, List, [], ◌∷◌, ◌++◌, map}
use better_mta.Prelude.Int.{ℤ, pos, negsuc, ◌+ℤ◌, ◌-ℤ◌}
use better_mta.Prelude.Text.{Text, text, ◌===◌, trim_start, includes, show_ℕ}
use better_mta.Prelude.Number.{Number, nan, number, finite, ◌+ₙ◌, ◌-ₙ◌}
use better_mta.Routing.Types.{ok, Host}
use better_mta.Routing.Samples.{request}
use better_mta.Routing.Search.{
  RouteSearchOutcome, run_route_search, ProviderAnswer, otp_failed, timed_out, unreachable,
  bad_response,
}
use better_mta.Routing.Satisfaction.{transit_legs_of}
use better_mta.Routing.Validate.{overlaps}
use better_mta.Routing.Otp.Types.{
  Engine, Attempt, returned, raised, millis, leg_time, OtpLeg, OtpItinerary, MapContext,
}
use better_mta.Routing.Otp.Times.{
  in_range, epoch_ms, optional_to_iso, estimated_or, instant_to_iso, otp_time_to_iso_utc,
  itinerary_start, itinerary_end, leg_start, leg_end, is_walk_mode, is_transit_mode,
}
use better_mta.Routing.Otp.Legs.{
  stop_ref, trip_ids, source_engine_ids, walk_seconds, map_walk_leg, duration_or, map_transit_leg,
  map_timed, map_ride, line_of_route, map_leg, itinerary_id, map_legs,
}
use better_mta.Routing.Otp.Map.{
  legs_chronological, walking_of, riding_of, last_arrival, elapsed, elapsed_from, spent,
  with_duration, with_end, present_legs, map_present_legs, no_rejections, draft_of, with_arrival,
  map_rest, map_raw_legs, map_one_itinerary, bump, map_step, map_from, MapItinerariesResult,
  map_otp_itineraries,
}
use better_mta.Routing.Otp.Provider.{
  ProviderState, new_provider, plan, payload, of_errors, error_texts, conclude_mapped, FetchOutcome,
  aborted, fetch_error, response, OtpProviderOptions, QueryEngine, resolve_departure_epoch_ms,
  classify_fetch_failure, read_payload, of_payload, of_fetch, Query, conclude_query, query_at,
  query_from, generate_candidates,
}
use better_mta.Routing.Otp.Search.{
  otp_provider, is_readable_response, run_route_search-otp_provider,
}
use better_mta.Routing.Satisfaction.{normalize_selected_line_ids}
use better_mta.Routing.Otp.Readable.{is_readable_leg, are_readable_legs, is_readable, are_readable}
use better_mta.Routing.Otp.Laws.{IsMapped, map_otp_itineraries-valid}

-- Instants are printed as their number, those before 1970 behind another unit.
abbrev print : ℤ → Text
print (pos n) = n ∷ []
print (negsuc n) = 0 ∷ n ∷ []

abbrev parse : Text → Number
parse (n ∷ []) = finite (pos n)
parse (_ ∷ n ∷ []) = finite (negsuc n)
parse t = nan

abbrev host : Host
host = record { date_parse = parse; sha256_hex = λ t. t }

abbrev engine : Engine
engine = record {
  to_iso = print;
  range_error = text "Invalid time value";
  null_error = λ name. text "null has no " ++ name;
  upper_case = λ t. t;
  json_strings = λ ts. [];
}

parse-print : (n : ℤ) → in_range n ≡ true → parse (print n) ≡ finite n
parse-print (pos n) h = refl
parse-print (negsuc n) h = refl

abbrev leg : Text → Option Text → ℕ → ℕ → OtpLeg
leg mode route from to = record {
  mode = some mode;
  start_time = none;
  end_time = none;
  start = some (leg_time (some (millis (number from))) none);
  finish = some (leg_time none (some (millis (number to))));
  duration = none;
  origin = none;
  destination = none;
  route_gtfs_id = route;
  trip_gtfs_id = none;
}

abbrev itinerary : List OtpLeg → OtpItinerary
itinerary legs = record {
  duration = none;
  start_time = none;
  end_time = none;
  start = some (millis (number 0));
  finish = none;
  number_of_transfers = none;
  legs = some (map some legs);
}

abbrev lines : Text → Option Text
lines id = some id

abbrev ctx : MapContext
ctx = record {
  query_id = text "q";
  graph_version = text "g";
  route_id_to_line_id = lines;
  candidate_family = none;
}

abbrev subway : OtpItinerary
subway =
    itinerary
      (leg (text "WALK") none 0 60000 ∷ leg (text "SUBWAY") (some (text "7")) 60000 360000 ∷ [])

abbrev bus : OtpItinerary
bus = itinerary (leg (text "BUS") none 0 60000 ∷ [])

-- A ride whose time is not in the range of Date.
abbrev far : OtpItinerary
far = itinerary (leg (text "SUBWAY") (some (text "7")) 8640000000000001 8640000000000002 ∷ [])

abbrev answer : List (Option OtpItinerary)
answer = some subway ∷ some bus ∷ some (itinerary []) ∷ []

abbrev out_of : Attempt MapItinerariesResult → MapItinerariesResult
out_of (returned out) = out
out_of (raised m) = record { drafts = []; rejection_counts = no_rejections }

abbrev out : MapItinerariesResult
out = out_of (map_otp_itineraries host engine answer ctx)

map_tests :
    (map (λ d. d.itinerary_id) out.drafts ≡ text "otp_q_0" ∷ [])
    × (map (λ d. d.duration_seconds) out.drafts ≡ number 360 ∷ [])
    × (map (λ d. d.waiting_seconds) out.drafts ≡ number 60 ∷ [])
    × (out.rejection_counts.unmappable_count ≡ 1)
    × (out.rejection_counts.empty_legs_count ≡ 1)
    × (map_otp_itineraries host engine (some far ∷ []) ctx ≡ raised (text "Invalid time value"))
    × (map_otp_itineraries host engine (some bus ∷ none ∷ []) ctx
        ≡ raised (text "null has no legs"))
unfolding in_range epoch_ms optional_to_iso estimated_or map_timed elapsed_from spent with_duration
    with_end present_legs map_present_legs ◌===◌ ◌+ₙ◌ ◌-ₙ◌ ◌+ℤ◌ ◌-ℤ◌ show_ℕ instant_to_iso
    otp_time_to_iso_utc itinerary_start itinerary_end leg_start leg_end is_walk_mode is_transit_mode
    stop_ref trip_ids source_engine_ids walk_seconds map_walk_leg duration_or map_transit_leg
    map_ride line_of_route map_leg itinerary_id map_legs legs_chronological walking_of riding_of
    last_arrival elapsed draft_of with_arrival map_rest map_raw_legs map_one_itinerary bump map_step
    map_from map_otp_itineraries overlaps transit_legs_of
map_tests = (refl, refl, refl, refl, refl, refl, refl)

map_otp_itineraries-valid_example :
    IsMapped host engine answer (map_otp_itineraries host engine answer ctx)
map_otp_itineraries-valid_example = map_otp_itineraries-valid host engine parse-print answer ctx

abbrev queries : QueryEngine
queries = record {
  json_parse = λ t.
      some (payload (record { errors = []; answer = plan (some (some subway ∷ some bus ∷ [])) }));
  new_york_time = λ ms. some (text "2026-01-05", text "08:00:00");
  lower_case = λ t. t;
}

abbrev options : OtpProviderOptions
options = record { graph_version = none; route_id_to_line_id = lines }

abbrev query : Query
query = record { query_id = text "q"; started = number 100; ended = number 350 }

abbrev ask : FetchOutcome → ProviderAnswer × ProviderState
ask fetched =
    generate_candidates host engine queries options query fetched (request []) new_provider

answer_tests :
    ((ask aborted).0 ≡ otp_failed timed_out (text "OTP plan query timed out"))
    × ((ask (fetch_error (text "socket hang up"))).0
        ≡ otp_failed unreachable (text "OTP unavailable: socket hang up"))
    × ((ask (response false 503 none none)).0 ≡ otp_failed unreachable (text "OTP HTTP 503"))
    × ((ask (response true 200 (some (text "text/html")) (some (text "<html>")))).0
        ≡ otp_failed bad_response (text "OTP returned non-JSON or unparseable body"))
unfolding of_errors error_texts conclude_mapped generate_candidates query_from query_at
    conclude_query of_fetch of_payload read_payload classify_fetch_failure
    resolve_departure_epoch_ms includes trim_start show_ℕ
answer_tests = (refl, refl, refl, refl)

-- A body that is read as the answer above.
abbrev answered : FetchOutcome
answered = response true 200 none (some (text "{}"))

answered-is_readable : is_readable_response host engine queries answered ≡ true
unfolding read_payload are_readable is_readable are_readable_legs is_readable_leg epoch_ms in_range
answered-is_readable = refl

run_route_search-otp_provider_example :
    (outcome : RouteSearchOutcome) × (run_route_search host
        (otp_provider host engine queries options query answered new_provider)
        (request [])
      ≡ ok outcome)
unfolding resolve_departure_epoch_ms normalize_selected_line_ids
run_route_search-otp_provider_example =
    run_route_search-otp_provider host engine queries options query answered new_provider
      (request []) [] (number 100) (text "2026-01-05", text "08:00:00") parse-print
      answered-is_readable refl refl refl
