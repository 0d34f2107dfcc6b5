-- ===== src/Routing/Samples.antt =====
-- Data for the tests of the routing modules: a host whose dates are seconds in decimal digits and
-- whose digest is the text itself, three drafts, and requests.
use better_mta.Prelude.{ℕ, ◌+◌, ◌*◌, ◌-◌, none, some, List, [], ◌∷◌}
use better_mta.Prelude.Int.{pos}
use better_mta.Prelude.Text.{Text, text}
use better_mta.Prelude.Number.{number}
use better_mta.Routing.Types.{
  Host, Draft, Leg, transit, StopRef, RealtimeConfidence, CandidateFamily, baseline, constrained,
  CandidateSearchRequest, ResolvedPlace, depart_now, live,
}
use better_mta.Routing.Search.{CandidateProvider, drafted}

abbrev seconds_from : ℕ → Text → ℕ
seconds_from n [] = n
seconds_from n (c ∷ t) = seconds_from (10 * n + (c - 48)) t

abbrev pub host : Host
host = record { date_parse = λ t. number (1000 * seconds_from 0 t); sha256_hex = λ t. t }

abbrev stop : Text → StopRef
stop name = record { name = name; station_id = none; stop_id = none }

abbrev pub ride : Text → Text → Text → Leg
ride line depart arrive = transit (record {
  leg_id = line;
  line_id = line;
  trip_id = none;
  headsign = none;
  origin = stop (text "A");
  destination = stop (text "B");
  depart_time = depart;
  arrive_time = arrive;
  duration_seconds = none;
  source_engine_ids = none;
})

abbrev draft : Text → Text → ℕ → List Leg → CandidateFamily → Draft
draft id arrival transfers legs family = record {
  itinerary_id = id;
  duration_seconds = number 600;
  arrival_time = arrival;
  walking_seconds = number 0;
  waiting_seconds = number 0;
  transfer_count = number transfers;
  legs = legs;
  realtime_confidence = RealtimeConfidence.high;
  alerts = none;
  candidate_family = some family;
}

-- The fast way, on line 4.
abbrev pub fast : Draft
fast = draft (text "fast") (text "900") 0 (ride (text "4") (text "300") (text "900") ∷ []) baseline

-- The way by the lines 7 and G, which arrives later.
abbrev pub slow : Draft
slow =
    draft (text "slow") (text "960") 1
      (ride (text "7") (text "300") (text "600") ∷ ride (text "G") (text "660") (text "960") ∷ [])
      constrained

-- A train that departs before the one before it has arrived.
abbrev pub broken : Draft
broken =
    draft (text "broken") (text "800") 1
      (ride (text "7") (text "300") (text "600") ∷ ride (text "G") (text "500") (text "800") ∷ [])
      constrained

abbrev place : Text → ResolvedPlace
place label = record {
  label = label;
  lat = pos 40700000;
  lon = pos 73900000;
  place_id = none;
  station_id = none;
}

abbrev pub request : List Text → CandidateSearchRequest
request lines = record {
  origin = place (text "home");
  destination = place (text "work");
  timing = depart_now;
  selected_line_ids = lines;
  snapshot = record {
    static_dataset_version = text "v1";
    realtime_snapshot_id = none;
    data_mode = live;
    realtime_age_seconds = none;
    static_activated_at = none;
  };
  candidate_budget = none;
}

abbrev pub drafts : List Draft
drafts = slow ∷ broken ∷ fast ∷ []

abbrev pub provider : CandidateProvider
provider _ = drafted drafts

-- Two lines, one of them written twice.
abbrev pub lines : List Text
lines = text " 7" ∷ text "G" ∷ text "7" ∷ []

abbrev pub selected : List Text
selected = text "7" ∷ text "G" ∷ []
