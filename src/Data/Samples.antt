-- ===== src/Data/Samples.antt =====
-- Data for the tests of the data modules: snapshots taken at the second 100 and later, and datasets.
use better_mta.Prelude.{ℕ, false, none, some, List, [], ◌∷◌}
use better_mta.Prelude.Int.{pos}
use better_mta.Prelude.Text.{Text, text}
use better_mta.Prelude.Number.{Number, number}
use better_mta.Routing.Types.{schedule_only}
use better_mta.Data.Types.{RealtimeSnapshot, StaticDataset, pending}
use better_mta.Data.Gtfs.Parse.{Numerals}

-- A snapshot with a number of trip updates.
abbrev pub snapshot : Text → Text → ℕ → RealtimeSnapshot
snapshot id at updates = record {
  snapshot_id = id;
  static_dataset_version = none;
  ingested_at = at;
  feed_timestamps = (text "ace", at) ∷ [];
  entity_counts = record { trip_updates = updates; alerts = 0; vehicles = 0; quarantined = 0 };
  age_seconds = number 0;
  data_mode = schedule_only;
  trip_updates = [];
  cancellations = [];
  skipped_stops = [];
  alerts = [];
  quarantined = [];
  synthetic = false;
  partial_feeds = [];
  failed_feeds = record { feed_id = text "g"; reason = text "http" } ∷ [];
  per_feed = none;
}

-- A snapshot with content, and a later one without.
abbrev pub full : RealtimeSnapshot
full = snapshot (text "full") (text "100") 3

abbrev pub hollow : RealtimeSnapshot
hollow = snapshot (text "hollow") (text "160") 0

-- The second 200, in milliseconds.
abbrev pub now : Number
now = number 200000

abbrev pub dataset : Text → StaticDataset
dataset version = record {
  static_dataset_version = version;
  source = text "mta";
  checksum = text "0";
  status = pending;
  imported_at = text "10";
  activated_at = none;
  stops = [];
  routes = [];
  trips = [];
  stop_times = [];
  transfers = [];
  calendar = [];
  calendar_dates = [];
  line_mapping = [];
  quarantined_routes = [];
  service_window = none;
}

-- A package of one stop, one route and one trip.
abbrev pub gtfs_files : List (Text × Text)
gtfs_files =
    (text "stops.txt", text "stop_id,stop_name\nA1,5 Av\n")
    ∷ (text "routes.txt", text "route_id,route_short_name\nA,A\n")
    ∷ (text "trips.txt", text "trip_id,route_id,service_id\nt,A,wk\n")
    ∷ (
      text "stop_times.txt",
      text "trip_id,arrival_time,departure_time,stop_id\nt,25:10:00,25:10:30,A1\n",
    )
    ∷ (text "transfers.txt", text "from_stop_id,to_stop_id\n")
    ∷ (text "calendar.txt", text "service_id,start_date,end_date\nwk,20260101,20261231\n")
    ∷ []

-- Every numeral is read as 1.
abbrev pub ones : Numerals
ones = record { to_number = λ v. number 1; to_microdegrees = λ v. some (pos 1000000) }
