-- ===== src/Data/Gtfs/Parse.antt =====
-- `parseGtfsFiles` of services/data/src/static/gtfs-parser.ts.
use better_mta.Prelude.{
  Bool, not, ◌||◌, List, [], ◌∷◌, map, Option, none, some, ◌+◌, leb, ◌&&◌, or_else, if◌then◌else◌,
  is_empty, find, is_some,
}
use better_mta.Prelude.Int.{ℤ, pos}
use better_mta.Prelude.Text.{Text, text, ◌===◌}
use better_mta.Prelude.Number.{Number, number, is_finite, number_eqb}
use better_mta.Data.Types.{
  GtfsStop, GtfsRoute, GtfsTrip, GtfsStopTime, GtfsTransfer, GtfsCalendar, added, removed,
  GtfsCalendarDate,
}
use better_mta.Data.Gtfs.Csv.{Row, field, parse_csv}

-- What the engine reads in a numeral: `Number(v)`, and the same in microdegrees, where it is finite.
pub record Numerals : Type 0 where
  pub to_number : Text → Number
  pub to_microdegrees : Text → Option ℤ

-- `Record<string, string>` of the files
abbrev pub Files : Type 0
Files = List (Text × Text)

pub record ParsedGtfs : Type 0 where
  pub stops : List GtfsStop
  pub routes : List GtfsRoute
  pub trips : List GtfsTrip
  pub stop_times : List GtfsStopTime
  pub transfers : List GtfsTransfer
  pub calendar : List GtfsCalendar
  pub calendar_dates : List GtfsCalendarDate
  pub raw_files : Files

abbrev pub required_files : List Text
required_files =
    text "stops.txt"
    ∷ text "routes.txt"
    ∷ text "trips.txt"
    ∷ text "stop_times.txt"
    ∷ text "transfers.txt"
    ∷ text "calendar.txt"
    ∷ []

-- `row[name] ?? fallback`
unfoldable pub field_or : Text → Text → Row → Text
unfolding field
field_or name fallback row = or_else (field name row) fallback

-- `row[name] ?? ""`
unfoldable pub cell : Text → Row → Text
unfolding field_or
cell name row = field_or name [] row

-- `s ? s : null`
unfoldable pub filled : Text → Option Text
filled s = if is_empty s then none else some s

-- `s.toLowerCase()`, on the letters of ASCII: no other letter has one of `true` for its lower case.
unfoldable pub lower_case : Text → Text
lower_case [] = []
lower_case (c ∷ s) = (if leb 0x41 c && leb c 0x5a then c + 0x20 else c) ∷ lower_case s

unfoldable pub bool01 : Text → Bool
unfolding ◌===◌ lower_case
bool01 v = (v === text "1") || (lower_case v === text "true")

module _ (numerals : Numerals) where
  -- `num(v)`, whose fallback is always 0
  unfoldable pub num : Text → Number
  num v = let n = numerals.to_number v in if is_finite n then n else number 0

  -- `num(v)` of a coordinate
  unfoldable pub coordinate : Text → ℤ
  coordinate v = or_else (numerals.to_microdegrees v) (pos 0)

  unfoldable pub stop_of : Row → GtfsStop
  unfolding cell filled num coordinate field_or
  stop_of r = record {
    stop_id = cell (text "stop_id") r;
    stop_name = cell (text "stop_name") r;
    stop_lat = coordinate (cell (text "stop_lat") r);
    stop_lon = coordinate (cell (text "stop_lon") r);
    location_type = num (field_or (text "location_type") (text "0") r);
    parent_station = filled (cell (text "parent_station") r);
  }

  unfoldable pub trip_of : Row → GtfsTrip
  unfolding cell num field_or
  trip_of r = record {
    trip_id = cell (text "trip_id") r;
    route_id = cell (text "route_id") r;
    service_id = cell (text "service_id") r;
    trip_headsign = cell (text "trip_headsign") r;
    direction_id = num (field_or (text "direction_id") (text "0") r);
  }

  unfoldable pub stop_time_of : Row → GtfsStopTime
  unfolding cell num field_or
  stop_time_of r = record {
    trip_id = cell (text "trip_id") r;
    arrival_time = cell (text "arrival_time") r;
    departure_time = cell (text "departure_time") r;
    stop_id = cell (text "stop_id") r;
    stop_sequence = num (field_or (text "stop_sequence") (text "0") r);
  }

  unfoldable pub transfer_of : Row → GtfsTransfer
  unfolding cell filled num field_or
  transfer_of r = record {
    from_stop_id = cell (text "from_stop_id") r;
    to_stop_id = cell (text "to_stop_id") r;
    transfer_type = num (field_or (text "transfer_type") (text "0") r);
    min_transfer_time = elim (filled (cell (text "min_transfer_time") r)) [
      | none ↦ none
      | some v ↦ some (num v)
    ];
  }

  unfoldable pub calendar_date_of : Row → GtfsCalendarDate
  unfolding cell field
  calendar_date_of r = record {
    service_id = cell (text "service_id") r;
    date = cell (text "date") r;
    exception_type = elim (field (text "exception_type") r) [
      | none ↦ added
      | some v ↦ if number_eqb (numerals.to_number v) (number 2) then removed else added
    ];
  }

unfoldable pub route_of : Row → GtfsRoute
unfolding cell
route_of r = record {
  route_id = cell (text "route_id") r;
  route_short_name = cell (text "route_short_name") r;
  route_long_name = cell (text "route_long_name") r;
  route_color = cell (text "route_color") r;
  route_text_color = cell (text "route_text_color") r;
}

-- A day of the week in a row of the calendar.
unfoldable pub day : Text → Row → Bool
unfolding bool01 field_or
day name r = bool01 (field_or name (text "0") r)

unfoldable pub calendar_of : Row → GtfsCalendar
unfolding cell day
calendar_of r = record {
  service_id = cell (text "service_id") r;
  monday = day (text "monday") r;
  tuesday = day (text "tuesday") r;
  wednesday = day (text "wednesday") r;
  thursday = day (text "thursday") r;
  friday = day (text "friday") r;
  saturday = day (text "saturday") r;
  sunday = day (text "sunday") r;
  start_date = cell (text "start_date") r;
  end_date = cell (text "end_date") r;
}

-- The first of the required files that is not there.
unfoldable pub missing_file : Files → Option Text
unfolding field
missing_file files = find (λ name. not (is_some (field name files))) required_files

-- The rows of a file, and none where it is missing or empty.
unfoldable pub rows_of : Text → Files → List Row
unfolding parse_csv cell
rows_of name files = parse_csv (cell name files)

-- The name of the missing file, or the tables.
pub data ParseResult : Type 0 where
  missing : Text → ParseResult
  parsed : ParsedGtfs → ParseResult

unfoldable pub tables_of : Numerals → Files → ParsedGtfs
unfolding rows_of stop_of route_of trip_of stop_time_of transfer_of calendar_of calendar_date_of
tables_of numerals files = record {
  stops = map (stop_of numerals) (rows_of (text "stops.txt") files);
  routes = map route_of (rows_of (text "routes.txt") files);
  trips = map (trip_of numerals) (rows_of (text "trips.txt") files);
  stop_times = map (stop_time_of numerals) (rows_of (text "stop_times.txt") files);
  transfers = map (transfer_of numerals) (rows_of (text "transfers.txt") files);
  calendar = map calendar_of (rows_of (text "calendar.txt") files);
  calendar_dates = map (calendar_date_of numerals) (rows_of (text "calendar_dates.txt") files);
  raw_files = files;
}

unfoldable pub parse_gtfs_files : Numerals → Files → ParseResult
unfolding missing_file tables_of
parse_gtfs_files numerals files = elim (missing_file files) [
  | none ↦ parsed (tables_of numerals files)
  | some name ↦ missing name
]
