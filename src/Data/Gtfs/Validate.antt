-- ===== src/Data/Gtfs/Validate.antt =====
-- services/data/src/static/validator.ts: the checks of the tables before they are activated.
mod Clean
pub mod Sound
use better_mta.Prelude.{
  ℕ, Bool, true, false, not, ◌&&◌, ◌||◌, List, [], ◌∷◌, ◌++◌, map, Option, none, some, leb, nat_eqb,
  if◌then◌else◌, is_empty, any, all, length, filter, or_else,
}
use better_mta.Prelude.Text.{Text, text}
use better_mta.Routing.Satisfaction.{contains}
use better_mta.Data.Types.{GtfsStop, GtfsRoute, GtfsTrip, GtfsStopTime, GtfsTransfer, GtfsCalendar}
use better_mta.Data.Gtfs.Parse.{ParsedGtfs}

pub data IssueSeverity : Type 0 where
  error warning : IssueSeverity

pub record ValidationIssue : Type 0 where
  pub code : Text
  pub message : Text
  pub severity : IssueSeverity

abbrev pub is_error : ValidationIssue → Bool
is_error i = elim i.severity [ error ↦ true | warning ↦ false ]

pub record ValidationResult : Type 0 where
  pub ok : Bool
  pub issues : List ValidationIssue

unfoldable pub fault : Text → Text → ValidationIssue
fault code message = record { code = code; message = message; severity = error }

-- `issues.push(...)` under a test.
unfoldable pub report : Bool → Text → Text → List ValidationIssue
unfolding fault
report wrong code message = if wrong then fault code message ∷ [] else []

abbrev pub is_digit : ℕ → Bool
is_digit c = leb b'0' c && leb c b'9'

-- `/^\d{8}$/`
unfoldable pub is_gtfs_date : Text → Bool
is_gtfs_date t = all is_digit t && nat_eqb (length t) 8

-- `\d{2}:\d{2}$`
unfoldable pub is_minutes : Text → Bool
is_minutes (a ∷ b ∷ c ∷ d ∷ e ∷ []) =
    is_digit a && (is_digit b && (nat_eqb c b':' && (is_digit d && is_digit e)))
is_minutes _ = false

-- `/^\d{1,2}:\d{2}:\d{2}$/`
unfoldable pub is_gtfs_time : Text → Bool
unfolding is_minutes
is_gtfs_time (a ∷ b ∷ []) = false
is_gtfs_time (a ∷ b ∷ c ∷ s) =
    is_digit a
    && (if nat_eqb b b':'
        then is_minutes (c ∷ s)
        else (is_digit b && (nat_eqb c b':' && is_minutes s)))
is_gtfs_time _ = false

-- The ids that are not empty: a set of ids once the loop that fills it has ended.
abbrev pub named : List Text → List Text
named ids = filter (λ id. not (is_empty id)) ids

-- The loop over the stops, with the ids it has seen.
unfoldable pub stop_issues : List Text → List GtfsStop → List ValidationIssue
unfolding contains report
stop_issues ids [] = []
stop_issues ids (s ∷ stops) = elim (is_empty s.stop_id) [
  | true ↦
      report true (text "missing_stop_id") (text "Stop missing stop_id") ++ stop_issues ids stops
  | false ↦
      report (contains ids s.stop_id) (text "duplicate_stop_id")
        (text "Duplicate stop_id " ++ s.stop_id)
      ++ stop_issues (s.stop_id ∷ ids) stops
]

-- `s.parentStation && !stopIds.has(s.parentStation)`
unfoldable pub is_orphan : List Text → GtfsStop → Bool
unfolding contains
is_orphan ids s =
    let parent = or_else s.parent_station [] in not (is_empty parent) && not (contains ids parent)

unfoldable pub parent_issues : List Text → GtfsStop → List ValidationIssue
unfolding is_orphan report
parent_issues ids s = report (is_orphan ids s) (text "broken_parent_station") (
    text "Stop "
    ++ s.stop_id
    ++ text " parent_station "
    ++ or_else s.parent_station []
    ++ text " not found")

unfoldable pub route_issues : GtfsRoute → List ValidationIssue
unfolding report
route_issues r =
    report (is_empty r.route_id) (text "missing_route_id") (text "Route missing route_id")

unfoldable pub is_bad_calendar : GtfsCalendar → Bool
unfolding is_gtfs_date
is_bad_calendar c =
    is_empty c.service_id || (not (is_gtfs_date c.start_date) || not (is_gtfs_date c.end_date))

unfoldable pub calendar_issues : GtfsCalendar → List ValidationIssue
unfolding report is_bad_calendar
calendar_issues c =
    report (is_bad_calendar c) (text "invalid_calendar")
      (text "Invalid calendar row for service " ++ c.service_id)

unfoldable pub trip_issues : List Text → List Text → GtfsTrip → List ValidationIssue
unfolding contains report
trip_issues routes services t = elim (is_empty t.trip_id) [
  | true ↦ report true (text "missing_trip_id") (text "Trip missing trip_id")
  | false ↦
      report (not (contains routes t.route_id)) (text "broken_trip_route")
        (text "Trip " ++ t.trip_id ++ text " references unknown route " ++ t.route_id)
      ++ report (not (contains services t.service_id)) (text "broken_trip_service")
          (text "Trip " ++ t.trip_id ++ text " references unknown service " ++ t.service_id)
]

unfoldable pub stop_time_issues : List Text → List Text → GtfsStopTime → List ValidationIssue
unfolding contains report is_gtfs_time
stop_time_issues trips stops st =
    report (not (contains trips st.trip_id)) (text "broken_stop_time_trip")
      (text "stop_times trip_id " ++ st.trip_id ++ text " not in trips.txt")
    ++ report (not (contains stops st.stop_id)) (text "broken_stop_time_stop")
        (text "stop_times stop_id " ++ st.stop_id ++ text " not in stops.txt")
    ++ report (not (is_gtfs_time st.arrival_time) || not (is_gtfs_time st.departure_time))
        (text "invalid_stop_time")
        (text "Invalid time on trip " ++ st.trip_id ++ text " stop " ++ st.stop_id)

unfoldable pub transfer_issues : List Text → GtfsTransfer → List ValidationIssue
unfolding contains report
transfer_issues stops tr =
    report (not (contains stops tr.from_stop_id) || not (contains stops tr.to_stop_id))
      (text "broken_transfer")
      (text "Transfer "
        ++ tr.from_stop_id
        ++ text "→"
        ++ tr.to_stop_id
        ++ text " references missing stop")

-- A loop that only reports.
unfoldable pub gather {ℓ} :
    {A : Type ℓ} → (A → List ValidationIssue) → List A → List ValidationIssue
gather f [] = []
gather f (x ∷ xs) = f x ++ gather f xs

-- What all the loops report, in their order, with the sets of the ids of the stops, the routes,
-- the services and the trips.
unfoldable pub issues_with :
    List Text → List Text → List Text → List Text → ParsedGtfs → List ValidationIssue
unfolding stop_issues parent_issues route_issues calendar_issues trip_issues stop_time_issues
    transfer_issues gather report
issues_with stops routes services trips g =
    stop_issues [] g.stops
    ++ gather (parent_issues stops) g.stops
    ++ gather route_issues g.routes
    ++ gather calendar_issues g.calendar
    ++ gather (trip_issues routes services) g.trips
    ++ gather (stop_time_issues trips stops) g.stop_times
    ++ gather (transfer_issues stops) g.transfers
    ++ report (is_empty g.stops || is_empty g.routes) (text "empty_core_tables")
        (text "stops.txt or routes.txt is empty")

unfoldable pub gtfs_issues : ParsedGtfs → List ValidationIssue
unfolding issues_with
gtfs_issues g =
    issues_with (named (map (λ s. s.stop_id) g.stops)) (named (map (λ r. r.route_id) g.routes))
      (map (λ c. c.service_id) g.calendar) (named (map (λ t. t.trip_id) g.trips)) g

unfoldable pub validate_gtfs : ParsedGtfs → ValidationResult
unfolding gtfs_issues
validate_gtfs g =
    let issues = gtfs_issues g in record { ok = not (any is_error issues); issues = issues }
