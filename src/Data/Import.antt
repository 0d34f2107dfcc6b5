-- ===== src/Data/Import.antt =====
-- services/data/src/static/importer.ts: the import of GTFS files into the store of datasets, and
-- `checksumContents` of services/data/src/static/gtfs-parser.ts. What the importer tells the metrics is
-- a list of events.
mod Safe
pub mod Served
pub mod Laws
mod Tests
use better_mta.Prelude.{
  ℕ, suc, Bool, true, false, not, Option, none, some, List, [], ◌∷◌, ◌++◌, map, filter, length,
  take, first, ltb, nat_eqb, or_else, if◌then◌else◌,
}
use better_mta.Prelude.Sort.{sort}
use better_mta.Prelude.Text.{Text, text, compare_text, starts_with}
use better_mta.Routing.Types.{Host}
use better_mta.Data.Types.{
  StaticDataset, StaticDatasetStatus, active, pending, failed, GtfsCalendar, GtfsCalendarDate,
}
use better_mta.Data.Gtfs.Parse.{
  Files, ParsedGtfs, Numerals, ParseResult, missing, parsed, parse_gtfs_files,
}
use better_mta.Data.Gtfs.Validate.{is_gtfs_date, ValidationIssue, is_error, validate_gtfs}
use better_mta.Data.Lines.{map_routes_to_line_ids}
use better_mta.Data.Static.{
  StaticDatasetStore, StaticStoreError, StoreResult, stored, refused, put_pending, record_failed,
  activate,
}

pub record ImportOptions : Type 0 where
  pub source : Option Text
  pub version_prefix : Option Text
  pub imported_at : Option Text
  pub should_activate : Option Bool
  pub version : Option Text
  pub checksum : Option Text

pub data MetricEvent : Type 0 where
  static_status : Text → Text → MetricEvent
  increment : Text → ℕ → MetricEvent
  last_successful_update : Text → MetricEvent

pub record ImportResult : Type 0 where
  pub dataset : StaticDataset
  pub was_activated : Bool
  pub validation_ok : Bool
  pub issues : List ValidationIssue

-- What an import returns, with the store and the events after it, or what it throws.
pub data ImportOutcome : Type 0 where
  imported : ImportResult → StaticDatasetStore → List MetricEvent → ImportOutcome
  absent_file : Text → ImportOutcome
  refused_by_store : StaticStoreError → ImportOutcome

-- What one file adds to the text that is hashed.
abbrev hashed : Text × Text → Text
hashed (name, content) = name ++ (0 ∷ []) ++ content ++ (0 ∷ [])

hashed_files : List (Text × Text) → Text
hashed_files [] = []
hashed_files (f ∷ fs) = hashed f ++ hashed_files fs

unfoldable pub checksum_contents : Host → Files → Text
unfolding hashed_files
checksum_contents host files =
    text "sha256:" ++ host.sha256_hex (hashed_files (sort (λ f g. compare_text f.0 g.0) files))

abbrev calendar_days : List GtfsCalendar → List Text
calendar_days [] = []
calendar_days (c ∷ cs) = c.start_date ∷ c.end_date ∷ calendar_days cs

-- `dates[dates.length - 1]`, behind a first one
abbrev last_from : Text → List Text → Text
last_from d [] = d
last_from d (e ∷ es) = last_from e es

abbrev ends_of : List Text → Option (Text × Text)
ends_of [] = none
ends_of (d ∷ ds) = some (d, last_from d ds)

unfoldable pub service_window : List GtfsCalendar → List GtfsCalendarDate → Option (Text × Text)
unfolding is_gtfs_date
service_window calendar dates =
    ends_of
      (sort compare_text (filter is_gtfs_date (calendar_days calendar ++ map (λ d. d.date) dates)))

-- `s.replace(part, "")`: the first occurrence
unfoldable pub without : Text → Text → Text
without part [] = []
without part (c ∷ s) =
    let rest = without part s in
    if starts_with (c ∷ s) part then drop_part part (c ∷ s) else c ∷ rest
  where
    drop_part : Text → Text → Text
    drop_part [] s = s
    drop_part (_ ∷ p) [] = []
    drop_part (_ ∷ p) (_ ∷ s) = drop_part p s

unfoldable pub build_version : Text → Text → Text → Text
unfolding without
build_version prefix checksum imported_at =
    let day = filter (λ c. not (nat_eqb c b'-')) (take 10 imported_at) in
    prefix ++ text "_" ++ day ++ text "_" ++ take 8 (without (text "sha256:") checksum)

-- A dataset made of the tables.
unfoldable pub dataset_of :
    StaticDatasetStatus → Text → Text → Text → Text → ParsedGtfs → StaticDataset
unfolding service_window
dataset_of status version source checksum imported_at g =
    let lines = map_routes_to_line_ids g.routes in
    record {
      static_dataset_version = version;
      source = source;
      checksum = checksum;
      status = status;
      imported_at = imported_at;
      activated_at = none;
      stops = g.stops;
      routes = g.routes;
      trips = g.trips;
      stop_times = g.stop_times;
      transfers = g.transfers;
      calendar = g.calendar;
      calendar_dates = g.calendar_dates;
      line_mapping = lines.mappings;
      quarantined_routes = lines.quarantined;
      service_window = service_window g.calendar g.calendar_dates;
    }

-- The counters that are raised where something is counted.
abbrev counted : Text → ℕ → List MetricEvent
counted name n = if ltb 0 n then increment name n ∷ [] else []

abbrev first_events : Text → ParsedGtfs → List MetricEvent
first_events version g =
    static_status (text "pending") version
      ∷ counted (text "bettermta_quarantined_routes_total")
          (length (map_routes_to_line_ids g.routes).quarantined)
    ++ counted (text "bettermta_broken_references_total")
        (length (filter is_error (validate_gtfs g).issues))

-- The end of an import that is to activate its dataset.
unfoldable pub after_activation :
    Text → Text → List ValidationIssue → List MetricEvent → StoreResult → ImportOutcome
after_activation version imported_at issues events (refused e) = refused_by_store e
after_activation version imported_at issues events (stored dataset store) =
    imported
      (record { dataset = dataset; was_activated = true; validation_ok = true; issues = issues })
      store
      (events
        ++ static_status (text "active") version
          ∷ last_successful_update imported_at
          ∷ increment (text "bettermta_static_import_success_total") 1
          ∷ [])

-- The end of the import of a dataset with this version, source, checksum and time.
unfoldable pub import_as :
    Text → Text → Text → Text → Bool → ParsedGtfs → StaticDatasetStore → ImportOutcome
unfolding after_activation
import_as version source checksum imported_at activates g store =
    let validation = validate_gtfs g in
    let events = first_events version g in
    let bad = dataset_of failed version source checksum imported_at g in
    let good = dataset_of pending version source checksum imported_at g in
    let waiting = put_pending good store in
    elim validation.ok [
      | false ↦
          imported
            (record {
              dataset = bad;
              was_activated = false;
              validation_ok = false;
              issues = validation.issues;
            })
            (record_failed bad store)
            (events
              ++ static_status (text "failed") version
                ∷ increment (text "bettermta_static_import_failures_total") 1
                ∷ [])
      | true ↦ elim activates [
        | true ↦
            after_activation version imported_at validation.issues events
              (activate version imported_at waiting)
        | false ↦
            imported
              (record {
                dataset = good;
                was_activated = false;
                validation_ok = true;
                issues = validation.issues;
              })
              waiting (events ++ static_status (text "pending") version ∷ [])
      ]
    ]

-- `importParsed`, at the time `now`.
unfoldable pub import_parsed :
    Host → Text → ImportOptions → ParsedGtfs → StaticDatasetStore → ImportOutcome
unfolding import_as checksum_contents build_version
import_parsed host now options g store =
    let imported_at = or_else options.imported_at now in
    let checksum = or_else options.checksum (checksum_contents host g.raw_files) in
    let built = build_version (or_else options.version_prefix (text "gtfs")) checksum imported_at in
    import_as (or_else options.version built) (or_else options.source (text "mta-subway-gtfs"))
      checksum imported_at (or_else options.should_activate true) g store

-- `importFromFiles`, from what the parser gives.
unfoldable pub import_read :
    Host → Text → ImportOptions → ParseResult → StaticDatasetStore → ImportOutcome
unfolding import_parsed
import_read host now options (missing name) store = absent_file name
import_read host now options (parsed g) store = import_parsed host now options g store

abbrev pub import_from_files :
    Host → Numerals → Text → ImportOptions → Files → StaticDatasetStore → ImportOutcome
import_from_files host numerals now options files store =
    import_read host now options (parse_gtfs_files numerals files) store
