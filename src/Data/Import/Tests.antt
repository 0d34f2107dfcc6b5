-- ===== src/Data/Import/Tests.antt =====
-- Imports of a small package.
use better_mta.Prelude.{◌≡◌, refl, true, false, none, some, List, []}
use better_mta.Prelude.Text.{Text, text, ◌===◌, trim, compare_text}
use better_mta.Prelude.Sort.{sort}
use better_mta.Prelude.Number.{number}
use better_mta.Routing.Types.{Host}
use better_mta.Routing.Satisfaction.{contains}
use better_mta.Data.Samples.{gtfs_files, ones, dataset}
use better_mta.Data.Gtfs.Csv.{
  split_csv_line, split_from, lines_from, table_of, fill_row, set_field, parse_csv, field,
}
use better_mta.Data.Gtfs.Parse.{
  ParsedGtfs, parse_gtfs_files, tables_of, rows_of, cell, field_or, filled, stop_of, route_of,
  trip_of, stop_time_of, transfer_of, calendar_of, missing_file,
}
use better_mta.Data.Gtfs.Validate.{
  report, fault, is_gtfs_date, is_gtfs_time, is_minutes, stop_issues, parent_issues, is_orphan,
  route_issues, is_bad_calendar, calendar_issues, trip_issues, stop_time_issues, transfer_issues,
  gather, issues_with, gtfs_issues, validate_gtfs,
}
use better_mta.Data.Static.{
  StaticDatasetStore, empty_store, put_pending, activate_found, lookup, set_version, demote_from,
}
use better_mta.Data.Import.{
  ImportOptions, ImportOutcome, ImportResult, MetricEvent, imported, import_read, import_from_files,
  import_parsed, import_as, after_activation, dataset_of, checksum_contents, build_version,
  service_window,
}
use better_mta.Data.Import.Safe.{Serves}
use better_mta.Data.Import.Served.{start, step, importing, Reachable-Serves}
use better_mta.Data.Import.Laws.{IsImport, Returns, import_parsed-IsImport}

-- A digest that tells nothing of the text.
abbrev host : Host
host = record { date_parse = λ t. number 0; sha256_hex = λ t. text "0123456789abcdef" }

abbrev options : ImportOptions
options = record {
  source = none;
  version_prefix = none;
  imported_at = none;
  should_activate = none;
  version = none;
  checksum = none;
}

abbrev now : Text
now = text "2026-01-05T00:00:00.000Z"

abbrev outcome : ImportOutcome
outcome = import_from_files host ones now options gtfs_files empty_store

abbrev tables : ParsedGtfs
tables = tables_of ones gtfs_files

-- The parts of an import that returns.
abbrev result_of : ImportOutcome → ImportResult
result_of (imported r store events) = r
result_of o = record {
  dataset = dataset (text "none");
  was_activated = false;
  validation_ok = false;
  issues = [];
}

abbrev store_of : ImportOutcome → StaticDatasetStore
store_of (imported r store events) = store
store_of o = empty_store

abbrev events_of : ImportOutcome → List MetricEvent
events_of (imported r store events) = events
events_of o = []

import_tests :
    ((result_of outcome).dataset.static_dataset_version ≡ text "gtfs_20260105_01234567")
    × ((store_of outcome).active_dataset ≡ some (result_of outcome).dataset)
    × ((result_of outcome).dataset.service_window ≡ some (text "20260101", text "20261231"))
unfolding import_read import_parsed import_as after_activation dataset_of service_window
    build_version checksum_contents put_pending activate_found lookup set_version demote_from sort
    compare_text parse_gtfs_files missing_file field ◌===◌ tables_of rows_of cell field_or parse_csv
    lines_from table_of split_csv_line split_from fill_row set_field trim stop_of trip_of
    stop_time_of calendar_of route_of transfer_of filled contains report fault is_gtfs_date
    is_gtfs_time is_minutes stop_issues parent_issues is_orphan route_issues is_bad_calendar
    calendar_issues trip_issues stop_time_issues transfer_issues gather issues_with gtfs_issues
    validate_gtfs
import_tests = (refl, refl, refl)

outcome-imported : outcome ≡ imported (result_of outcome) (store_of outcome) (events_of outcome)
unfolding import_read import_parsed import_as after_activation dataset_of service_window
    build_version checksum_contents put_pending activate_found lookup set_version demote_from sort
    compare_text parse_gtfs_files missing_file field ◌===◌ tables_of rows_of cell field_or parse_csv
    lines_from table_of split_csv_line split_from fill_row set_field trim stop_of trip_of
    stop_time_of calendar_of route_of transfer_of filled contains report fault is_gtfs_date
    is_gtfs_time is_minutes stop_issues parent_issues is_orphan route_issues is_bad_calendar
    calendar_issues trip_issues stop_time_issues transfer_issues gather issues_with gtfs_issues
    validate_gtfs
outcome-imported = refl

Reachable-Serves_example :
    Serves (store_of outcome).active_dataset × Serves (store_of outcome).previous
Reachable-Serves_example = Reachable-Serves host ones (store_of outcome) (
    step start
      (importing now options gtfs_files (result_of outcome) (events_of outcome) outcome-imported))

import_parsed-IsImport_example :
    Returns (import_parsed host now options tables empty_store) (IsImport tables true empty_store)
import_parsed-IsImport_example = import_parsed-IsImport host now options tables empty_store
