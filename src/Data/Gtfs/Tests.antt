-- ===== src/Data/Gtfs/Tests.antt =====
-- Files of a GTFS package, read and checked.
use better_mta.Prelude.{◌≡◌, ◌↔◌, refl, true, false, none, some, [], ◌∷◌, map}
use better_mta.Prelude.Text.{text, ◌===◌, trim}
use better_mta.Routing.Satisfaction.{contains}
use better_mta.Prelude.Number.{number}
use better_mta.Data.Types.{GtfsStop, GtfsTransfer}
use better_mta.Data.Samples.{gtfs_files, ones}
use better_mta.Data.Gtfs.Csv.{
  split_csv_line, split_from, lines_from, table_of, fill_row, set_field, parse_csv, field,
}
use better_mta.Data.Gtfs.Parse.{
  ParsedGtfs, missing, parsed, parse_gtfs_files, tables_of, rows_of, cell, field_or, filled,
  stop_of, route_of, trip_of, stop_time_of, transfer_of, calendar_of, missing_file,
}
use better_mta.Data.Gtfs.Validate.{
  report, fault, is_gtfs_date, is_gtfs_time, is_minutes, stop_issues, parent_issues, is_orphan,
  route_issues, is_bad_calendar, calendar_issues, trip_issues, stop_time_issues, transfer_issues,
  gather, issues_with, gtfs_issues, validate_gtfs,
}
use better_mta.Data.Gtfs.Validate.Sound.{IsSound, validate_gtfs-IsSound}

abbrev tables : ParsedGtfs
tables = tables_of ones gtfs_files

abbrev to_nowhere : GtfsTransfer
to_nowhere = record {
  from_stop_id = text "A1";
  to_stop_id = text "A2";
  transfer_type = number 0;
  min_transfer_time = none;
}

-- The tables with a parent station and a transfer to a stop that are not there.
abbrev with_parent : GtfsStop → GtfsStop
with_parent s = record s { parent_station = some (text "A9") }

abbrev broken : ParsedGtfs
broken = record tables { stops = map with_parent tables.stops; transfers = to_nowhere ∷ [] }

parse_tests :
    (parse_gtfs_files ones gtfs_files ≡ parsed tables)
    × (parse_gtfs_files ones ((text "stops.txt", []) ∷ []) ≡ missing (text "routes.txt"))
    × (map (λ s. s.stop_name) tables.stops ≡ text "5 Av" ∷ [])
unfolding parse_gtfs_files missing_file field ◌===◌ tables_of rows_of cell field_or parse_csv
    lines_from table_of split_csv_line split_from fill_row set_field trim stop_of
parse_tests = (refl, refl, refl)

validate_tests :
    ((validate_gtfs tables).ok ≡ true)
    × (map (λ i. i.code) (validate_gtfs broken).issues
        ≡ text "broken_parent_station" ∷ text "broken_transfer" ∷ [])
unfolding field ◌===◌ tables_of rows_of cell field_or parse_csv lines_from table_of split_csv_line
    split_from fill_row set_field trim stop_of trip_of stop_time_of calendar_of route_of transfer_of
    filled contains report fault is_gtfs_date is_gtfs_time is_minutes stop_issues parent_issues
    is_orphan route_issues is_bad_calendar calendar_issues trip_issues stop_time_issues
    transfer_issues gather issues_with gtfs_issues validate_gtfs
validate_tests = (refl, refl)

time_tests :
    (is_gtfs_time (text "9:05:00") ≡ true)
    × (is_gtfs_time (text "25:10:00") ≡ true)
    × (is_gtfs_time (text "125:10:00") ≡ false)
    × (is_gtfs_time (text "9:5:00") ≡ false)
unfolding is_gtfs_time is_minutes
time_tests = (refl, refl, refl, refl)

validate_gtfs-IsSound_example : ((validate_gtfs broken).ok ≡ true) ↔ IsSound broken
validate_gtfs-IsSound_example = validate_gtfs-IsSound broken
