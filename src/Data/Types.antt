-- ===== src/Data/Types.antt =====
-- services/data/src/types.ts: the rows of the schedule, the datasets, the realtime snapshots, and
-- the policy of freshness. `undefined` and `null` are `none`; coordinates are in microdegrees.
use better_mta.Prelude.{ℕ, ◌*◌, Bool, Option, List}
use better_mta.Prelude.Int.{ℤ}
use better_mta.Prelude.Text.{Text}
use better_mta.Prelude.Number.{Number, number}
use better_mta.Routing.Types.{DataMode, Severity}

pub data StaticDatasetStatus : Type 0 where
  active pending failed rolled_back : StaticDatasetStatus

pub record GtfsStop : Type 0 where
  pub stop_id : Text
  pub stop_name : Text
  pub stop_lat : ℤ
  pub stop_lon : ℤ
  pub location_type : Number
  pub parent_station : Option Text

pub record GtfsRoute : Type 0 where
  pub route_id : Text
  pub route_short_name : Text
  pub route_long_name : Text
  pub route_color : Text
  pub route_text_color : Text

pub record GtfsTrip : Type 0 where
  pub trip_id : Text
  pub route_id : Text
  pub service_id : Text
  pub trip_headsign : Text
  pub direction_id : Number

pub record GtfsStopTime : Type 0 where
  pub trip_id : Text
  pub arrival_time : Text
  pub departure_time : Text
  pub stop_id : Text
  pub stop_sequence : Number

pub record GtfsTransfer : Type 0 where
  pub from_stop_id : Text
  pub to_stop_id : Text
  pub transfer_type : Number
  pub min_transfer_time : Option Number

pub record GtfsCalendar : Type 0 where
  pub service_id : Text
  pub monday : Bool
  pub tuesday : Bool
  pub wednesday : Bool
  pub thursday : Bool
  pub friday : Bool
  pub saturday : Bool
  pub sunday : Bool
  pub start_date : Text
  pub end_date : Text

pub data ExceptionType : Type 0 where
  added removed : ExceptionType

pub record GtfsCalendarDate : Type 0 where
  pub service_id : Text
  pub date : Text
  pub exception_type : ExceptionType

pub record LineMappingEntry : Type 0 where
  pub gtfs_route_id : Text
  pub line_id : Text
  pub label : Text
  pub display_name : Text
  pub color : Text
  pub text_color : Text
  pub is_shuttle : Bool

pub record QuarantinedRoute : Type 0 where
  pub gtfs_route_id : Text
  pub reason : Text

pub record StaticDataset : Type 0 where
  pub static_dataset_version : Text
  pub source : Text
  pub checksum : Text
  pub status : StaticDatasetStatus
  pub imported_at : Text
  pub activated_at : Option Text
  pub stops : List GtfsStop
  pub routes : List GtfsRoute
  pub trips : List GtfsTrip
  pub stop_times : List GtfsStopTime
  pub transfers : List GtfsTransfer
  pub calendar : List GtfsCalendar
  pub calendar_dates : List GtfsCalendarDate
  pub line_mapping : List LineMappingEntry
  pub quarantined_routes : List QuarantinedRoute
  pub service_window : Option (Text × Text)

pub data StopRelationship : Type 0 where
  scheduled skipped no_data unscheduled : StopRelationship

pub record StopTimeUpdate : Type 0 where
  pub stop_id : Text
  pub stop_sequence : Option Number
  pub arrival_delay_seconds : Option Number
  pub departure_delay_seconds : Option Number
  pub arrival_time : Option Number
  pub departure_time : Option Number
  pub schedule_relationship : Option StopRelationship
  pub scheduled_track : Option Text
  pub actual_track : Option Text

pub data TripRelationship : Type 0 where
  scheduled canceled unscheduled added replaced duplicated deleted : TripRelationship

pub record NormalizedTripUpdate : Type 0 where
  pub trip_id : Text
  pub route_id : Option Text
  pub start_date : Option Text
  pub start_time : Option Text
  pub schedule_relationship : TripRelationship
  pub stop_time_updates : List StopTimeUpdate
  pub feed_id : Text
  pub derived_from_replacement_period : Option Bool
  pub train_id : Option Text
  pub direction : Option Text
  pub is_assigned : Option Bool

pub data FeedFreshnessStatus : Type 0 where
  fresh stale unavailable never_fetched : FeedFreshnessStatus

pub record EntityCounts : Type 0 where
  pub trip_updates : ℕ
  pub alerts : ℕ
  pub vehicles : ℕ
  pub quarantined : ℕ

pub record PerFeedStatus : Type 0 where
  pub feed_id : Text
  pub header_timestamp : Option Text
  pub fetched_at : Option Text
  pub age_seconds : Option Number
  pub status : FeedFreshnessStatus
  pub entity_counts : EntityCounts
  pub is_required : Bool
  pub error : Option Text

pub record FeedAlert : Type 0 where
  pub alert_id : Text
  pub header : Text
  pub description : Option Text
  pub severity : Option Severity
  pub affected_line_ids : Option (List Text)
  pub affected_trip_ids : Option (List Text)
  pub affected_stop_ids : Option (List Text)
  pub feed_id : Text

pub data EntityKind : Type 0 where
  trip_update alert vehicle unknown : EntityKind

pub record QuarantinedEntity : Type 0 where
  pub kind : EntityKind
  pub entity_id : Text
  pub reason : Text
  pub feed_id : Option Text

pub record SkippedStop : Type 0 where
  pub trip_id : Text
  pub stop_id : Text
  pub feed_id : Text

pub record FailedFeed : Type 0 where
  pub feed_id : Text
  pub reason : Text

pub record RealtimeSnapshot : Type 0 where
  pub snapshot_id : Text
  pub static_dataset_version : Option Text
  pub ingested_at : Text
  pub feed_timestamps : List (Text × Text)
  pub entity_counts : EntityCounts
  pub age_seconds : Number
  pub data_mode : DataMode
  pub trip_updates : List NormalizedTripUpdate
  pub cancellations : List NormalizedTripUpdate
  pub skipped_stops : List SkippedStop
  pub alerts : List FeedAlert
  pub quarantined : List QuarantinedEntity
  pub synthetic : Bool
  pub partial_feeds : List Text
  pub failed_feeds : List FailedFeed
  pub per_feed : Option (List (Text × PerFeedStatus))

pub record FreshnessPolicy : Type 0 where
  pub live_max_age_seconds : Number
  pub stale_max_age_seconds : Number
  pub last_known_good_retention_seconds : Number

abbrev pub default_freshness_policy : FreshnessPolicy
default_freshness_policy = record {
  live_max_age_seconds = number 90;
  stale_max_age_seconds = number (15 * 60);
  last_known_good_retention_seconds = number (30 * 60);
}

pub record FreshnessWarning : Type 0 where
  pub code : Text
  pub message : Text

pub record Freshness : Type 0 where
  pub realtime_age_seconds : Option Number
  pub static_activated_at : Option Text
  pub warnings : List FreshnessWarning
