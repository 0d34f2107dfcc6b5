-- ===== src/Data/Merge.antt =====
-- services/data/src/realtime/ingest.ts: `mergeFeeds`, and from parser.ts the parsed feed that it
-- takes. `feedTimestamps` is an association list in the order of first use.
pub mod Laws
mod Tests
use better_mta.Prelude.{
  ℕ, ◌+◌, Bool, true, false, ◌&&◌, ◌||◌, Option, none, some, List, [], ◌∷◌, ◌++◌, if◌then◌else◌,
  is_empty,
}
use better_mta.Prelude.Text.{Text, ◌===◌}
use better_mta.Data.Types.{NormalizedTripUpdate, FeedAlert, QuarantinedEntity, FailedFeed}

pub record ParsedRealtimeFeed : Type 0 where
  pub feed_id : Text
  pub feed_timestamp_iso : Option Text
  pub trip_updates : List NormalizedTripUpdate
  pub alerts : List FeedAlert
  pub quarantined : List QuarantinedEntity
  pub parse_errors : ℕ
  pub vehicle_count : ℕ
  pub simulated_failure : Option FailedFeed
  pub has_wire_entities : Bool

pub record MergedFeeds : Type 0 where
  pub trip_updates : List NormalizedTripUpdate
  pub alerts : List FeedAlert
  pub quarantined : List QuarantinedEntity
  pub parse_errors : ℕ
  pub vehicle_count : ℕ
  pub feed_timestamps : List (Text × Text)
  pub partial_feeds : List Text
  pub failed_feeds : List FailedFeed
  pub has_wire_entities : Bool

abbrev pub nothing_merged : MergedFeeds
nothing_merged = record {
  trip_updates = [];
  alerts = [];
  quarantined = [];
  parse_errors = 0;
  vehicle_count = 0;
  feed_timestamps = [];
  partial_feeds = [];
  failed_feeds = [];
  has_wire_entities = false;
}

-- `feedTimestamps[feedId] = timestamp`
unfoldable pub set_timestamp : Text → Text → List (Text × Text) → List (Text × Text)
set_timestamp feed timestamp [] = (feed, timestamp) ∷ []
set_timestamp feed timestamp ((f, t) ∷ rest) =
    if f === feed then (f, timestamp) ∷ rest else (f, t) ∷ set_timestamp feed timestamp rest

-- The timestamp of a feed, if it has one that is not empty.
abbrev pub timestamp_of : ParsedRealtimeFeed → Option Text
timestamp_of feed = elim feed.feed_timestamp_iso [
  | none ↦ none
  | some t ↦ if is_empty t then none else some t
]

abbrev pub merged_timestamps : Text → Option Text → List (Text × Text) → List (Text × Text)
merged_timestamps feed none timestamps = timestamps
merged_timestamps feed (some t) timestamps = set_timestamp feed t timestamps

-- A feed without timestamp and content is one that was polled in vain.
abbrev pub merged_partial : ParsedRealtimeFeed → Option Text → List Text → List Text
merged_partial feed none partials =
    if is_empty feed.trip_updates && is_empty feed.alerts
    then partials ++ feed.feed_id ∷ []
    else partials
merged_partial feed (some t) partials = partials

-- One round of the loop, by whether the feed has failed.
unfoldable pub merge_feed : Option FailedFeed → ParsedRealtimeFeed → MergedFeeds → MergedFeeds
merge_feed (some failure) f merged = record merged {
  failed_feeds = merged.failed_feeds ++ failure ∷ [];
}
merge_feed none f merged = record {
  trip_updates = merged.trip_updates ++ f.trip_updates;
  alerts = merged.alerts ++ f.alerts;
  quarantined = merged.quarantined ++ f.quarantined;
  parse_errors = merged.parse_errors + f.parse_errors;
  vehicle_count = merged.vehicle_count + f.vehicle_count;
  feed_timestamps = merged_timestamps f.feed_id (timestamp_of f) merged.feed_timestamps;
  partial_feeds = merged_partial f (timestamp_of f) merged.partial_feeds;
  failed_feeds = merged.failed_feeds;
  has_wire_entities = f.has_wire_entities || merged.has_wire_entities;
}

unfoldable pub merge_from : List ParsedRealtimeFeed → MergedFeeds → MergedFeeds
merge_from [] merged = merged
merge_from (f ∷ feeds) merged = merge_from feeds (merge_feed f.simulated_failure f merged)

abbrev pub merge_feeds : List ParsedRealtimeFeed → MergedFeeds
merge_feeds feeds = merge_from feeds nothing_merged
