-- ===== src/Data/Merge/Tests.antt =====
-- The merge of two feeds, of which one has failed.
use better_mta.Prelude.{◌≡◌, refl, true, Option, none, some, List, [], ◌∷◌, map}
use better_mta.Prelude.Text.{Text, text}
use better_mta.Data.Types.{FailedFeed}
use better_mta.Data.Merge.{ParsedRealtimeFeed, merge_feeds, merge_from, merge_feed}
use better_mta.Data.Merge.Laws.{IsMerged, merge_feeds-IsMerged}

abbrev feed : Text → Option FailedFeed → ParsedRealtimeFeed
feed id failure = record {
  feed_id = id;
  feed_timestamp_iso = none;
  trip_updates = [];
  alerts = [];
  quarantined = [];
  parse_errors = 2;
  vehicle_count = 5;
  simulated_failure = failure;
  has_wire_entities = true;
}

abbrev two_feeds : List ParsedRealtimeFeed
two_feeds =
    feed (text "ace") none
    ∷ feed (text "g") (some (record { feed_id = text "g"; reason = text "http" }))
    ∷ []

merge_tests :
    ((merge_feeds two_feeds).vehicle_count ≡ 5)
    × ((merge_feeds two_feeds).partial_feeds ≡ text "ace" ∷ [])
    × (map (λ f. f.feed_id) (merge_feeds two_feeds).failed_feeds ≡ text "g" ∷ [])
unfolding merge_from merge_feed
merge_tests = (refl, refl, refl)

merge_feeds-IsMerged_example : IsMerged two_feeds (merge_feeds two_feeds)
merge_feeds-IsMerged_example = merge_feeds-IsMerged two_feeds
