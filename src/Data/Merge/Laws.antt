-- ===== src/Data/Merge/Laws.antt =====
-- What the merge of the feeds holds, said of all feeds at once.
use mathlib.Core.List.{append_assoc, append-nil}
use better_mta.Prelude.{
  ℕ, ◌+◌, ◌≡◌, refl, ap, sym, ◌∙◌, ◌||◌, Option, none, some, List, [], ◌∷◌, ◌++◌, arith, any,
  length, Option-cases, inl, inr,
}
use better_mta.Data.Types.{FailedFeed}
use better_mta.Data.Merge.{
  ParsedRealtimeFeed, MergedFeeds, nothing_merged, merge_feed, merge_from, merge_feeds,
}

abbrev succeeded_first :
    Option FailedFeed → ParsedRealtimeFeed → List ParsedRealtimeFeed → List ParsedRealtimeFeed
succeeded_first none f rest = f ∷ rest
succeeded_first (some e) f rest = rest

-- The feeds that have not failed.
abbrev pub succeeded : List ParsedRealtimeFeed → List ParsedRealtimeFeed
succeeded [] = []
succeeded (f ∷ feeds) = succeeded_first f.simulated_failure f (succeeded feeds)

abbrev failed_first : Option FailedFeed → List FailedFeed → List FailedFeed
failed_first none rest = rest
failed_first (some e) rest = e ∷ rest

-- The failures of the feeds that have.
abbrev pub failures : List ParsedRealtimeFeed → List FailedFeed
failures [] = []
failures (f ∷ feeds) = failed_first f.simulated_failure (failures feeds)

-- All items of all feeds, in order.
abbrev pub items {ℓ} :
    {A : Type ℓ} → (ParsedRealtimeFeed → List A) → List ParsedRealtimeFeed → List A
items part [] = []
items part (f ∷ feeds) = part f ++ items part feeds

abbrev pub total : (ParsedRealtimeFeed → ℕ) → List ParsedRealtimeFeed → ℕ
total part [] = 0
total part (f ∷ feeds) = part f + total part feeds

-- What `after` has beyond `before`: everything of the feeds that have not failed, and the failures of
-- the others.
record Adds (feeds : List ParsedRealtimeFeed) (before after : MergedFeeds) : Type 0 where
  trip_updates :
      after.trip_updates ≡ before.trip_updates ++ items (λ f. f.trip_updates) (succeeded feeds)
  alerts : after.alerts ≡ before.alerts ++ items (λ f. f.alerts) (succeeded feeds)
  quarantined :
      after.quarantined ≡ before.quarantined ++ items (λ f. f.quarantined) (succeeded feeds)
  parse_errors :
      after.parse_errors ≡ before.parse_errors + total (λ f. f.parse_errors) (succeeded feeds)
  vehicle_count :
      after.vehicle_count ≡ before.vehicle_count + total (λ f. f.vehicle_count) (succeeded feeds)
  failed_feeds : after.failed_feeds ≡ before.failed_feeds ++ failures feeds
  wire :
      after.has_wire_entities
      ≡ (before.has_wire_entities || any (λ f. f.has_wire_entities) (succeeded feeds))
  accounted : length (succeeded feeds) + length (failures feeds) ≡ length feeds

merge_from-Adds :
    (feeds : List ParsedRealtimeFeed) (before : MergedFeeds)
    → Adds feeds before (merge_from feeds before)
unfolding merge_from merge_feed
merge_from-Adds [] before = record {
  trip_updates = sym (append-nil _);
  alerts = sym (append-nil _);
  quarantined = sym (append-nil _);
  parse_errors = omega arith;
  vehicle_count = omega arith;
  failed_feeds = sym (append-nil _);
  wire = ground arith;
  accounted = refl;
}
merge_from-Adds (f ∷ feeds) before = elim (Option-cases f.simulated_failure) [
  | inl n ↦
      let rest = merge_from-Adds feeds (merge_feed none f before) in
      rw n (record {
        trip_updates = rest.trip_updates ∙ append_assoc before.trip_updates f.trip_updates _;
        alerts = rest.alerts ∙ append_assoc before.alerts f.alerts _;
        quarantined = rest.quarantined ∙ append_assoc before.quarantined f.quarantined _;
        parse_errors = omega (arith, rest.parse_errors);
        vehicle_count = omega (arith, rest.vehicle_count);
        failed_feeds = rest.failed_feeds;
        wire = rest.wire ∙ ground arith;
        accounted = omega (arith, rest.accounted);
      })
  | inr (e, s) ↦
      let rest = merge_from-Adds feeds (merge_feed (some e) f before) in
      rw s (record {
        trip_updates = rest.trip_updates;
        alerts = rest.alerts;
        quarantined = rest.quarantined;
        parse_errors = rest.parse_errors;
        vehicle_count = rest.vehicle_count;
        failed_feeds = rest.failed_feeds ∙ append_assoc before.failed_feeds (e ∷ []) _;
        wire = rest.wire;
        accounted = omega (arith, rest.accounted);
      })
]

-- What the merge of all feeds holds.
pub record IsMerged (feeds : List ParsedRealtimeFeed) (merged : MergedFeeds) : Type 0 where
  pub trip_updates : merged.trip_updates ≡ items (λ f. f.trip_updates) (succeeded feeds)
  pub alerts : merged.alerts ≡ items (λ f. f.alerts) (succeeded feeds)
  pub quarantined : merged.quarantined ≡ items (λ f. f.quarantined) (succeeded feeds)
  pub parse_errors : merged.parse_errors ≡ total (λ f. f.parse_errors) (succeeded feeds)
  pub vehicle_count : merged.vehicle_count ≡ total (λ f. f.vehicle_count) (succeeded feeds)
  pub failed_feeds : merged.failed_feeds ≡ failures feeds
  pub wire : merged.has_wire_entities ≡ any (λ f. f.has_wire_entities) (succeeded feeds)
  pub accounted : length (succeeded feeds) + length merged.failed_feeds ≡ length feeds

-- The merge holds, in the order of the feeds, the trip updates, alerts and quarantined entities of
-- exactly the feeds that have not failed, the sums of their parse errors and vehicles, whether one of
-- them has wire entities, and the failures of the other feeds; so every feed is accounted for once.
pub merge_feeds-IsMerged : (feeds : List ParsedRealtimeFeed) → IsMerged feeds (merge_feeds feeds)
merge_feeds-IsMerged feeds =
    let a = merge_from-Adds feeds nothing_merged in
    record {
      trip_updates = a.trip_updates;
      alerts = a.alerts;
      quarantined = a.quarantined;
      parse_errors = omega (arith, a.parse_errors);
      vehicle_count = omega (arith, a.vehicle_count);
      failed_feeds = a.failed_feeds;
      wire = a.wire;
      accounted = omega (arith, a.accounted, ap length a.failed_feeds);
    }
