-- ===== src/Data/Handle.antt =====
-- services/data/src/snapshot/handle.ts
pub mod Laws
mod Tests
use better_mta.Prelude.{
  Bool, true, false, not, Option, none, some, List, [], ◌∷◌, if◌then◌else◌, or_else,
}
use mathlib.Core.Option
use better_mta.Prelude.Text.{Text, text}
use better_mta.Prelude.Number.{Number}
use better_mta.Routing.Types.{
  Host, DataMode, RoutingSnapshotHandle, schedule_only, synthetic, unavailable,
}
use better_mta.Data.Types.{
  StaticDataset, StaticDatasetStatus, active, RealtimeSnapshot, FreshnessPolicy, Freshness,
}
use better_mta.Data.Freshness.{build_freshness, compute_data_mode}

pub record HandleOptions : Type 0 where
  pub static_dataset : Option StaticDataset
  pub realtime : Option RealtimeSnapshot
  pub now : Number
  pub policy : FreshnessPolicy
  pub force_unavailable : Bool

pub record SnapshotView : Type 0 where
  pub handle : RoutingSnapshotHandle
  pub freshness : Freshness

abbrev pub is_active : StaticDatasetStatus → Bool
is_active active = true
is_active _ = false

-- The dataset that routing may use.
unfoldable pub active_of : Option StaticDataset → Option StaticDataset
active_of none = none
active_of (some dataset) = if is_active dataset.status then some dataset else none

-- `staticDataset?.activatedAt ?? null`
abbrev pub activation_of : Option StaticDataset → Option Text
activation_of none = none
activation_of (some dataset) = dataset.activated_at

-- What is returned without an active dataset.
unfoldable pub unavailable_view : Option StaticDataset → SnapshotView
unavailable_view dataset = record {
  handle = record {
    static_dataset_version =
        or_else (Option.map (λ d. d.static_dataset_version) dataset) (text "none");
    realtime_snapshot_id = none;
    data_mode = unavailable;
    realtime_age_seconds = none;
    static_activated_at = activation_of dataset;
  };
  freshness = record {
    realtime_age_seconds = none;
    static_activated_at = activation_of dataset;
    warnings =
        record {
          code = text "data_unavailable";
          message = text "Static schedule data is not available.";
        }
        ∷ [];
  };
}

-- The mode that a snapshot gives the handle, from the age that the freshness has.
unfoldable pub realtime_mode : FreshnessPolicy → Option Number → Option RealtimeSnapshot → DataMode
realtime_mode policy age none = schedule_only
realtime_mode policy age (some snapshot) =
    if snapshot.synthetic
    then synthetic
    else compute_data_mode age (record {
      has_realtime_payload = true;
      is_synthetic = false;
      is_unavailable = false;
      policy = policy;
    })

abbrev pub handle_mode : HandleOptions → Freshness → DataMode
handle_mode options freshness =
    if options.force_unavailable
    then unavailable
    else realtime_mode options.policy freshness.realtime_age_seconds options.realtime

module _ (host : Host) where
  unfoldable pub available_view : HandleOptions → StaticDataset → SnapshotView
  available_view options dataset =
      let freshness =
        build_freshness host options.realtime dataset.activated_at options.now options.policy in
      record {
        handle = record {
          static_dataset_version = dataset.static_dataset_version;
          realtime_snapshot_id = Option.map (λ s. s.snapshot_id) options.realtime;
          data_mode = handle_mode options freshness;
          realtime_age_seconds = freshness.realtime_age_seconds;
          static_activated_at = dataset.activated_at;
        };
        freshness = freshness;
      }

  abbrev pub view_of : HandleOptions → Option StaticDataset → SnapshotView
  view_of options none = unavailable_view options.static_dataset
  view_of options (some dataset) = available_view options dataset

  unfoldable pub build_routing_snapshot_handle : HandleOptions → SnapshotView
  build_routing_snapshot_handle options = view_of options (active_of options.static_dataset)
