-- ===== src/Data/Realtime.antt =====
-- services/data/src/realtime/store.ts: the realtime snapshots that are retained, and the parts of
-- services/data/src/realtime/ingest.ts that decide which of them is used. `history` is in the order
-- of the puts.
pub mod Store
pub mod Resolve
mod Tests
use better_mta.Prelude.{
  ℕ, ◌+◌, Bool, true, false, not, ◌&&◌, ◌||◌, Option, none, some, List, [], ◌∷◌, ◌++◌, filter, ltb,
  if◌then◌else◌, or_else, or_try, length, find,
}
use better_mta.Prelude.Text.{Text, ◌===◌}
use better_mta.Prelude.Number.{Number}
use better_mta.Routing.Types.{Host}
use better_mta.Data.Types.{RealtimeSnapshot, FreshnessPolicy}
use better_mta.Data.Freshness.{is_within_retention, compute_realtime_age_seconds, compute_data_mode}

pub record RealtimeSnapshotStore : Type 0 where
  pub latest : Option RealtimeSnapshot
  pub history : List RealtimeSnapshot

abbrev pub empty_store : RealtimeSnapshotStore
empty_store = record { latest = none; history = [] }

-- The last item, `xs[xs.length - 1] ?? null`.
unfoldable pub last {ℓ} : {A : Type ℓ} → List A → Option A
last [] = none
last (x ∷ xs) = or_try (last xs) (some x)

module _ (host : Host) (now : Number) (policy : FreshnessPolicy) where
  -- The test of `prune` on the latest snapshot.
  abbrev pub is_expired : Option RealtimeSnapshot → Bool
  is_expired none = false
  is_expired (some s) = not (is_within_retention host s now policy)

  unfoldable pub prune : RealtimeSnapshotStore → RealtimeSnapshotStore
  prune store =
      let kept = filter (λ s. is_within_retention host s now policy) store.history in
      record {
        latest = if is_expired store.latest then last kept else store.latest;
        history = kept;
      }

  unfoldable pub put : RealtimeSnapshot → RealtimeSnapshotStore → RealtimeSnapshotStore
  put snapshot store =
      prune (record { latest = some snapshot; history = store.history ++ snapshot ∷ [] })

  -- The test of `getLastKnownGood`.
  unfoldable pub is_good : RealtimeSnapshot → Bool
  is_good s =
      is_within_retention host s now policy
      && (ltb 0 s.entity_counts.trip_updates || ltb 0 s.entity_counts.alerts)

  -- The loop of `getLastKnownGood`, which runs from the end of the history.
  unfoldable pub last_good : List RealtimeSnapshot → Option RealtimeSnapshot
  last_good [] = none
  last_good (s ∷ later) = or_try (last_good later) (if is_good s then some s else none)

  abbrev pub get_last_known_good : RealtimeSnapshotStore → Option RealtimeSnapshot
  get_last_known_good store = last_good store.history

abbrev pub get_by_id : Text → RealtimeSnapshotStore → Option RealtimeSnapshot
get_by_id snapshot_id store = find (λ s. s.snapshot_id === snapshot_id) store.history

-- `isUsableRealtimeSnapshot`
unfoldable pub is_usable_realtime_snapshot : RealtimeSnapshot → Bool
is_usable_realtime_snapshot s =
    ltb 0 (s.entity_counts.trip_updates + s.entity_counts.alerts)
    || ltb 0 (length s.trip_updates + length s.alerts)

-- `latest && isUsableRealtimeSnapshot(latest) ? latest : null`
unfoldable pub usable : Option RealtimeSnapshot → Option RealtimeSnapshot
usable none = none
usable (some s) = if is_usable_realtime_snapshot s then some s else none

module _ (host : Host) (now : Number) (policy : FreshnessPolicy) where
  -- What `resolveForRouting` makes of the candidate that it chose.
  unfoldable pub refresh : Text → RealtimeSnapshot → RealtimeSnapshot
  refresh version candidate =
      let age = compute_realtime_age_seconds host candidate now in
      record candidate {
        age_seconds = age;
        data_mode = compute_data_mode (some age) (record {
          has_realtime_payload = true;
          is_synthetic = candidate.synthetic;
          is_unavailable = false;
          policy = policy;
        });
        static_dataset_version = some (or_else candidate.static_dataset_version version);
      }

  unfoldable pub admit : Text → Option RealtimeSnapshot → Option RealtimeSnapshot
  admit version none = none
  admit version (some candidate) =
      if not (is_within_retention host candidate now policy)
      then none
      else some (refresh version candidate)

  unfoldable pub resolve_for_routing :
      RealtimeSnapshotStore → Option RealtimeSnapshot → Text → Option RealtimeSnapshot
  resolve_for_routing store latest version =
      admit version (or_try (usable latest) (get_last_known_good host now policy store))

  -- The store after `commitAssembledSnapshot`; the metrics are not modelled.
  unfoldable pub commit_assembled_snapshot :
      RealtimeSnapshot → RealtimeSnapshotStore → RealtimeSnapshotStore
  commit_assembled_snapshot snapshot store =
      if not (is_usable_realtime_snapshot snapshot)
      then store
      else put host now policy snapshot store
