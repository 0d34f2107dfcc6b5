-- ===== src/Data/Static.antt =====
-- services/data/src/static/store.ts: the datasets that are known, and which of them is active.
-- `byVersion` is an association list in the order in which the versions were first set.
pub mod Laws
pub mod Activation
mod Tests
use better_mta.Prelude.{Bool, true, false, Option, none, some, List, [], ◌∷◌, ◌++◌, if◌then◌else◌}
use better_mta.Prelude.Text.{Text, ◌===◌}
use better_mta.Data.Types.{StaticDataset, StaticDatasetStatus, active, pending, failed, rolled_back}

abbrev pub Versions : Type 0
Versions = List (Text × StaticDataset)

-- `byVersion.get(version)`
unfoldable pub lookup : Text → Versions → Option StaticDataset
lookup version [] = none
lookup version ((v, d) ∷ rest) = if v === version then some d else lookup version rest

-- `byVersion.set(version, dataset)`
unfoldable pub set_version : Text → StaticDataset → Versions → Versions
set_version version dataset [] = (version, dataset) ∷ []
set_version version dataset ((v, d) ∷ rest) =
    if v === version then (v, dataset) ∷ rest else (v, d) ∷ set_version version dataset rest

pub record StaticDatasetStore : Type 0 where
  pub active_dataset : Option StaticDataset
  pub previous : Option StaticDataset
  pub by_version : Versions
  pub failed_datasets : List StaticDataset

abbrev pub empty_store : StaticDatasetStore
empty_store = record {
  active_dataset = none;
  previous = none;
  by_version = [];
  failed_datasets = [];
}

pub data StaticStoreError : Type 0 where
  unknown_version refused_failed : Text → StaticStoreError
  no_previous : StaticStoreError

-- The dataset returned and the store after it, or what was thrown.
pub data StoreResult : Type 0 where
  stored : StaticDataset → StaticDatasetStore → StoreResult
  refused : StaticStoreError → StoreResult

abbrev pub with_status : StaticDatasetStatus → StaticDataset → StaticDataset
with_status status dataset = record dataset { status = status }

abbrev pub is_failed : StaticDatasetStatus → Bool
is_failed failed = true
is_failed _ = false

unfoldable pub put_pending : StaticDataset → StaticDatasetStore → StaticDatasetStore
put_pending dataset store = record store {
  by_version =
      set_version dataset.static_dataset_version (with_status pending dataset) store.by_version;
}

unfoldable pub record_failed : StaticDataset → StaticDatasetStore → StaticDatasetStore
record_failed dataset store =
    let copy = with_status failed dataset in
    record store {
      by_version = set_version dataset.static_dataset_version copy store.by_version;
      failed_datasets = store.failed_datasets ++ copy ∷ [];
    }

-- `if (this.active) { ... }` of `activate`: the active dataset becomes the target of a rollback.
unfoldable pub demote_from : Option StaticDataset → StaticDatasetStore → StaticDatasetStore
demote_from none store = store
demote_from (some current) store =
    let old = with_status rolled_back current in
    record store {
      previous = some old;
      by_version = set_version old.static_dataset_version old store.by_version;
    }

abbrev pub demote : StaticDatasetStore → StaticDatasetStore
demote store = demote_from store.active_dataset store

-- `{ ...dataset, status: "active", activatedAt }`
abbrev pub activated : StaticDataset → Text → StaticDataset
activated dataset at = record dataset { status = active; activated_at = some at }

-- `activate`, from the dataset that stands under the version.
unfoldable pub activate_found :
    Text → Text → StaticDatasetStore → Option StaticDataset → StoreResult
activate_found version at store none = refused (unknown_version version)
activate_found version at store (some dataset) =
    if is_failed dataset.status
    then refused (refused_failed version)
    else stored (activated dataset at) (record (demote store) {
      active_dataset = some (activated dataset at);
      by_version = set_version version (activated dataset at) (demote store).by_version;
    })

abbrev pub activate : Text → Text → StaticDatasetStore → StoreResult
activate version at store = activate_found version at store (lookup version store.by_version)

-- What `rollback` does with the dataset that was active, if there was one.
unfoldable pub retire : Option StaticDataset → StaticDatasetStore → StaticDatasetStore
retire none store = record store { previous = none }
retire (some current) store =
    let old = with_status rolled_back current in
    record store {
      previous = some old;
      by_version = set_version current.static_dataset_version old store.by_version;
    }

-- `rollback`, from its target.
unfoldable pub rollback_to : Text → StaticDatasetStore → Option StaticDataset → StoreResult
rollback_to at store none = refused no_previous
rollback_to at store (some target) =
    let restored = activated target at in
    stored restored (
      retire store.active_dataset (record store {
        active_dataset = some restored;
        by_version = set_version restored.static_dataset_version restored store.by_version;
      }))

abbrev pub rollback : Text → StaticDatasetStore → StoreResult
rollback at store = rollback_to at store store.previous
