-- ===== src/Data/Static/Laws.antt =====
-- The store of datasets: what is well formed, the steps, and the map of versions.
use better_mta.Prelude.{
  ◌≡◌, refl, sym, ◌∙◌, true, Option, none, some, List, [], ◌∷◌, ◌++◌, All, arith, Bool-cases, inl,
  inr, is_some,
}
use better_mta.Prelude.Text.{Text, ◌===◌, ===_sound, ===_refl}
use better_mta.Data.Types.{StaticDataset, StaticDatasetStatus, active, failed, rolled_back}
use better_mta.Data.Static.{
  Versions, lookup, set_version, StaticDatasetStore, empty_store, stored, with_status, put_pending,
  record_failed, activate, rollback,
}

-- Every entry stands under the version of its dataset.
abbrev pub IsKeyed : Versions → Type 0
IsKeyed versions = All (λ (e : Text × StaticDataset). e.1.static_dataset_version ≡ e.0) versions

-- The dataset, if there is one, has the status, and its version is a key of the map.
abbrev pub HasStatus : StaticDatasetStatus → Versions → Option StaticDataset → Type 0
HasStatus status versions none = Unit
HasStatus status versions (some d) =
    (d.status ≡ status) × (is_some (lookup d.static_dataset_version versions) ≡ true)

-- The active dataset has the status `active`, the target of a rollback `rolled_back`, and the failed
-- ones `failed`; the versions of the first two are keys of the map, whose keys are right.
pub record IsWellFormed (store : StaticDatasetStore) : Type 0 where
  pub keyed : IsKeyed store.by_version
  pub active_status : HasStatus active store.by_version store.active_dataset
  pub previous_status : HasStatus rolled_back store.by_version store.previous
  pub failed_status : All (λ (d : StaticDataset). d.status ≡ failed) store.failed_datasets

-- One operation of the store that returns.
pub data Step : StaticDatasetStore → StaticDatasetStore → Type 0 where
  pending_put :
      {store : StaticDatasetStore} → (d : StaticDataset) → Step store (put_pending d store)
  failure_recorded :
      {store : StaticDatasetStore} → (d : StaticDataset) → Step store (record_failed d store)
  activation :
      {store after : StaticDatasetStore}
      → (version at : Text) (d : StaticDataset) → activate version at store ≡ stored d after
      → Step store after
  rolling_back :
      {store after : StaticDatasetStore}
      → (at : Text) (d : StaticDataset) → rollback at store ≡ stored d after
      → Step store after

-- The states that the operations reach from the empty store.
pub data Reachable : StaticDatasetStore → Type 0 where
  start : Reachable empty_store
  step : {store after : StaticDatasetStore} → Reachable store → Step store after → Reachable after

pub set_version-IsKeyed :
    (version : Text) (d : StaticDataset) (versions : Versions)
    → d.static_dataset_version ≡ version
    → IsKeyed versions
    → IsKeyed (set_version version d versions)
unfolding set_version
set_version-IsKeyed version d [] e k = (e, tt)
set_version-IsKeyed version d ((v, x) ∷ rest) e k = elim (Bool-cases (v === version)) [
  | inl t ↦ rw t (e ∙ sym (===_sound v version t), k.1)
  | inr f ↦ rw f (k.0, set_version-IsKeyed version d rest e k.1)
]

pub lookup-set_version :
    (version : Text) (d : StaticDataset) (versions : Versions)
    → lookup version (set_version version d versions) ≡ some d
unfolding lookup set_version
lookup-set_version version d [] = rw (===_refl version) refl
lookup-set_version version d ((v, x) ∷ rest) = elim (Bool-cases (v === version)) [
  | inl t ↦ rw t (rw t refl)
  | inr f ↦ rw f (rw f (lookup-set_version version d rest))
]

-- Setting a version keeps every other one known.
lookup-set_version_keeps :
    (other version : Text) (d : StaticDataset) (versions : Versions)
    → is_some (lookup other versions) ≡ true
    → is_some (lookup other (set_version version d versions)) ≡ true
unfolding lookup set_version
lookup-set_version_keeps other version d [] h = cc
lookup-set_version_keeps other version d ((v, x) ∷ rest) h =
    ground (arith, lookup-set_version_keeps other version d rest)

pub lookup-IsKeyed :
    (version : Text) (versions : Versions) (d : StaticDataset)
    → IsKeyed versions
    → lookup version versions ≡ some d
    → d.static_dataset_version ≡ version
unfolding lookup
lookup-IsKeyed version [] d k h = cc
lookup-IsKeyed version ((v, x) ∷ rest) d k h = elim (Bool-cases (v === version)) [
  | inl t ↦ let same : x ≡ d = cc (rw t at h) in rw (← same) (k.0 ∙ ===_sound v version t)
  | inr f ↦ lookup-IsKeyed version rest d k.1 (rw f at h)
]

pub HasStatus-set_version :
    (status : StaticDatasetStatus) (version : Text) (d : StaticDataset) (versions : Versions)
    (o : Option StaticDataset)
    → HasStatus status versions o
    → HasStatus status (set_version version d versions) o
HasStatus-set_version status version d versions none h = tt
HasStatus-set_version status version d versions (some x) h =
    (h.0, lookup-set_version_keeps x.static_dataset_version version d versions h.1)

-- A dataset that is set is known.
pub known-set_version :
    (version : Text) (d : StaticDataset) (versions : Versions)
    → is_some (lookup version (set_version version d versions)) ≡ true
known-set_version version d versions = rw (lookup-set_version version d versions) refl

All-snoc :
    (xs : List StaticDataset) (d : StaticDataset)
    → All (λ (x : StaticDataset). x.status ≡ failed) xs
    → d.status ≡ failed
    → All (λ (x : StaticDataset). x.status ≡ failed) (xs ++ d ∷ [])
All-snoc [] d a h = (h, tt)
All-snoc (x ∷ xs) d a h = (a.0, All-snoc xs d a.1 h)

pub put_pending-IsWellFormed :
    (d : StaticDataset) (store : StaticDatasetStore)
    → IsWellFormed store
    → IsWellFormed (put_pending d store)
unfolding put_pending
put_pending-IsWellFormed d store w = record {
  keyed = set_version-IsKeyed _ _ _ refl w.keyed;
  active_status = HasStatus-set_version active _ _ _ _ w.active_status;
  previous_status = HasStatus-set_version rolled_back _ _ _ _ w.previous_status;
  failed_status = w.failed_status;
}

pub record_failed-IsWellFormed :
    (d : StaticDataset) (store : StaticDatasetStore)
    → IsWellFormed store
    → IsWellFormed (record_failed d store)
unfolding record_failed
record_failed-IsWellFormed d store w = record {
  keyed = set_version-IsKeyed _ _ _ refl w.keyed;
  active_status = HasStatus-set_version active _ _ _ _ w.active_status;
  previous_status = HasStatus-set_version rolled_back _ _ _ _ w.previous_status;
  failed_status = All-snoc store.failed_datasets (with_status failed d) w.failed_status refl;
}
