-- ===== src/Data/Import/Safe.antt =====
-- Stores whose datasets are sound or failed: the operations keep them.
use better_mta.Prelude.{
  ◌≡◌, refl, true, false, Option, none, some, [], ◌∷◌, ◌⊎◌, inl, inr, All, Bool-cases,
}
use mathlib.Core.Path.{subst}
use better_mta.Prelude.Text.{Text, ◌===◌}
use better_mta.Data.Types.{StaticDataset, StaticDatasetStatus}
use better_mta.Data.Gtfs.Parse.{ParsedGtfs}
use better_mta.Data.Gtfs.Validate.Sound.{IsSound}
use better_mta.Data.Static.{
  Versions, lookup, set_version, StaticDatasetStore, StoreResult, stored, refused, is_failed,
  put_pending, record_failed, demote, demote_from, activated, activate_found, retire, rollback_to,
}
use better_mta.Data.Import.{dataset_of}

-- The tables that a dataset was made of.
abbrev pub tables : StaticDataset → ParsedGtfs
tables d = record {
  stops = d.stops;
  routes = d.routes;
  trips = d.trips;
  stop_times = d.stop_times;
  transfers = d.transfers;
  calendar = d.calendar;
  calendar_dates = d.calendar_dates;
  raw_files = [];
}

-- The soundness of tables does not look at the files.
pub IsSound-tables :
    (status : StaticDatasetStatus) (version source checksum at : Text) (g : ParsedGtfs)
    → IsSound g
    → IsSound (tables (dataset_of status version source checksum at g))
unfolding dataset_of
IsSound-tables status version source checksum at g s = record {
  stops_named = s.stops_named;
  stops_distinct = s.stops_distinct;
  parents = s.parents;
  routes_named = s.routes_named;
  calendars = s.calendars;
  trips = s.trips;
  stop_times = s.stop_times;
  transfers = s.transfers;
  has_stops = s.has_stops;
  has_routes = s.has_routes;
}

-- A dataset that may become active: it did not fail, and its tables are sound.
abbrev pub IsVetted : StaticDataset → Type 0
IsVetted d = (is_failed d.status ≡ true) ⊎ IsSound (tables d)

-- The dataset, if there is one, is sound.
abbrev pub Serves : Option StaticDataset → Type 0
Serves none = Unit
Serves (some d) = IsSound (tables d)

abbrev pub AreVetted : Versions → Type 0
AreVetted versions = All (λ (e : Text × StaticDataset). IsVetted e.1) versions

pub record IsSafe (store : StaticDatasetStore) : Type 0 where
  pub serves_active : Serves store.active_dataset
  pub serves_previous : Serves store.previous
  pub vetted : AreVetted store.by_version

AreVetted-set_version :
    (version : Text) (d : StaticDataset) (versions : Versions)
    → IsVetted d
    → AreVetted versions
    → AreVetted (set_version version d versions)
unfolding set_version
AreVetted-set_version version d [] v a = (v, tt)
AreVetted-set_version version d ((k, x) ∷ rest) v (y, ys) = elim (Bool-cases (k === version)) [
  | inl t ↦ rw t (v, ys)
  | inr f ↦ rw f (y, AreVetted-set_version version d rest v ys)
]

IsVetted-lookup :
    (version : Text) (versions : Versions) (d : StaticDataset)
    → AreVetted versions
    → lookup version versions ≡ some d
    → IsVetted d
unfolding lookup
IsVetted-lookup version [] d a h = cc
IsVetted-lookup version ((k, x) ∷ rest) d (y, ys) h = elim (Bool-cases (k === version)) [
  | inl t ↦ subst IsVetted {x = x} {y = d} (cc (rw t at h)) y
  | inr f ↦ IsVetted-lookup version rest d ys (rw f at h)
]

pub put_pending-IsSafe :
    (d : StaticDataset) (store : StaticDatasetStore)
    → IsSound (tables d)
    → IsSafe store
    → IsSafe (put_pending d store)
unfolding put_pending
put_pending-IsSafe d store s h = record {
  serves_active = h.serves_active;
  serves_previous = h.serves_previous;
  vetted = AreVetted-set_version _ _ _ (inr s) h.vetted;
}

pub record_failed-IsSafe :
    (d : StaticDataset) (store : StaticDatasetStore) → IsSafe store → IsSafe (record_failed d store)
unfolding record_failed
record_failed-IsSafe d store h = record {
  serves_active = h.serves_active;
  serves_previous = h.serves_previous;
  vetted = AreVetted-set_version _ _ _ (inl refl) h.vetted;
}

demote-IsSafe :
    (o : Option StaticDataset) (store : StaticDatasetStore)
    → Serves o
    → IsSafe store
    → IsSafe (demote_from o store)
unfolding demote_from
demote-IsSafe none store s h = h
demote-IsSafe (some d) store s h = record {
  serves_active = h.serves_active;
  serves_previous = s;
  vetted = AreVetted-set_version _ _ _ (inr s) h.vetted;
}

install-IsSafe :
    (version : Text) (d : StaticDataset) (store : StaticDatasetStore)
    → IsSound (tables d)
    → IsSafe store
    → IsSafe (record store {
      active_dataset = some d;
      by_version = set_version version d store.by_version;
    })
install-IsSafe version d store s h = record {
  serves_active = s;
  serves_previous = h.serves_previous;
  vetted = AreVetted-set_version _ _ _ (inr s) h.vetted;
}

retire-IsSafe :
    (o : Option StaticDataset) (store : StaticDatasetStore)
    → Serves o
    → IsSafe store
    → IsSafe (retire o store)
unfolding retire
retire-IsSafe none store s h = record {
  serves_active = h.serves_active;
  serves_previous = tt;
  vetted = h.vetted;
}
retire-IsSafe (some d) store s h = record {
  serves_active = h.serves_active;
  serves_previous = s;
  vetted = AreVetted-set_version _ _ _ (inr s) h.vetted;
}

-- What holds of the store after an operation that returns.
abbrev pub Leaves : StoreResult → (StaticDatasetStore → Type 0) → Type 0
Leaves (refused e) P = Unit
Leaves (stored d store) P = P store

pub activate_found-IsSafe :
    (version at : Text) (store : StaticDatasetStore) (o : Option StaticDataset)
    → lookup version store.by_version ≡ o
    → IsSafe store
    → Leaves (activate_found version at store o) IsSafe
unfolding activate_found
activate_found-IsSafe version at store none k h = tt
activate_found-IsSafe version at store (some d) k h = elim (Bool-cases (is_failed d.status)) [
  | inl t ↦ rw (activate_found, t) tt
  | inr f ↦
      rw (activate_found, f)
        (install-IsSafe version (activated d at) (demote store)
          (sound f (IsVetted-lookup version store.by_version d h.vetted k))
          (demote-IsSafe store.active_dataset store h.serves_active h))
]
  where
    sound : is_failed d.status ≡ false → IsVetted d → IsSound (tables d)
    sound f (inl t) = cc
    sound f (inr s) = s

pub rollback_to-IsSafe :
    (at : Text) (store : StaticDatasetStore) (o : Option StaticDataset)
    → Serves o
    → IsSafe store
    → Leaves (rollback_to at store o) IsSafe
unfolding rollback_to
rollback_to-IsSafe at store none s h = tt
rollback_to-IsSafe at store (some d) s h =
    retire-IsSafe store.active_dataset _ h.serves_active
      (install-IsSafe d.static_dataset_version (activated d at) store s h)
