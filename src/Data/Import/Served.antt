-- ===== src/Data/Import/Served.antt =====
-- The datasets that a store serves after imports, activations and rollbacks.
use better_mta.Prelude.{◌≡◌, refl, Bool, List, inl, inr, Bool-cases}
use mathlib.Core.Path.{subst}
use better_mta.Prelude.Text.{Text}
use better_mta.Routing.Types.{Host}
use better_mta.Data.Types.{StaticDataset, pending}
use better_mta.Data.Gtfs.Parse.{
  ParsedGtfs, Numerals, Files, ParseResult, parse_gtfs_files, missing, parsed,
}
use better_mta.Data.Gtfs.Validate.{ValidationIssue, validate_gtfs}
use better_mta.Data.Gtfs.Validate.Sound.{validate_gtfs-IsSound}
use better_mta.Data.Static.{
  lookup, StaticDatasetStore, empty_store, StoreResult, stored, refused, activate, rollback,
}
use better_mta.Data.Import.{
  ImportOptions, ImportOutcome, imported, absent_file, refused_by_store, ImportResult, MetricEvent,
  first_events, after_activation, import_as, import_parsed, import_from_files, import_read,
}
use better_mta.Data.Import.Safe.{
  IsSafe, Serves, Leaves, IsSound-tables, put_pending-IsSafe, record_failed-IsSafe,
  activate_found-IsSafe, rollback_to-IsSafe,
}

-- What holds of the store after an import that returns.
abbrev After : ImportOutcome → (StaticDatasetStore → Type 0) → Type 0
After (imported result store events) P = P store
After (absent_file name) P = Unit
After (refused_by_store e) P = Unit

After-activation :
    (version at : Text) (g : ParsedGtfs) (r : StoreResult) (issues : List ValidationIssue)
    (events : List MetricEvent)
    → Leaves r IsSafe
    → After (after_activation version at issues events r) IsSafe
unfolding after_activation
After-activation version at g (refused e) issues events h = tt
After-activation version at g (stored d store) issues events h = h

import_as-IsSafe :
    (version source checksum at : Text) (activates : Bool) (g : ParsedGtfs)
    (store : StaticDatasetStore)
    → IsSafe store
    → After (import_as version source checksum at activates g store) IsSafe
unfolding import_as
import_as-IsSafe version source checksum at activates g store h =
    elim (Bool-cases (validate_gtfs g).ok) [
      | inr bad ↦ rw (import_as, bad) (record_failed-IsSafe _ store h)
      | inl fine ↦
          let waiting =
            put_pending-IsSafe _ store
              (IsSound-tables pending version source checksum at g
                ((validate_gtfs-IsSound g).0 fine))
              h in
          elim (Bool-cases activates) [
            | inr stays ↦ rw (import_as, fine, stays) waiting
            | inl goes ↦
                rw (import_as, fine, goes)
                  (After-activation version at g _ _ (first_events version g)
                    (activate_found-IsSafe version at _ _ refl waiting))
          ]
    ]

import_read-IsSafe :
    (host : Host) (now : Text) (options : ImportOptions) (r : ParseResult)
    (store : StaticDatasetStore)
    → IsSafe store
    → After (import_read host now options r store) IsSafe
unfolding import_read import_parsed
import_read-IsSafe host now options (missing name) store h = tt
import_read-IsSafe host now options (parsed g) store h = import_as-IsSafe _ _ _ _ _ g store h

-- One operation on a store that returns: an import, an activation or a rollback.
pub data Step (host : Host) (numerals : Numerals)
    : StaticDatasetStore → StaticDatasetStore → Type 0 where
  importing :
      {store after : StaticDatasetStore} (now : Text) (options : ImportOptions) (files : Files)
      (r : ImportResult) (events : List MetricEvent)
      → import_from_files host numerals now options files store ≡ imported r after events
      → Step host numerals store after
  activating :
      {store after : StaticDatasetStore} (version at : Text) (d : StaticDataset)
      → activate version at store ≡ stored d after
      → Step host numerals store after
  rolling_back :
      {store after : StaticDatasetStore} (at : Text) (d : StaticDataset)
      → rollback at store ≡ stored d after
      → Step host numerals store after

pub data Reachable (host : Host) (numerals : Numerals) : StaticDatasetStore → Type 0 where
  start : Reachable host numerals empty_store
  step :
      {store after : StaticDatasetStore}
      → Reachable host numerals store
      → Step host numerals store after
      → Reachable host numerals after

module _ {host : Host} {numerals : Numerals} where
  Step-IsSafe :
      {store after : StaticDatasetStore}
      → Step host numerals store after
      → IsSafe store
      → IsSafe after
  Step-IsSafe {store} (importing now options files r events e) h =
      subst (λ o. After o IsSafe) e
        (import_read-IsSafe host now options (parse_gtfs_files numerals files) store h)
  Step-IsSafe {store} (activating version at d e) h =
      subst (λ o. Leaves o IsSafe) e
        (activate_found-IsSafe version at store (lookup version store.by_version) refl h)
  Step-IsSafe {store} (rolling_back at d e) h =
      subst (λ o. Leaves o IsSafe) e
        (rollback_to-IsSafe at store store.previous h.serves_previous h)

  Reachable-IsSafe : {store : StaticDatasetStore} → Reachable host numerals store → IsSafe store
  Reachable-IsSafe start = record { serves_active = tt; serves_previous = tt; vetted = tt }
  Reachable-IsSafe (step before s) = Step-IsSafe s (Reachable-IsSafe before)

-- After any imports, activations and rollbacks that return, from the empty store on, the tables of the active dataset are sound, and so are those of the target of a rollback.
pub Reachable-Serves :
    (host : Host) (numerals : Numerals) (store : StaticDatasetStore)
    → Reachable host numerals store
    → Serves store.active_dataset × Serves store.previous
Reachable-Serves host numerals store r =
    let safe = Reachable-IsSafe r in (safe.serves_active, safe.serves_previous)
