-- ===== src/Data/Import/Laws.antt =====
-- What an import returns, and what it leaves active.
use better_mta.Prelude.{
  ◌≡◌, refl, sym, Bool, true, ◌&&◌, if◌then◌else◌, or_else, Option, some, List, [], inl, inr,
  Bool-cases,
}
use better_mta.Prelude.Text.{Text}
use better_mta.Routing.Types.{Host}
use better_mta.Data.Types.{StaticDataset, pending}
use better_mta.Data.Gtfs.Parse.{ParsedGtfs}
use better_mta.Data.Gtfs.Validate.{ValidationIssue, validate_gtfs}
use better_mta.Data.Static.{lookup, StaticDatasetStore, put_pending, record_failed, activate_found}
use better_mta.Data.Static.Laws.{lookup-set_version}
use better_mta.Data.Import.{
  ImportOptions, ImportOutcome, imported, absent_file, refused_by_store, ImportResult, MetricEvent,
  dataset_of, first_events, after_activation, import_as, import_parsed,
}
use better_mta.Data.Import.Safe.{tables}

-- What an import of tables returns, and what it leaves active.
pub record IsImport (g : ParsedGtfs) (activates : Bool) (store : StaticDatasetStore)
    (r : ImportResult) (after : StaticDatasetStore) : Type 0 where
  pub as_validated : r.validation_ok ≡ (validate_gtfs g).ok
  pub as_asked : r.was_activated ≡ ((validate_gtfs g).ok && activates)
  pub now_active :
      after.active_dataset ≡ (if r.was_activated then some r.dataset else store.active_dataset)
  pub same_tables : tables r.dataset ≡ record g { raw_files = [] }

-- An outcome that is returned, with the predicate for it.
abbrev pub Returns : ImportOutcome → (ImportResult → StaticDatasetStore → Type 0) → Type 0
Returns (imported r after events) P = P r after
Returns (absent_file name) P = ⊥
Returns (refused_by_store e) P = ⊥

module _ (version source checksum at : Text) (g : ParsedGtfs) (store : StaticDatasetStore) where
  abbrev good : StaticDataset
  good = dataset_of pending version source checksum at g

  found-good : lookup version (put_pending good store).by_version ≡ some good
  unfolding put_pending dataset_of
  found-good = lookup-set_version version good store.by_version

  after_activation-IsImport :
      (issues : List ValidationIssue) (events : List MetricEvent) (o : Option StaticDataset)
      → o ≡ some good
      → (validate_gtfs g).ok ≡ true
      → Returns
          (after_activation version at issues events
            (activate_found version at (put_pending good store) o))
          (IsImport g true store)
  unfolding after_activation activate_found dataset_of
  after_activation-IsImport issues events o e fine = rw e (record {
    as_validated = sym fine;
    as_asked = rw fine refl;
    now_active = refl;
    same_tables = refl;
  })

  import_as-IsImport :
      (activates : Bool)
      → Returns
          (import_as version source checksum at activates g store)
          (IsImport g activates store)
  unfolding import_as dataset_of put_pending record_failed
  import_as-IsImport activates = elim (Bool-cases (validate_gtfs g).ok) [
    | inr bad ↦
        rw (import_as, bad)
          (record {
            as_validated = sym bad;
            as_asked = rw bad refl;
            now_active = refl;
            same_tables = refl;
          })
    | inl fine ↦ elim (Bool-cases activates) [
      | inr stays ↦
          rw (import_as, fine, stays)
            (record {
              as_validated = sym fine;
              as_asked = rw fine refl;
              now_active = refl;
              same_tables = refl;
            })
      | inl goes ↦
          rw (import_as, fine, goes)
            (after_activation-IsImport (validate_gtfs g).issues (first_events version g) _
              found-good fine)
    ]
  ]

-- An import of tables always returns: it says whether they are valid, activates the dataset made of
-- them where they are and an activation is asked for, which is so unless the options say
-- otherwise, and leaves the active dataset as it was in every other case.
pub import_parsed-IsImport :
    (host : Host) (now : Text) (options : ImportOptions) (g : ParsedGtfs)
    (store : StaticDatasetStore)
    → Returns
        (import_parsed host now options g store)
        (IsImport g (or_else options.should_activate true) store)
unfolding import_parsed
import_parsed-IsImport host now options g store = import_as-IsImport _ _ _ _ g store _
