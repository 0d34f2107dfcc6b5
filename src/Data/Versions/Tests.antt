-- ===== src/Data/Versions/Tests.antt =====
-- Three versions on disk, of which the oldest is active.
use better_mta.Prelude.{◌≡◌, refl, Option, none, some, List, [], ◌∷◌}
use better_mta.Prelude.Text.{Text, text, ◌===◌, compare_text}
use better_mta.Prelude.Sort.{sort}
use better_mta.Prelude.Number.{number}
use better_mta.Data.Versions.{
  VersionMetadata, ActivePointer, VersionFiles, find_directory, write_directory,
  store_version_dataset, pointer_read, read_active_pointer, activate_version, activate_in,
  activated, missing_version, list_retained_versions, fetch_time, metadata_read, Dated, is_active,
  prune_loop, enough, dated_versions, prune_files, prune_versions,
}
use better_mta.Data.Versions.Prune.{IsPruned, Ends, prune_loop-enough}
use better_mta.Data.Versions.Pointer.{Prunes, Keeps, prune_versions-Keeps}

abbrev version : Text → Text → VersionMetadata
version id at = record {
  version_id = id;
  sha256 = text "f0";
  source_url = [];
  fetched_at = at;
  byte_size = number 10;
  service_date_range = none;
  table_counts = [];
  attribution = [];
  license_note = [];
}

abbrev pointer : ActivePointer
pointer = record { version_id = text "a"; sha256 = text "f0"; activated_at = text "5" }

abbrev stored : VersionMetadata → VersionFiles → VersionFiles
stored = store_version_dataset (text "MTA") (text "terms")

abbrev on_disk : VersionFiles
on_disk = stored (version (text "c") (text "3")) (
    stored (version (text "b") (text "2")) (
      stored (version (text "a") (text "1"))
        (record { directories = []; active_file = some pointer })))

abbrev dated : List Dated
dated = (text "a", text "1") ∷ (text "b", text "2") ∷ (text "c", text "3") ∷ []

abbrev removed_by : Option (List Text × VersionFiles) → List Text
removed_by none = []
removed_by (some (removed, files)) = removed

prune_tests :
    (dated_versions compare_text on_disk ≡ dated)
    × (removed_by (prune_versions compare_text 1 (some (text "a")) on_disk)
        ≡ text "b" ∷ text "c" ∷ [])
    × (removed_by (prune_versions compare_text 2 (some (text "a")) on_disk) ≡ text "b" ∷ [])
    × (removed_by (prune_versions compare_text 0 (some (text "a")) on_disk)
        ≡ text "b" ∷ text "c" ∷ [])
    × (removed_by (prune_versions compare_text 2 none on_disk) ≡ text "a" ∷ [])
unfolding dated_versions list_retained_versions fetch_time metadata_read sort compare_text
    find_directory write_directory store_version_dataset prune_loop is_active prune_files ◌===◌
prune_tests = (refl, refl, refl, refl, refl)

pointer_tests :
    (read_active_pointer on_disk ≡ some pointer)
    × (activate_version (record pointer { version_id = text "z" }) on_disk
        ≡ missing_version (text "z"))
    × (activate_version pointer on_disk ≡ activated on_disk)
unfolding write_directory store_version_dataset pointer_read activate_in find_directory ◌===◌
pointer_tests = (refl, refl, refl)

prune_loop-enough_example :
    Ends
      (prune_loop (enough 3) 1 (some (text "a")) dated [])
      (IsPruned 1 (some (text "a")) dated [])
prune_loop-enough_example = prune_loop-enough 1 (some (text "a")) dated

prune_versions-Keeps_example :
    Prunes (prune_versions compare_text 1 (some (text "a")) on_disk) (Keeps (text "a") on_disk)
prune_versions-Keeps_example = prune_versions-Keeps compare_text 1 (text "a") on_disk
