-- ===== src/Data/Versions.antt =====
-- services/data/src/static-pipeline/version-store.ts: the versions kept on disk and the pointer to the
-- active one. The directory `versions` is an association list of its subdirectories, whose tables
-- are left out; `localeCompare` is the engine's.
pub mod Prune
pub mod Pointer
mod Tests
use better_mta.Prelude.{
  ℕ, zero, suc, ◌+◌, Bool, true, false, not, ◌||◌, Option, none, some, List, [], ◌∷◌, ◌++◌, map,
  filter, all, length, ltb, if◌then◌else◌, is_empty, Ordering,
}
use better_mta.Prelude.Sort.{sort}
use better_mta.Prelude.Text.{Text, ◌===◌, compare_text}
use better_mta.Prelude.Number.{Number}

pub record VersionMetadata : Type 0 where
  pub version_id : Text
  pub sha256 : Text
  pub source_url : Text
  pub fetched_at : Text
  pub byte_size : Number
  pub service_date_range : Option (Text × Text)
  pub table_counts : List (Text × Number)
  pub attribution : Text
  pub license_note : Text

pub record ActivePointer : Type 0 where
  pub version_id : Text
  pub sha256 : Text
  pub activated_at : Text

-- The file `metadata.json` of a version.
pub data MetadataFile : Type 0 where
  no_file unreadable : MetadataFile
  metadata : VersionMetadata → MetadataFile

pub record VersionFiles : Type 0 where
  pub directories : List (Text × MetadataFile)
  pub active_file : Option ActivePointer

-- `existsSync` of the directory of a version, with its metadata file.
unfoldable pub find_directory : Text → List (Text × MetadataFile) → Option MetadataFile
find_directory id [] = none
find_directory id ((name, file) ∷ rest) = if name === id then some file else find_directory id rest

-- The directory is made if it is not there, and its metadata file is written.
unfoldable pub write_directory :
    Text → MetadataFile → List (Text × MetadataFile) → List (Text × MetadataFile)
write_directory id file [] = (id, file) ∷ []
write_directory id file ((name, old) ∷ rest) =
    let others = write_directory id file rest in
    if name === id then (name, file) ∷ rest else (name, old) ∷ others

-- `storeVersionDataset`; `STATIC_ATTRIBUTION` and `STATIC_LICENSE_NOTE` are the first two arguments.
unfoldable pub store_version_dataset : Text → Text → VersionMetadata → VersionFiles → VersionFiles
unfolding write_directory
store_version_dataset attribution note m files =
    let written = record m {
      attribution = if is_empty m.attribution then attribution else m.attribution;
      license_note = if is_empty m.license_note then note else m.license_note;
    } in
    record files { directories = write_directory m.version_id (metadata written) files.directories }

unfoldable pub pointer_read : Option ActivePointer → Option ActivePointer
pointer_read none = none
pointer_read (some p) = if is_empty p.version_id || is_empty p.sha256 then none else some p

abbrev pub read_active_pointer : VersionFiles → Option ActivePointer
read_active_pointer files = pointer_read files.active_file

unfoldable pub metadata_read : Option MetadataFile → Option VersionMetadata
metadata_read (some (metadata m)) = some m
metadata_read file = none

abbrev pub read_version_metadata : VersionFiles → Text → Option VersionMetadata
read_version_metadata files id = metadata_read (find_directory id files.directories)

pub data ActivationResult : Type 0 where
  activated : VersionFiles → ActivationResult
  missing_version missing_metadata : Text → ActivationResult

unfoldable pub activate_in : ActivePointer → VersionFiles → Option MetadataFile → ActivationResult
activate_in p files none = missing_version p.version_id
activate_in p files (some no_file) = missing_metadata p.version_id
activate_in p files (some file) = activated (record files { active_file = some p })

-- `activateVersion`, with a write that succeeds.
abbrev pub activate_version : ActivePointer → VersionFiles → ActivationResult
activate_version p files = activate_in p files (find_directory p.version_id files.directories)

unfoldable pub list_retained_versions : VersionFiles → List Text
list_retained_versions files = sort compare_text (map (λ d. d.0) files.directories)

-- `meta?.fetchedAt ?? ""`
unfoldable pub fetch_time : Option VersionMetadata → Text
fetch_time none = []
fetch_time (some m) = m.fetched_at

-- A version with the time at which it was fetched.
abbrev pub Dated : Type 0
Dated = Text × Text

-- `d.id === activeVersionId`, which may be null
unfoldable pub is_active : Option Text → Dated → Bool
is_active none d = false
is_active (some id) d = d.0 === id

-- The loop over `decorated`, with what it has removed; an answer has what is left too.
unfoldable pub prune_loop :
    ℕ → ℕ → Option Text → List Dated → List Text → Option (List Dated × List Text)
unfolding is_active
prune_loop zero retain active decorated removed = none
prune_loop (suc fuel) retain active [] removed = some ([], removed)
prune_loop (suc fuel) retain active (oldest ∷ rest) removed =
    elim (ltb retain (length (oldest ∷ rest))) [
      | false ↦ some (oldest ∷ rest, removed)
      | true ↦ elim (is_active active oldest) [
        | true ↦ elim (all (is_active active) (rest ++ (oldest ∷ []))) [
          | true ↦ some (rest ++ (oldest ∷ []), removed)
          | false ↦ prune_loop fuel retain active (rest ++ (oldest ∷ [])) removed
        ]
        | false ↦ prune_loop fuel retain active rest (removed ++ (oldest.0 ∷ []))
      ]
    ]

-- The rounds that are enough for a number of versions.
abbrev pub enough : ℕ → ℕ
enough zero = 1
enough (suc n) = n + 2 + enough n

-- `rmSync` of each of the directories
unfoldable pub remove_directories :
    List Text → List (Text × MetadataFile) → List (Text × MetadataFile)
remove_directories [] directories = directories
remove_directories (id ∷ ids) directories =
    remove_directories ids (filter (λ d. not (d.0 === id)) directories)

-- The end of `pruneVersions`: what the loop has removed is gone.
unfoldable pub prune_files :
    VersionFiles → Option (List Dated × List Text) → Option (List Text × VersionFiles)
unfolding remove_directories
prune_files files none = none
prune_files files (some (kept, removed)) =
    some (removed, record files { directories = remove_directories removed files.directories })

module _ (locale_compare : Text → Text → Ordering) where
  -- `decorated`, from the oldest on
  unfoldable pub dated_versions : VersionFiles → List Dated
  unfolding list_retained_versions fetch_time
  dated_versions files =
      sort (λ a b. locale_compare a.1 b.1)
        (map (λ id. (id, fetch_time (read_version_metadata files id)))
          (list_retained_versions files))

  -- `pruneVersions`: the ids removed and the files after it.
  abbrev pub prune_versions : ℕ → Option Text → VersionFiles → Option (List Text × VersionFiles)
  prune_versions retain active files =
      let dated = dated_versions files in
      prune_files files (prune_loop (enough (length dated)) retain active dated [])
