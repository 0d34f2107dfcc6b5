-- ===== src/Data/Versions/Pointer.antt =====
-- The directory of the active version, after an activation and a pruning.
use better_mta.Prelude.{
  ℕ, ◌≡◌, refl, ap, ◌∙◌, true, false, not, Option, none, some, List, [], ◌∷◌, filter, Bool-cases,
  inl, inr, Memᴰ, Memᴰ-append_left, Memᴰ-of_map, Memᴰ-of_filter, Ordering,
}
use mathlib.Core.Path.{subst}
use better_mta.Prelude.Text.{Text, ◌===◌, ===_sound, ===_refl}
use better_mta.Data.Versions.{
  Dated, is_active, VersionFiles, MetadataFile, find_directory, remove_directories, dated_versions,
  prune_files, prune_versions,
}
use better_mta.Data.Versions.Prune.{IsPruned, Ends, others, prune_loop-enough}

find-filter :
    (id x : Text) (ds : List (Text × MetadataFile))
    → (id === x) ≡ false
    → find_directory id (filter (λ d. not (d.0 === x)) ds) ≡ find_directory id ds
unfolding find_directory
find-filter id x [] h = refl
find-filter id x ((name, file) ∷ ds) h = elim (Bool-cases (name === id)) [
  | inl same ↦
      let kept : (name === x) ≡ false = ap (λ n. n === x) (===_sound name id same) ∙ h in
      rw kept (rw same refl)
  | inr other ↦ elim (Bool-cases (name === x)) [
    | inl gone ↦ rw gone (find-filter id x ds h ∙ rw other refl)
    | inr kept ↦ rw kept (rw other (find-filter id x ds h))
  ]
]

find-remove_directories :
    (id : Text) (out : List Text) (ds : List (Text × MetadataFile))
    → ((x : Text) → Memᴰ x out → (id === x) ≡ false)
    → find_directory id (remove_directories out ds) ≡ find_directory id ds
unfolding remove_directories
find-remove_directories id [] ds h = refl
find-remove_directories id (x ∷ out) ds h =
    find-remove_directories id out _ (λ y m. h y (Memᴰ.tail m))
    ∙ find-filter id x ds (h x (Memᴰ.head refl))

===-swapped : (a b : Text) → not (a === b) ≡ true → (b === a) ≡ false
===-swapped a b h = elim (Bool-cases (b === a)) [
  | inl same ↦ cc (===_refl a, ===_sound b a same)
  | inr other ↦ other
]

-- What is removed is not the active version.
spares :
    (retain : ℕ) (id : Text) (dated kept : List Dated) (out : List Text)
    → IsPruned retain (some id) dated [] kept out
    → (x : Text) → Memᴰ x out
    → (id === x) ≡ false
unfolding is_active
spares retain id dated kept out h x m =
    let in_others =
      subst (λ ids. Memᴰ x ids) h.in_order (Memᴰ-append_left out (others (some id) kept) m) in
    let (d, n, e) = Memᴰ-of_map (λ (d : Dated). d.0) _ in_others in
    let (k, t) = Memᴰ-of_filter (λ d. not (is_active (some id) d)) dated n in
    ap (λ y. id === y) e ∙ ===-swapped d.0 id t

-- What holds of the ids removed and of the files, where a pruning returns.
abbrev pub Prunes : Option (List Text × VersionFiles) → (List Text → VersionFiles → Type 0) → Type 0
Prunes none P = ⊥
Prunes (some (removed, files)) P = P removed files

-- The files still have the active pointer and the directory of this version.
abbrev pub Keeps : Text → VersionFiles → List Text → VersionFiles → Type 0
Keeps id before removed after =
    (find_directory id after.directories ≡ find_directory id before.directories)
    × (after.active_file ≡ before.active_file)

prune_files-Keeps :
    (retain : ℕ) (id : Text) (files : VersionFiles) (dated : List Dated)
    (o : Option (List Dated × List Text))
    → Ends o (IsPruned retain (some id) dated [])
    → Prunes (prune_files files o) (Keeps id files)
unfolding prune_files
prune_files-Keeps retain id files dated none h = h
prune_files-Keeps retain id files dated (some (kept, out)) h =
    (find-remove_directories id out files.directories (spares retain id dated kept out h), refl)

-- Pruning returns, whatever the number of versions to retain and the order that the engine gives to times, and
-- it leaves the directory of the version that it is told is active, with its metadata, and the
-- active pointer as they were.
pub prune_versions-Keeps :
    (locale_compare : Text → Text → Ordering) (retain : ℕ) (id : Text) (files : VersionFiles)
    → Prunes (prune_versions locale_compare retain (some id) files) (Keeps id files)
prune_versions-Keeps locale_compare retain id files =
    prune_files-Keeps retain id files (dated_versions locale_compare files) _
      (prune_loop-enough retain (some id) (dated_versions locale_compare files))
