-- ===== src/Data/Static/Tests.antt =====
-- The store of datasets, on a small example.
use better_mta.Prelude.{◌≡◌, ◌↔◌, ◌⊎◌, refl, true, none, some}
use better_mta.Prelude.Text.{text, ◌===◌}
use better_mta.Data.Types.{StaticDataset, rolled_back}
use better_mta.Data.Samples.{dataset}
use better_mta.Data.Static.{
  StaticDatasetStore, StoreResult, stored, refused, empty_store, lookup, put_pending, activate,
  activate_found, rollback, activated, with_status, set_version, is_failed, unknown_version,
  refused_failed, demote_from,
}
use better_mta.Data.Static.Laws.{IsWellFormed, Reachable, start, step, pending_put, activation}
use better_mta.Data.Static.Activation.{
  activate-refused_iff, Reachable-IsWellFormed, rollback-activate,
}

abbrev store_of : StoreResult → StaticDatasetStore
store_of (stored d s) = s
store_of (refused e) = empty_store

abbrev imported : StaticDatasetStore
imported = put_pending (dataset (text "v2")) (put_pending (dataset (text "v1")) empty_store)

abbrev first_active : StaticDatasetStore
first_active = store_of (activate (text "v1") (text "20") imported)

abbrev second_active : StaticDatasetStore
second_active = store_of (activate (text "v2") (text "30") first_active)

abbrev v1 : StaticDataset
v1 = activated (dataset (text "v1")) (text "20")

abbrev v2 : StaticDataset
v2 = activated (dataset (text "v2")) (text "30")

activation_tests :
    (activate (text "v1") (text "20") imported ≡ stored v1 first_active)
    × (activate (text "v2") (text "30") first_active ≡ stored v2 second_active)
    × (first_active.active_dataset ≡ some v1)
unfolding put_pending activate_found lookup set_version demote_from ◌===◌
activation_tests = (refl, refl, refl)

activate-refused_iff_example :
    (activate (text "v9") (text "20") imported ≡ refused (unknown_version (text "v9"))) ↔ (
      (lookup (text "v9") imported.by_version ≡ none)
        × (unknown_version (text "v9") ≡ unknown_version (text "v9"))
      ⊎ ((d : StaticDataset) × (lookup (text "v9") imported.by_version ≡ some d)
          × (is_failed d.status ≡ true)
          × (unknown_version (text "v9") ≡ refused_failed (text "v9"))))
activate-refused_iff_example =
    activate-refused_iff (text "v9") (text "20") imported (unknown_version (text "v9"))

reached : Reachable first_active
reached =
    step (step (step start (pending_put (dataset (text "v1")))) (pending_put (dataset (text "v2"))))
      (activation (text "v1") (text "20") v1 activation_tests.0)

Reachable-IsWellFormed_example : IsWellFormed first_active
Reachable-IsWellFormed_example = Reachable-IsWellFormed first_active reached

rollback-activate_example :
    (final : StaticDatasetStore) × (rollback (text "40") second_active
      ≡ stored (activated v1 (text "40")) final)
    × (final.active_dataset ≡ some (activated v1 (text "40")))
    × (final.previous ≡ some (with_status rolled_back v2))
rollback-activate_example =
    rollback-activate (text "v2") (text "30") (text "40") first_active second_active v1 v2
      activation_tests.2 activation_tests.1
