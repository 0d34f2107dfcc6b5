-- ===== src/Data/Static/Activation.antt =====
-- The reachable states of the store of services/data/src/static/store.ts, activation and rollback.
use better_mta.Prelude.{
  ◌≡◌, ◌↔◌, refl, ap, sym, ◌∙◌, true, false, Option, none, some, Bool-cases, Option-cases, ◌⊎◌, inl,
  inr,
}
use mathlib.Core.Path.{subst}
use better_mta.Prelude.Text.{Text}
use better_mta.Data.Types.{StaticDataset, StaticDatasetStatus, active, rolled_back}
use better_mta.Data.Static.{
  Versions, lookup, set_version, StaticDatasetStore, StaticStoreError, unknown_version,
  refused_failed, stored, refused, with_status, is_failed, demote, demote_from, activated, activate,
  activate_found, retire, rollback, rollback_to,
}
use better_mta.Data.Static.Laws.{
  HasStatus, IsWellFormed, Step, pending_put, failure_recorded, activation, rolling_back, Reachable,
  start, step, set_version-IsKeyed, lookup-IsKeyed, HasStatus-set_version, known-set_version,
  put_pending-IsWellFormed, record_failed-IsWellFormed,
}

stored-injective :
    {d e : StaticDataset} {s t : StaticDatasetStore} → stored d s ≡ stored e t → s ≡ t
stored-injective h = cc

stored-dataset : {d e : StaticDataset} {s t : StaticDatasetStore} → stored d s ≡ stored e t → d ≡ e
stored-dataset h = cc

-- The three cases in which an activation returns or throws.
data ActivateView (version at : Text) (store : StaticDatasetStore) : Type 0 where
  is_unknown :
      lookup version store.by_version ≡ none
      → activate version at store ≡ refused (unknown_version version)
      → ActivateView version at store
  is_refused :
      (d : StaticDataset)
      → lookup version store.by_version ≡ some d
      → is_failed d.status ≡ true
      → activate version at store ≡ refused (refused_failed version)
      → ActivateView version at store
  is_activated :
      (d : StaticDataset)
      → lookup version store.by_version ≡ some d
      → is_failed d.status ≡ false
      → activate version at store
        ≡ stored (activated d at) (record (demote store) {
          active_dataset = some (activated d at);
          by_version = set_version version (activated d at) (demote store).by_version;
        })
      → ActivateView version at store

activate-view : (version at : Text) (store : StaticDatasetStore) → ActivateView version at store
unfolding activate_found
activate-view version at store = elim (Option-cases (lookup version store.by_version)) [
  | inl n ↦ is_unknown n (rw n refl)
  | inr (d, k) ↦ elim (Bool-cases (is_failed d.status)) [
    | inl t ↦ is_refused d k t (rw k (rw t refl))
    | inr f ↦ is_activated d k f (rw k (rw f refl))
  ]
]

-- An activation throws exactly if the version is unknown or its dataset has failed, with the error
-- that says which; in every other case it returns.
pub activate-refused_iff :
    (version at : Text) (store : StaticDatasetStore) (e : StaticStoreError)
    → (activate version at store ≡ refused e) ↔ (
        (lookup version store.by_version ≡ none) × (e ≡ unknown_version version)
        ⊎ ((d : StaticDataset) × (lookup version store.by_version ≡ some d)
            × (is_failed d.status ≡ true)
            × (e ≡ refused_failed version)))
unfolding activate_found
activate-refused_iff version at store e = (to, from)
  where
    Refusal : Type 0
    Refusal =
        (lookup version store.by_version ≡ none) × (e ≡ unknown_version version)
        ⊎ ((d : StaticDataset) × (lookup version store.by_version ≡ some d)
            × (is_failed d.status ≡ true)
            × (e ≡ refused_failed version))

    to : activate version at store ≡ refused e → Refusal
    to h = elim (activate-view version at store) [
      | is_unknown n r ↦ inl (n, cc)
      | is_refused d k t r ↦ inr (d, k, t, cc)
      | is_activated d k f r ↦ cc
    ]

    from : Refusal → activate version at store ≡ refused e
    from (inl (n, same)) = rw (n, same) refl
    from (inr (d, k, t, same)) = rw (k, same) (rw t refl)

HasStatus-self :
    (status : StaticDatasetStatus) (d : StaticDataset) (versions : Versions)
    → d.status ≡ status
    → HasStatus status (set_version d.static_dataset_version d versions) (some d)
HasStatus-self status d versions h = (h, known-set_version d.static_dataset_version d versions)

demote-IsWellFormed :
    (o : Option StaticDataset) (store : StaticDatasetStore)
    → IsWellFormed store
    → IsWellFormed (demote_from o store)
unfolding demote_from
demote-IsWellFormed none store w = w
demote-IsWellFormed (some current) store w = record {
  keyed = set_version-IsKeyed _ _ _ refl w.keyed;
  active_status = HasStatus-set_version active _ _ _ _ w.active_status;
  previous_status = HasStatus-self rolled_back (with_status rolled_back current) _ refl;
  failed_status = w.failed_status;
}

-- A dataset put under its version as the active one.
install-IsWellFormed :
    (d : StaticDataset) (store : StaticDatasetStore)
    → IsWellFormed store
    → d.status ≡ active
    → IsWellFormed (record store {
      active_dataset = some d;
      by_version = set_version d.static_dataset_version d store.by_version;
    })
install-IsWellFormed d store w h = record {
  keyed = set_version-IsKeyed _ _ _ refl w.keyed;
  active_status = HasStatus-self active d _ h;
  previous_status = HasStatus-set_version rolled_back _ _ _ _ w.previous_status;
  failed_status = w.failed_status;
}

retire-IsWellFormed :
    (o : Option StaticDataset) (store : StaticDatasetStore)
    → IsWellFormed store
    → IsWellFormed (retire o store)
unfolding retire
retire-IsWellFormed none store w = record {
  keyed = w.keyed;
  active_status = w.active_status;
  previous_status = tt;
  failed_status = w.failed_status;
}
retire-IsWellFormed (some current) store w = record {
  keyed = set_version-IsKeyed _ _ _ refl w.keyed;
  active_status = HasStatus-set_version active _ _ _ _ w.active_status;
  previous_status = HasStatus-self rolled_back (with_status rolled_back current) _ refl;
  failed_status = w.failed_status;
}

activate-IsWellFormed :
    (version at : Text) (store : StaticDatasetStore) (d : StaticDataset)
    (after : StaticDatasetStore)
    → IsWellFormed store
    → activate version at store ≡ stored d after
    → IsWellFormed after
activate-IsWellFormed version at store d after w h = elim (activate-view version at store) [
  | is_unknown n r ↦ cc
  | is_refused x k t r ↦ cc
  | is_activated x k f r ↦
      let same = stored-injective (sym r ∙ h) in
      subst IsWellFormed same (
        subst
          (λ v. IsWellFormed (record (demote store) {
            active_dataset = some (activated x at);
            by_version = set_version v (activated x at) (demote store).by_version;
          }))
          (lookup-IsKeyed version store.by_version x w.keyed k)
          (install-IsWellFormed (activated x at) (demote store)
            (demote-IsWellFormed store.active_dataset store w) refl))
]

rollback-IsWellFormed :
    (at : Text) (store : StaticDatasetStore) (o : Option StaticDataset) (d : StaticDataset)
    (after : StaticDatasetStore)
    → IsWellFormed store
    → rollback_to at store o ≡ stored d after
    → IsWellFormed after
unfolding rollback_to
rollback-IsWellFormed at store none d after w h = cc
rollback-IsWellFormed at store (some target) d after w h = subst IsWellFormed (stored-injective h) (
    retire-IsWellFormed store.active_dataset _
      (install-IsWellFormed (activated target at) store w refl))

Step-IsWellFormed :
    {store after : StaticDatasetStore} → Step store after → IsWellFormed store → IsWellFormed after
Step-IsWellFormed (pending_put d) w = put_pending-IsWellFormed d _ w
Step-IsWellFormed (failure_recorded d) w = record_failed-IsWellFormed d _ w
Step-IsWellFormed (activation version at d h) w = activate-IsWellFormed version at _ d _ w h
Step-IsWellFormed (rolling_back at d h) w = rollback-IsWellFormed at _ _ d _ w h

-- In every state that the operations reach from the empty store the active dataset has the status
-- `active` and the target of a rollback `rolled_back`; the versions of both are keys of the map of
-- versions, each key of the map is the version of the dataset under it, and the failed datasets have
-- the status `failed`.
pub Reachable-IsWellFormed : (store : StaticDatasetStore) → Reachable store → IsWellFormed store
Reachable-IsWellFormed store start = record {
  keyed = tt;
  active_status = tt;
  previous_status = tt;
  failed_status = tt;
}
Reachable-IsWellFormed store (step before s) = Step-IsWellFormed s (Reachable-IsWellFormed _ before)

activate-parts :
    (version at : Text) (store after : StaticDatasetStore) (old new : StaticDataset)
    → store.active_dataset ≡ some old
    → activate version at store ≡ stored new after
    → (after.active_dataset ≡ some new) × (after.previous ≡ some (with_status rolled_back old))
unfolding demote_from
activate-parts version at store after old new h k = elim (activate-view version at store) [
  | is_unknown n r ↦ cc
  | is_refused x l t r ↦ cc
  | is_activated x l f r ↦
      let same = stored-injective (sym r ∙ k) in
      let shown : activated x at ≡ new = stored-dataset (sym r ∙ k) in
      (
        ap (λ (s : StaticDatasetStore). s.active_dataset) (sym same) ∙ ap some shown,
        ap (λ (s : StaticDatasetStore). s.previous) (sym same)
            ∙ ap (λ o. (demote_from o store).previous) h,
      )
]

-- A rollback undoes the activation before it: the dataset that was active is active again, with a new
-- time of activation, and the dataset of the activation is the target of the next rollback.
pub rollback-activate :
    (version at later : Text) (store after : StaticDatasetStore) (old new : StaticDataset)
    → store.active_dataset ≡ some old
    → activate version at store ≡ stored new after
    → (final : StaticDatasetStore) × (rollback later after ≡ stored (activated old later) final)
      × (final.active_dataset ≡ some (activated old later))
      × (final.previous ≡ some (with_status rolled_back new))
unfolding rollback_to retire demote_from
rollback-activate version at later store after old new h k =
    let (now_active, target) = activate-parts version at store after old new h k in
    let restored = activated old later in
    let before = record after {
      active_dataset = some restored;
      by_version = set_version restored.static_dataset_version restored after.by_version;
    } in
    (
      retire (some new) before,
      ap (rollback_to later after) target ∙ ap (λ o. stored restored (retire o before)) now_active,
      refl,
      refl,
    )
