-- ===== src/Data/Realtime/Resolve.antt =====
-- The snapshot that `resolveForRouting` chooses.
use better_mta.Prelude.{
  ◌≡◌, refl, ap, ◌∙◌, true, Option, none, some, arith, Bool-cases, ◌⊎◌, inl, inr, or_try, or_else,
  false,
}
use better_mta.Prelude.Text.{Text}
use better_mta.Prelude.Number.{Number, number_leb}
use better_mta.Routing.Types.{Host, DataMode, live, synthetic}
use better_mta.Data.Types.{RealtimeSnapshot, FreshnessPolicy}
use better_mta.Data.Freshness.{
  is_within_retention, compute_data_mode, mode_of_age, compute_realtime_age_seconds,
}
use better_mta.Data.Realtime.{
  RealtimeSnapshotStore, is_good, get_last_known_good, is_usable_realtime_snapshot, usable, refresh,
  admit, resolve_for_routing,
}
use better_mta.Data.Realtime.Store.{within, IsLastGood, last_good-IsLastGood}

module _ (host : Host) (now : Number) (policy : FreshnessPolicy) where
  is_good-usable :
      (s : RealtimeSnapshot)
      → is_good host now policy s ≡ true
      → is_usable_realtime_snapshot s ≡ true
  unfolding is_good is_usable_realtime_snapshot
  is_good-usable s h = ground arith

  -- There is no snapshot, or it is not usable.
  abbrev pub IsUnusable : Option RealtimeSnapshot → Type 0
  IsUnusable none = Unit
  IsUnusable (some s) = is_usable_realtime_snapshot s ≡ false

  -- The latest one where it is usable, and else the last good one of the history.
  abbrev pub IsChosen : RealtimeSnapshotStore → Option RealtimeSnapshot → RealtimeSnapshot → Type 0
  IsChosen store newest s =
      (newest ≡ some s) × (is_usable_realtime_snapshot s ≡ true)
      ⊎ (IsUnusable newest × IsLastGood host now policy store.history s)

  -- The mode of a snapshot of this age.
  abbrev pub IsModeOf : Number → RealtimeSnapshot → DataMode → Type 0
  IsModeOf age s mode =
      (s.synthetic ≡ true) × (mode ≡ synthetic)
      ⊎ ((s.synthetic ≡ false) × (mode ≡ mode_of_age policy age))

  -- What routing gets: the chosen snapshot, usable and within retention, with the age and the mode of
  -- this moment, and of the version of the schedule that it was made for or else the given one.
  pub record IsResolved (store : RealtimeSnapshotStore) (newest : Option RealtimeSnapshot)
      (version : Text) (r : RealtimeSnapshot) : Type 0 where
    pub origin : RealtimeSnapshot
    pub chosen : IsChosen store newest origin
    pub age : r.age_seconds ≡ compute_realtime_age_seconds host origin now
    pub mode : IsModeOf (compute_realtime_age_seconds host origin now) origin r.data_mode
    pub of_version : r.static_dataset_version ≡ some (or_else origin.static_dataset_version version)
    pub others : r ≡ record origin {
      age_seconds = r.age_seconds;
      data_mode = r.data_mode;
      static_dataset_version = r.static_dataset_version;
    }
    pub is_usable : is_usable_realtime_snapshot r ≡ true
    pub retained : within host now policy r ≡ true
    pub live_age : r.data_mode ≡ live → number_leb r.age_seconds policy.live_max_age_seconds ≡ true

  mode_of_age-live :
      (age : Number)
      → mode_of_age policy age ≡ live
      → number_leb age policy.live_max_age_seconds ≡ true
  unfolding mode_of_age
  mode_of_age-live age h = ground arith

  refresh-live :
      (version : Text) (s : RealtimeSnapshot)
      → (refresh host now policy version s).data_mode ≡ live
      → number_leb (refresh host now policy version s).age_seconds policy.live_max_age_seconds
        ≡ true
  unfolding refresh compute_data_mode compute_realtime_age_seconds
  refresh-live version s h = elim (Bool-cases s.synthetic) [
    | inl t ↦ cc (rw t at h)
    | inr f ↦ mode_of_age-live _ (rw f at h)
  ]

  refresh-IsModeOf :
      (version : Text) (s : RealtimeSnapshot)
      → IsModeOf
          (compute_realtime_age_seconds host s now)
          s
          (refresh host now policy version s).data_mode
  unfolding refresh compute_data_mode
  refresh-IsModeOf version s = elim (Bool-cases s.synthetic) [
    | inl t ↦ inl (t, rw t refl)
    | inr f ↦ inr (f, rw f refl)
  ]

  refresh-is_usable :
      (version : Text) (s : RealtimeSnapshot)
      → is_usable_realtime_snapshot (refresh host now policy version s)
        ≡ is_usable_realtime_snapshot s
  unfolding refresh is_usable_realtime_snapshot
  refresh-is_usable version s = refl

  refresh-within :
      (version : Text) (s : RealtimeSnapshot)
      → within host now policy (refresh host now policy version s) ≡ within host now policy s
  unfolding refresh is_within_retention
  refresh-within version s = refl

  admit-IsResolved :
      (store : RealtimeSnapshotStore) (newest candidate : Option RealtimeSnapshot) (version : Text)
      (r : RealtimeSnapshot)
      → ((s : RealtimeSnapshot)
          → candidate ≡ some s
          → IsChosen store newest s × (is_usable_realtime_snapshot s ≡ true))
      → admit host now policy version candidate ≡ some r
      → IsResolved store newest version r
  unfolding admit refresh
  admit-IsResolved store newest none version r known h = cc
  admit-IsResolved store newest (some s) version r known h =
      elim (Bool-cases (within host now policy s)) [
        | inr old ↦ cc (rw old at h)
        | inl fresh ↦
            let same : refresh host now policy version s ≡ r = cc (rw fresh at h) in
            rw (← same) (record {
              origin = s;
              chosen = (known s refl).0;
              age = refl;
              mode = refresh-IsModeOf version s;
              of_version = refl;
              others = refl;
              is_usable = refresh-is_usable version s ∙ (known s refl).1;
              retained = refresh-within version s ∙ fresh;
              live_age = refresh-live version s;
            })
      ]

  candidate-known :
      (store : RealtimeSnapshotStore) (newest : Option RealtimeSnapshot) (s : RealtimeSnapshot)
      → or_try (usable newest) (get_last_known_good host now policy store) ≡ some s
      → IsChosen store newest s × (is_usable_realtime_snapshot s ≡ true)
  unfolding usable
  candidate-known store none s h =
      let g = last_good-IsLastGood host now policy store.history s h in
      (inr (tt, g), is_good-usable s g.good)
  candidate-known store (some n) s h = elim (Bool-cases (is_usable_realtime_snapshot n)) [
    | inl t ↦
        let same : n ≡ s = cc (rw t at h) in (inl (ap some same, rw (← same) t), rw (← same) t)
    | inr f ↦
        let g = last_good-IsLastGood host now policy store.history s (rw f at h) in
        (inr (f, g), is_good-usable s g.good)
  ]

  -- The snapshot that routing resolves to is the given latest one if that is usable, and else the last
  -- good one of the history, and it is usable and within retention. Its age is that of the moment
  -- of the resolution; its mode is `synthetic` for a synthetic snapshot and otherwise the mode of
  -- this age, live only if the age is at most the policy's bound for live data; its version of the
  -- schedule is its own or else the given one, and all the rest is as it was.
  pub resolve_for_routing-IsResolved :
      (store : RealtimeSnapshotStore) (newest : Option RealtimeSnapshot) (version : Text)
      (r : RealtimeSnapshot)
      → resolve_for_routing host now policy store newest version ≡ some r
      → IsResolved store newest version r
  unfolding resolve_for_routing
  resolve_for_routing-IsResolved store newest version r h =
      admit-IsResolved store newest _ version r (candidate-known store newest) h
