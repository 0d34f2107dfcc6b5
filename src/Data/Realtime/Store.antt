-- ===== src/Data/Realtime/Store.antt =====
-- Laws of the store of services/data/src/realtime/store.ts.
use better_mta.Prelude.{
  ◌≡◌, refl, ap, sym, ◌∙◌, Bool, true, false, Option, none, some, List, [], ◌∷◌, ◌++◌, All, arith,
  Bool-cases, Option-cases, inl, inr, filter, or_try, if◌then◌else◌,
}
use better_mta.Prelude.Number.{Number}
use better_mta.Routing.Types.{Host}
use better_mta.Data.Types.{RealtimeSnapshot, FreshnessPolicy}
use better_mta.Data.Freshness.{is_within_retention}
use better_mta.Data.Realtime.{
  RealtimeSnapshotStore, last, prune, put, is_good, last_good, get_last_known_good,
}

module _ {ℓ} {A : Type ℓ} where
  or_try-none : (o : Option A) → or_try o none ≡ o
  or_try-none none = refl
  or_try-none (some a) = refl

  last-snoc : (xs : List A) (x : A) → last (xs ++ x ∷ []) ≡ some x
  unfolding last
  last-snoc [] x = refl
  last-snoc (y ∷ xs) x = rw (last-snoc xs x) refl

  filter-snoc :
      (p : A → Bool) (xs : List A) (x : A)
      → filter p (xs ++ x ∷ []) ≡ filter p xs ++ filter p (x ∷ [])
  filter-snoc p [] x = refl
  filter-snoc p (y ∷ xs) x = ground (arith, filter-snoc p xs x)

  All-filter : (p : A → Bool) (xs : List A) → All (λ a. p a ≡ true) (filter p xs)
  All-filter p [] = tt
  All-filter p (x ∷ xs) = elim (Bool-cases (p x)) [
    | inl t ↦ rw t (t, All-filter p xs)
    | inr f ↦ rw f (All-filter p xs)
  ]

module _ (host : Host) (now : Number) (policy : FreshnessPolicy) where
  abbrev pub within : RealtimeSnapshot → Bool
  within s = is_within_retention host s now policy

  -- What a put leaves: the snapshots within retention, in the order of the puts, of which the latest
  -- is the last.
  pub record IsPut (snapshot : RealtimeSnapshot) (store after : RealtimeSnapshotStore)
      : Type 0 where
    pub history : after.history ≡ filter within (store.history ++ snapshot ∷ [])
    pub retained : All (λ s. within s ≡ true) after.history
    pub latest : after.latest ≡ last after.history

  -- A put keeps exactly the snapshots within retention, the new one after the others, and the latest
  -- snapshot is then the last of these, whatever the store held before.
  pub put-IsPut :
      (snapshot : RealtimeSnapshot) (store : RealtimeSnapshotStore)
      → IsPut snapshot store (put host now policy snapshot store)
  unfolding put prune
  put-IsPut snapshot store = record {
    history = refl;
    retained = All-filter within (store.history ++ snapshot ∷ []);
    latest = elim (Bool-cases (within snapshot)) [
      | inl fresh ↦ rw fresh (
          rw (filter-snoc within store.history snapshot, fresh)
            (sym (last-snoc (filter within store.history) snapshot)))
      | inr old ↦ rw old refl
    ];
  }

  last_good-snoc :
      (xs : List RealtimeSnapshot) (s : RealtimeSnapshot)
      → last_good host now policy (xs ++ s ∷ [])
        ≡ (if is_good host now policy s then some s else last_good host now policy xs)
  unfolding last_good
  last_good-snoc [] s = refl
  last_good-snoc (x ∷ xs) s = ground (arith, last_good-snoc xs s)

  good-within : (s : RealtimeSnapshot) → within s ≡ false → is_good host now policy s ≡ false
  unfolding is_good
  good-within s h = ground arith

  last_good-filter :
      (xs : List RealtimeSnapshot)
      → last_good host now policy (filter within xs) ≡ last_good host now policy xs
  unfolding last_good
  last_good-filter [] = refl
  last_good-filter (x ∷ xs) = elim (Bool-cases (within x)) [
    | inl t ↦ rw t (rw (last_good-filter xs) refl)
    | inr f ↦ rw f (
        rw (good-within x f, last_good-filter xs)
          (sym (or_try-none (last_good host now policy xs))))
  ]

  -- The last-known-good snapshot after a put is the new one if it is good and otherwise, at the same
  -- time and with the same policy, the one from before: an empty poll never displaces it.
  pub get_last_known_good-put :
      (snapshot : RealtimeSnapshot) (store : RealtimeSnapshotStore)
      → get_last_known_good host now policy (put host now policy snapshot store) ≡ (
          if is_good host now policy snapshot
          then some snapshot
          else get_last_known_good host now policy store)
  unfolding put prune
  get_last_known_good-put snapshot store =
      last_good-filter (store.history ++ snapshot ∷ []) ∙ last_good-snoc store.history snapshot

  -- `s` is good, and nothing good was put after it.
  pub record IsLastGood (xs : List RealtimeSnapshot) (s : RealtimeSnapshot) : Type 0 where
    pub before : List RealtimeSnapshot
    pub after : List RealtimeSnapshot
    pub split : xs ≡ before ++ s ∷ after
    pub good : is_good host now policy s ≡ true
    pub none_after : All (λ x. is_good host now policy x ≡ false) after

  last_good-none :
      (xs : List RealtimeSnapshot)
      → last_good host now policy xs ≡ none
      → All (λ x. is_good host now policy x ≡ false) xs
  unfolding last_good
  last_good-none [] h = tt
  last_good-none (x ∷ xs) h = (ground arith, last_good-none xs (ground arith))

  pub last_good-IsLastGood :
      (xs : List RealtimeSnapshot) (s : RealtimeSnapshot)
      → last_good host now policy xs ≡ some s
      → IsLastGood xs s
  unfolding last_good
  last_good-IsLastGood [] s h = cc
  last_good-IsLastGood (x ∷ xs) s h = elim (Option-cases (last_good host now policy xs)) [
    | inl n ↦ record {
      before = [];
      after = xs;
      split = ground arith;
      good = ground arith;
      none_after = last_good-none xs n;
    }
    | inr (y, later) ↦
        let same : y ≡ s = cc (rw later at h) in
        let g = last_good-IsLastGood xs s (later ∙ ap some same) in
        record {
          before = x ∷ g.before;
          after = g.after;
          split = ap (λ l. x ∷ l) g.split;
          good = g.good;
          none_after = g.none_after;
        }
  ]

  -- What a search for the last good snapshot of a history answers.
  abbrev pub IsLastKnownGood : List RealtimeSnapshot → Option RealtimeSnapshot → Type 0
  IsLastKnownGood xs none = All (λ x. is_good host now policy x ≡ false) xs
  IsLastKnownGood xs (some s) = IsLastGood xs s

  -- The last-known-good snapshot is the last in the history that is within retention and has trip
  -- updates or alerts; if there is none, no snapshot of the history is so.
  pub get_last_known_good_lem :
      (store : RealtimeSnapshotStore)
      → IsLastKnownGood store.history (get_last_known_good host now policy store)
  get_last_known_good_lem store = answered (last_good host now policy store.history) refl
    where
      answered :
          (o : Option RealtimeSnapshot)
          → last_good host now policy store.history ≡ o
          → IsLastKnownGood store.history o
      answered none h = last_good-none store.history h
      answered (some s) h = last_good-IsLastGood store.history s h
