-- ===== src/Api/SwrCache/Laws.antt =====
-- The states that the cache of apps/api/src/adapters/live/swrCache.ts reaches.
use better_mta.Prelude.{
  ℕ, ◌+◌, ◌≡◌, refl, ap, not, Option, none, some, [], ◌∷◌, arith, Bool-cases, ◌⊎◌, inl, inr, ltb,
  filter, nat_eqb,
}
use better_mta.Api.SwrCache.{SwrTtlCache, new_cache, seed, refresh, get_from, get, settle}

-- The fetch that the cache holds is the only one that runs, or none runs.
abbrev pub IsShared {ℓ} : {A : Type ℓ} → SwrTtlCache A → Type 0
IsShared cache =
    ((cache.inflight ≡ none) × (cache.running ≡ []))
    ⊎ ((id : ℕ) × (cache.inflight ≡ some id) × (cache.running ≡ id ∷ []))

-- One event: a read, a seeding, or the end of a fetch that runs; invalidations are left out.
pub data Event {ℓ} {A : Type ℓ} : SwrTtlCache A → SwrTtlCache A → Type ℓ where
  was_read : {cache : SwrTtlCache A} → (now : ℕ) → Event cache (get now cache).1
  was_seeded : {cache : SwrTtlCache A} → (value : A) (at : ℕ) → Event cache (seed value at cache)
  was_settled :
      {cache : SwrTtlCache A}
      → (id : ℕ) (outcome : Option A) (now : ℕ) → cache.inflight ≡ some id
      → Event cache (settle id outcome now cache)

-- The states that a new cache reaches by events.
pub data Reached {ℓ} {A : Type ℓ} : SwrTtlCache A → Type ℓ where
  from_new : (ttl : ℕ) → Reached (new_cache ttl)
  by_event : {cache after : SwrTtlCache A} → Reached cache → Event cache after → Reached after

module _ {ℓ} {A : Type ℓ} where
  refresh-IsShared :
      (o : Option ℕ) (cache : SwrTtlCache A)
      → cache.inflight ≡ o
      → IsShared cache
      → IsShared (refresh o cache).1
  unfolding refresh
  refresh-IsShared (some id) cache h s = s
  refresh-IsShared none cache h (inl (_, idle)) =
      inr (cache.next_id, refl, ap (λ l. cache.next_id ∷ l) idle)
  refresh-IsShared none cache h (inr (id, held, _)) = cc

  get-IsShared :
      (o : Option A) (now : ℕ) (cache : SwrTtlCache A)
      → IsShared cache
      → IsShared (get_from o now cache).1
  unfolding get_from
  get-IsShared none now cache s = refresh-IsShared cache.inflight cache refl s
  get-IsShared (some v) now cache s = elim (Bool-cases (ltb now (cache.fetched_at + cache.ttl))) [
    | inl t ↦ rw t s
    | inr f ↦ rw f (refresh-IsShared cache.inflight cache refl s)
  ]

  none_left :
      (id : ℕ) (cache : SwrTtlCache A)
      → cache.inflight ≡ some id
      → IsShared cache
      → filter (λ n. not (nat_eqb n id)) cache.running ≡ []
  none_left id cache h (inl (idle, _)) = cc
  none_left id cache h (inr (i, held, runs)) =
      let same : i ≡ id = cc in rw runs (ground (arith, same))

  settle-IsShared :
      (id : ℕ) (outcome : Option A) (now : ℕ) (cache : SwrTtlCache A)
      → cache.inflight ≡ some id
      → IsShared cache
      → IsShared (settle id outcome now cache)
  unfolding settle
  settle-IsShared id none now cache h s = inl (refl, none_left id cache h s)
  settle-IsShared id (some next) now cache h s = inl (refl, none_left id cache h s)

  Event-IsShared :
      {cache after : SwrTtlCache A} → Event cache after → IsShared cache → IsShared after
  unfolding seed
  Event-IsShared (was_read {cache = c} now) s = get-IsShared c.value now c s
  Event-IsShared (was_seeded v at) s = s
  Event-IsShared (was_settled id outcome now h) s = settle-IsShared id outcome now _ h s

  -- In every state that a new cache reaches by reads, seedings and the ends of fetches, at most one
  -- fetch runs, and it is the one that the cache holds.
  pub Reached-IsShared : (cache : SwrTtlCache A) → Reached cache → IsShared cache
  Reached-IsShared cache (from_new ttl) = inl (refl, refl)
  Reached-IsShared cache (by_event r e) = Event-IsShared e (Reached-IsShared _ r)
