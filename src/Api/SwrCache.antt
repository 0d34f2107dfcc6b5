-- ===== src/Api/SwrCache.antt =====
-- apps/api/src/adapters/live/swrCache.ts. A fetch is known by a number: `running` are the fetches
-- that have not settled, `inflight` is the one whose promise the cache holds, and `next_id` numbers
-- the next. A time is in milliseconds, `now()` at the call.
pub mod Laws
mod Tests
use better_mta.Prelude.{
  ℕ, suc, ◌+◌, Bool, true, false, not, Option, none, some, List, [], ◌∷◌, if◌then◌else◌, ltb,
  filter, nat_eqb,
}

pub record SwrTtlCache {ℓ} (A : Type ℓ) : Type ℓ where
  pub ttl : ℕ
  pub value : Option A
  pub fetched_at : ℕ
  pub inflight : Option ℕ
  pub running : List ℕ
  pub next_id : ℕ

-- What `get` returns: a value at once, or the promise of a fetch.
pub data Answer {ℓ} (A : Type ℓ) : Type ℓ where
  cached : A → Answer A
  awaits : ℕ → Answer A

module _ {ℓ} {A : Type ℓ} where
  abbrev pub new_cache : ℕ → SwrTtlCache A
  new_cache ttl = record {
    ttl = ttl;
    value = none;
    fetched_at = 0;
    inflight = none;
    running = [];
    next_id = 0;
  }

  unfoldable pub seed : A → ℕ → SwrTtlCache A → SwrTtlCache A
  seed value fetched_at cache = record cache { value = some value; fetched_at = fetched_at }

  unfoldable pub invalidate : SwrTtlCache A → SwrTtlCache A
  invalidate cache = record cache { value = none; fetched_at = 0; inflight = none }

  -- The fetch that `refresh` returns, and the cache after it.
  unfoldable pub refresh : Option ℕ → SwrTtlCache A → ℕ × SwrTtlCache A
  refresh (some id) cache = (id, cache)
  refresh none cache = (
    cache.next_id,
    record cache {
      inflight = some cache.next_id;
      running = cache.next_id ∷ cache.running;
      next_id = suc cache.next_id;
    },
  )

  -- `get`, from the value that the cache has.
  unfoldable pub get_from : Option A → ℕ → SwrTtlCache A → Answer A × SwrTtlCache A
  get_from (some value) now cache =
      if ltb now (cache.fetched_at + cache.ttl)
      then (cached value, cache)
      else (cached value, (refresh cache.inflight cache).1)
  get_from none now cache = let (id, after) = refresh cache.inflight cache in (awaits id, after)

  abbrev pub get : ℕ → SwrTtlCache A → Answer A × SwrTtlCache A
  get now cache = get_from cache.value now cache

  -- A fetch ends, with a value or with an error.
  unfoldable pub settle : ℕ → Option A → ℕ → SwrTtlCache A → SwrTtlCache A
  settle id (some next) now cache = record cache {
    value = some next;
    fetched_at = now;
    inflight = none;
    running = filter (λ n. not (nat_eqb n id)) cache.running;
  }
  settle id none now cache = record cache {
    inflight = none;
    running = filter (λ n. not (nat_eqb n id)) cache.running;
  }
