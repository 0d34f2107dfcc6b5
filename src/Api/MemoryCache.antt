-- ===== src/Api/MemoryCache.antt =====
-- apps/api/src/cache/memoryCache.ts. The map is an association list in the order of insertion, and a
-- time is in milliseconds since the epoch, `Date.now()` at the call.
pub mod Laws
mod Tests
use better_mta.Prelude.{
  ℕ, ◌+◌, Bool, not, Option, none, some, List, [], ◌∷◌, if◌then◌else◌, ltb, filter, length, or_else,
}
use better_mta.Prelude.Text.{Text, ◌===◌}

pub record Entry {ℓ} (A : Type ℓ) : Type ℓ where
  pub expires_at : ℕ
  pub value : A

pub record MemoryCache {ℓ} (A : Type ℓ) : Type ℓ where
  pub default_ttl : ℕ
  pub store : List (Text × Entry A)

module _ {ℓ} {A : Type ℓ} where
  -- `store.get(key)`
  unfoldable pub find_entry : Text → List (Text × Entry A) → Option (Entry A)
  find_entry key [] = none
  find_entry key ((k, e) ∷ rest) = if k === key then some e else find_entry key rest

  -- `store.set(key, entry)`
  unfoldable pub set_entry : Text → Entry A → List (Text × Entry A) → List (Text × Entry A)
  set_entry key entry [] = (key, entry) ∷ []
  set_entry key entry ((k, e) ∷ rest) =
      if k === key then (k, entry) ∷ rest else (k, e) ∷ set_entry key entry rest

  -- `store.delete(key)`
  unfoldable pub delete_entry : Text → List (Text × Entry A) → List (Text × Entry A)
  delete_entry key [] = []
  delete_entry key ((k, e) ∷ rest) =
      let others = delete_entry key rest in if k === key then others else (k, e) ∷ others

  -- What `get` makes of the entry that it found: the value, and the cache after it.
  unfoldable pub get_found : Text → ℕ → MemoryCache A → Option (Entry A) → Option A × MemoryCache A
  get_found key now cache none = (none, cache)
  get_found key now cache (some hit) =
      if ltb hit.expires_at now
      then (none, record cache { store = delete_entry key cache.store })
      else (some hit.value, cache)

  abbrev pub get : Text → ℕ → MemoryCache A → Option A × MemoryCache A
  get key now cache = get_found key now cache (find_entry key cache.store)

  abbrev pub set : Text → A → Option ℕ → ℕ → MemoryCache A → MemoryCache A
  set key value ttl now cache = record cache {
    store =
        set_entry key (record { expires_at = now + or_else ttl cache.default_ttl; value = value })
          cache.store;
  }

  abbrev pub clear : MemoryCache A → MemoryCache A
  clear cache = record cache { store = [] }

  abbrev pub size : MemoryCache A → ℕ
  size cache = length cache.store
