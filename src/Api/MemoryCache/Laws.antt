-- ===== src/Api/MemoryCache/Laws.antt =====
-- Reads and writes of the cache of apps/api/src/cache/memoryCache.ts.
use better_mta.Prelude.{
  ℕ, ◌+◌, ◌≤◌, ◌≡◌, refl, ap, ◌∙◌, true, false, Option, none, some, List, [], ◌∷◌, arith,
  Bool-cases, Option-cases, inl, inr, if◌then◌else◌, ltb, leb, or_else,
}
use mathlib.Core.Path.{subst}
use better_mta.Prelude.Text.{Text, ◌===◌, ===_refl, ===_sound}
use better_mta.Api.MemoryCache.{
  Entry, MemoryCache, find_entry, set_entry, delete_entry, get_found, get, set,
}

-- A test for one key, at a key that another one equals.
other_key :
    (k key other : Text) → (key === other) ≡ false → (k === key) ≡ true → (k === other) ≡ false
other_key k key other h t = rw (===_sound k key t) h

module _ {ℓ} {A : Type ℓ} where
  find_entry-set_entry :
      (key : Text) (e : Entry A) (xs : List (Text × Entry A))
      → find_entry key (set_entry key e xs) ≡ some e
  unfolding find_entry set_entry
  find_entry-set_entry key e [] = rw (===_refl key) refl
  find_entry-set_entry key e ((k, x) ∷ xs) = elim (Bool-cases (k === key)) [
    | inl t ↦ rw t (rw t refl)
    | inr f ↦ rw f (rw f (find_entry-set_entry key e xs))
  ]

  find_entry-set_entry_other :
      (key other : Text) (e : Entry A) (xs : List (Text × Entry A))
      → (key === other) ≡ false
      → find_entry other (set_entry key e xs) ≡ find_entry other xs
  unfolding find_entry set_entry
  find_entry-set_entry_other key other e [] h = rw h refl
  find_entry-set_entry_other key other e ((k, x) ∷ xs) h = elim (Bool-cases (k === key)) [
    | inl t ↦ rw t (rw (other_key k key other h t) refl)
    | inr f ↦
        rw f (
          ap (λ r. if k === other then some x else r) (find_entry-set_entry_other key other e xs h))
  ]

  find_entry-delete_entry :
      (key : Text) (xs : List (Text × Entry A)) → find_entry key (delete_entry key xs) ≡ none
  unfolding find_entry delete_entry
  find_entry-delete_entry key [] = refl
  find_entry-delete_entry key ((k, x) ∷ xs) = elim (Bool-cases (k === key)) [
    | inl t ↦ rw t (find_entry-delete_entry key xs)
    | inr f ↦ rw f (rw f (find_entry-delete_entry key xs))
  ]

  find_entry-delete_entry_other :
      (key other : Text) (xs : List (Text × Entry A))
      → (key === other) ≡ false
      → find_entry other (delete_entry key xs) ≡ find_entry other xs
  unfolding find_entry delete_entry
  find_entry-delete_entry_other key other [] h = refl
  find_entry-delete_entry_other key other ((k, x) ∷ xs) h = elim (Bool-cases (k === key)) [
    | inl t ↦ rw (t, other_key k key other h t) (find_entry-delete_entry_other key other xs h)
    | inr f ↦
        rw f (
          ap (λ r. if k === other then some x else r)
            (find_entry-delete_entry_other key other xs h))
  ]

  -- The value that is returned depends on the entry alone.
  same_answer :
      (key : Text) (now : ℕ) (c d : MemoryCache A) (o : Option (Entry A))
      → (get_found key now c o).0 ≡ (get_found key now d o).0
  unfolding get_found
  same_answer key now c d none = refl
  same_answer key now c d (some e) = ground arith

  -- A read of a key after it was written gives the value until the time of the write and the time to
  -- live have passed, and nothing after that.
  pub get-set :
      (key : Text) (value : A) (ttl : Option ℕ) (now later : ℕ) (cache : MemoryCache A)
      → (get key later (set key value ttl now cache)).0
        ≡ (if leb later (now + or_else ttl cache.default_ttl) then some value else none)
  unfolding get_found
  get-set key value ttl now later cache =
      ap (λ o. (get_found key later (set key value ttl now cache) o).0)
        (find_entry-set_entry key _ cache.store)
      ∙ ground arith

  -- A write to one key does not change what a read of another one returns.
  pub get-set_other :
      (key other : Text) (value : A) (ttl : Option ℕ) (now later : ℕ) (cache : MemoryCache A)
      → (key === other) ≡ false
      → (get other later (set key value ttl now cache)).0 ≡ (get other later cache).0
  get-set_other key other value ttl now later cache h =
      ap (λ o. (get_found other later (set key value ttl now cache) o).0)
        (find_entry-set_entry_other key other _ cache.store h)
      ∙ same_answer other later (set key value ttl now cache) cache _

  -- An entry that has expired gives nothing, whether it was deleted or not.
  gone :
      (key : Text) (now later : ℕ) (cache : MemoryCache A) (e : Entry A)
      → now ≤ later
      → find_entry key cache.store ≡ some e
      → ltb e.expires_at now ≡ true
      → (get_found key later
          (record cache { store = delete_entry key cache.store })
          (find_entry key (delete_entry key cache.store))).0
        ≡ (get key later cache).0
  unfolding get_found
  gone key now later cache e h k expired =
      ap (λ o. (get_found key later (record cache { store = delete_entry key cache.store }) o).0)
        (find_entry-delete_entry key cache.store)
      ∙ rw k (ground arith)

  -- A read at one time does not change what any read at that time or later returns, although it may
  -- remove an entry that has expired.
  pub get-get :
      (key other : Text) (now later : ℕ) (cache : MemoryCache A)
      → now ≤ later
      → (get other later (get key now cache).1).0 ≡ (get other later cache).0
  unfolding get_found
  get-get key other now later cache h = elim (Option-cases (find_entry key cache.store)) [
    | inl n ↦ after none n
    | inr (e, k) ↦ after (some e) k
  ]
    where
      after :
          (o : Option (Entry A))
          → find_entry key cache.store ≡ o
          → (get other later (get key now cache).1).0 ≡ (get other later cache).0
      after none k = rw k refl
      after (some e) k = elim (Bool-cases (ltb e.expires_at now)) [
        | inr fresh ↦ rw k (rw fresh refl)
        | inl expired ↦ rw k (
            rw expired (elim (Bool-cases (key === other)) [
              | inl same ↦
                  subst
                    (λ o.
                      (get_found o later (record cache { store = delete_entry key cache.store })
                        (find_entry o (delete_entry key cache.store))).0
                      ≡ (get o later cache).0)
                    (===_sound key other same) (gone key now later cache e h k expired)
              | inr apart ↦
                  ap
                    (λ o.
                      (get_found other later (record cache { store = delete_entry key cache.store })
                        o).0)
                    (find_entry-delete_entry_other key other cache.store apart)
                  ∙ same_answer other later _ cache _
            ]))
      ]
