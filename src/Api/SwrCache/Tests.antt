-- ===== src/Api/SwrCache/Tests.antt =====
-- The cache with revalidation, on a small example.
use better_mta.Prelude.{ℕ, ◌≡◌, refl, [], ◌∷◌}
use better_mta.Api.SwrCache.{SwrTtlCache, new_cache, get, get_from, refresh, invalidate, awaits}
use better_mta.Api.SwrCache.Laws.{IsShared, was_read, Reached, from_new, by_event, Reached-IsShared}

-- A read of a new cache starts a fetch, and a second one shares it.
abbrev asked : SwrTtlCache ℕ
asked = (get 10 (new_cache 1000)).1

-- After an invalidation the next read starts another fetch while the first one runs.
share_tests :
    ((get 20 asked).0 ≡ awaits 0)
    × (asked.running ≡ 0 ∷ [])
    × (((get 30 (invalidate asked)).1).running ≡ 1 ∷ 0 ∷ [])
unfolding get_from refresh invalidate
share_tests = (refl, refl, refl)

reached : Reached (get 20 asked).1
reached = by_event (by_event (from_new 1000) (was_read 10)) (was_read 20)

Reached-IsShared_example : IsShared (get 20 asked).1
Reached-IsShared_example = Reached-IsShared (get 20 asked).1 reached
