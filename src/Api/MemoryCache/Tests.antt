-- ===== src/Api/MemoryCache/Tests.antt =====
-- The cache with expiry, on small examples.
use better_mta.Prelude.{ℕ, ◌+◌, ◌≡◌, refl, none, some, [], leb, or_else, if◌then◌else◌, arith}
use better_mta.Prelude.Text.{text, ◌===◌}
use better_mta.Api.MemoryCache.{MemoryCache, get, set, get_found, find_entry, set_entry}
use better_mta.Api.MemoryCache.Laws.{get-set, get-get}

abbrev empty : MemoryCache ℕ
empty = record { default_ttl = 1000; store = [] }

abbrev one : MemoryCache ℕ
one = set (text "a") 7 none 500 empty

read_tests : ((get (text "a") 1500 one).0 ≡ some 7) × ((get (text "a") 1501 one).0 ≡ none)
unfolding get_found find_entry set_entry ◌===◌
read_tests = (refl, refl)

get-set_example :
    (get (text "a") 1600 (set (text "a") 7 none 500 empty)).0
    ≡ (if leb 1600 (500 + or_else none empty.default_ttl) then some 7 else none)
get-set_example = get-set (text "a") 7 none 500 1600 empty

get-get_example : (get (text "a") 1700 (get (text "a") 1600 one).1).0 ≡ (get (text "a") 1700 one).0
get-get_example = get-get (text "a") (text "a") 1600 1700 one (omega arith)
