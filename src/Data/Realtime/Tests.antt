-- ===== src/Data/Realtime/Tests.antt =====
-- The store of snapshots, on small examples.
use better_mta.Prelude.{◌≡◌, refl, some, [], ◌∷◌, if◌then◌else◌}
use better_mta.Prelude.Text.{text}
use better_mta.Prelude.Number.{◌-ₙ◌}
use better_mta.Prelude.Int.{◌-ℤ◌}
use better_mta.Routing.Samples.{host}
use better_mta.Data.Types.{RealtimeSnapshot, default_freshness_policy}
use better_mta.Data.Samples.{full, hollow, now}
use better_mta.Data.Freshness.{is_within_retention, age_seconds_from}
use better_mta.Data.Realtime.{
  RealtimeSnapshotStore, empty_store, put, prune, is_good, last_good, get_last_known_good, last,
  resolve_for_routing, usable, admit, refresh, is_usable_realtime_snapshot,
}
use better_mta.Data.Realtime.Store.{IsPut, put-IsPut, get_last_known_good-put}
use better_mta.Data.Realtime.Resolve.{IsResolved, resolve_for_routing-IsResolved}

-- The store after a full poll.
abbrev one_poll : RealtimeSnapshotStore
one_poll = record { latest = some full; history = full ∷ [] }

store_tests :
    (put host now default_freshness_policy full empty_store ≡ one_poll)
    × (get_last_known_good host now default_freshness_policy
          (put host now default_freshness_policy hollow one_poll)
        ≡ some full)
unfolding put prune is_within_retention age_seconds_from is_good last_good last ◌-ₙ◌ ◌-ℤ◌
store_tests = (refl, refl)

put-IsPut_example :
    IsPut host now default_freshness_policy hollow one_poll
      (put host now default_freshness_policy hollow one_poll)
put-IsPut_example = put-IsPut host now default_freshness_policy hollow one_poll

get_last_known_good-put_example :
    get_last_known_good host now default_freshness_policy
      (put host now default_freshness_policy hollow one_poll)
    ≡ (if is_good host now default_freshness_policy hollow
        then some hollow
        else get_last_known_good host now default_freshness_policy one_poll)
get_last_known_good-put_example =
    get_last_known_good-put host now default_freshness_policy hollow one_poll

-- After a hollow poll, routing gets the snapshot before it.
abbrev resolved : RealtimeSnapshot
resolved = refresh host now default_freshness_policy (text "v1") full

resolve_test :
    resolve_for_routing host now default_freshness_policy one_poll (some hollow) (text "v1")
    ≡ some resolved
unfolding resolve_for_routing usable admit is_usable_realtime_snapshot is_within_retention
    age_seconds_from is_good last_good ◌-ₙ◌ ◌-ℤ◌
resolve_test = refl

resolve_for_routing-IsResolved_example :
    IsResolved host now default_freshness_policy one_poll (some hollow) (text "v1") resolved
resolve_for_routing-IsResolved_example =
    resolve_for_routing-IsResolved host now default_freshness_policy one_poll (some hollow)
      (text "v1") resolved resolve_test
