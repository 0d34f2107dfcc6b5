-- ===== src/Data/Freshness.antt =====
-- services/data/src/freshness.ts
pub mod Laws
mod Tests
use better_mta.Prelude.{
  Bool, true, false, not, ◌||◌, Option, none, some, List, [], ◌∷◌, ◌++◌, map, if◌then◌else◌,
  or_else, is_empty, filter,
}
use better_mta.Prelude.Text.{Text, text}
use better_mta.Prelude.Number.{
  Number, number, inf, neg_inf, nan, is_nan, ◌-ₙ◌, number_leb, number_ltb, max_zero, floor_quotient,
}
use better_mta.Routing.Types.{Host, DataMode, live, schedule_only, stale, synthetic, unavailable}
use better_mta.Data.Types.{
  RealtimeSnapshot, FreshnessPolicy, FreshnessWarning, Freshness, FailedFeed,
}

pub record ModeOptions : Type 0 where
  pub has_realtime_payload : Bool
  pub is_synthetic : Bool
  pub is_unavailable : Bool
  pub policy : FreshnessPolicy

unfoldable pub mode_of_age : FreshnessPolicy → Number → DataMode
mode_of_age policy age =
    if number_leb age policy.live_max_age_seconds
    then live
    else if number_leb age policy.stale_max_age_seconds
    then stale
    else schedule_only

unfoldable pub compute_data_mode : Option Number → ModeOptions → DataMode
compute_data_mode age options =
    if options.is_unavailable
    then unavailable
    else if options.is_synthetic
    then synthetic
    else if not options.has_realtime_payload
    then schedule_only
    else elim age [ none ↦ schedule_only | some seconds ↦ mode_of_age options.policy seconds ]

-- `Math.max(0, Math.floor((nowMs - ms) / 1000))`
abbrev pub seconds_since : Number → Number → Number
seconds_since now ms = max_zero (floor_quotient (now -ₙ ms) 1000)

unfoldable pub age_seconds_from : Host → Text → Number → Number
age_seconds_from host ingested_at now =
    let ingested = host.date_parse ingested_at in
    if is_nan ingested then inf else seconds_since now ingested

-- `Math.max(a, b)`
abbrev pub max_number : Number → Number → Number
max_number a b = if is_nan a || is_nan b then nan else if number_ltb a b then b else a

-- `Math.max(...ages)`
abbrev pub max_of : List Number → Number
max_of [] = neg_inf
max_of (age ∷ ages) = max_number age (max_of ages)

-- The ages of the feeds whose timestamps are dates.
unfoldable pub feed_ages : Host → List (Text × Text) → Number → List Number
feed_ages host [] now = []
feed_ages host ((feed, timestamp) ∷ rest) now =
    let ms = host.date_parse timestamp in
    let others = feed_ages host rest now in
    if is_nan ms then others else seconds_since now ms ∷ others

unfoldable pub compute_realtime_age_seconds : Host → RealtimeSnapshot → Number → Number
compute_realtime_age_seconds host snapshot now =
    let ages = feed_ages host snapshot.feed_timestamps now in
    if is_empty ages then age_seconds_from host snapshot.ingested_at now else max_of ages

abbrev warning : Text → Text → FreshnessWarning
warning code message = record { code = code; message = message }

abbrev schedule_warning : FreshnessWarning
schedule_warning =
    warning (text "schedule_only") (text "Live train times are unavailable; showing schedule only.")

abbrev pub mode_warnings : DataMode → List FreshnessWarning
mode_warnings stale =
    warning (text "stale_realtime")
      (text "Live train times are delayed; showing last known updates.")
    ∷ []
mode_warnings schedule_only = schedule_warning ∷ []
mode_warnings synthetic =
    warning (text "synthetic_data") (text "Synthetic fixture data — not live navigation.") ∷ []
mode_warnings _ = []

abbrev pub feed_warnings : List FailedFeed → List FreshnessWarning
feed_warnings feeds =
    if is_empty feeds
    then []
    else warning (text "partial_realtime")
        (text "Some realtime feeds failed; results may be incomplete.")
      ∷ []

unfoldable pub build_freshness :
    Host → Option RealtimeSnapshot → Option Text → Number → FreshnessPolicy → Freshness
build_freshness host none activated_at now policy = record {
  realtime_age_seconds = none;
  static_activated_at = activated_at;
  warnings = schedule_warning ∷ [];
}
build_freshness host (some snapshot) activated_at now policy =
    let age = compute_realtime_age_seconds host snapshot now in
    let mode = compute_data_mode (some age) (record {
      has_realtime_payload = true;
      is_synthetic = snapshot.synthetic;
      is_unavailable = false;
      policy = policy;
    }) in
    record {
      realtime_age_seconds = some age;
      static_activated_at = activated_at;
      warnings = mode_warnings mode ++ feed_warnings snapshot.failed_feeds;
    }

unfoldable pub is_within_retention : Host → RealtimeSnapshot → Number → FreshnessPolicy → Bool
is_within_retention host snapshot now policy =
    number_leb (age_seconds_from host snapshot.ingested_at now)
      policy.last_known_good_retention_seconds
