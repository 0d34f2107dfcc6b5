-- ===== src/Data/Freshness/Tests.antt =====
-- The freshness, on small examples.
use better_mta.Prelude.{◌≡◌, ◌≤◌, refl, true, false, none, some}
use better_mta.Prelude.Number.{number, ◌-ₙ◌}
use better_mta.Prelude.Int.{◌-ℤ◌}
use better_mta.Routing.Types.{stale, live}
use better_mta.Routing.Samples.{host}
use better_mta.Data.Types.{default_freshness_policy}
use better_mta.Data.Samples.{full, now}
use better_mta.Data.Freshness.{
  ModeOptions, compute_data_mode, mode_of_age, compute_realtime_age_seconds, feed_ages,
}
use better_mta.Data.Freshness.Laws.{freshness_rank, compute_data_mode_monotone}

abbrev options : ModeOptions
options = record {
  has_realtime_payload = true;
  is_synthetic = false;
  is_unavailable = false;
  policy = default_freshness_policy;
}

mode_tests :
    (compute_data_mode (some (number 90)) options ≡ live)
    × (compute_data_mode (some (number 91)) options ≡ stale)
    × (compute_realtime_age_seconds host full now ≡ number 100)
unfolding compute_data_mode mode_of_age compute_realtime_age_seconds feed_ages ◌-ₙ◌ ◌-ℤ◌
mode_tests = (refl, refl, refl)

compute_data_mode_monotone_example :
    (freshness_rank (compute_data_mode (some (number 91)) options)
      ≤ freshness_rank (compute_data_mode (some (number 90)) options))
    × (freshness_rank (compute_data_mode none options) ≡ 0)
compute_data_mode_monotone_example = compute_data_mode_monotone (number 90) (number 91) options refl
