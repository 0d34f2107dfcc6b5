-- ===== src/Api/Latency/Tests.antt =====
-- The histogram of durations, on small examples.
use better_mta.Prelude.{ℕ, ◌≡◌, refl, List, [], ◌∷◌, some}
use better_mta.Prelude.Int.{pos}
use better_mta.Prelude.Number.{Number}
use better_mta.Api.Latency.{
  LatencyHistogram, new_histogram, observe, observe_ms, place, percentile_from, percentile, reset,
  snapshot,
}
use better_mta.Api.Latency.Tally.{
  Observed, start, observes, resets, IsTally, Observed-IsTally, IsRising,
}
use better_mta.Api.Latency.Percentile.{IsPercentile, snapshot-ArePercentiles}

abbrev bounds : List ℕ
bounds = 5 ∷ 10 ∷ 25 ∷ []

abbrev ms : ℕ → Number
ms n = Number.finite (pos n)

abbrev observed : LatencyHistogram
observed =
    observe (ms 40)
      (observe (ms 7) (observe (ms 3) (reset (observe Number.nan (new_histogram bounds)))))

buckets_test : observed.buckets ≡ (1 ∷ 1 ∷ 0 ∷ 1 ∷ [])
unfolding new_histogram observe_ms place reset
buckets_test = refl

percentile_tests : ((snapshot observed).p50_ms ≡ some 10) × ((snapshot observed).p99_ms ≡ some 40)
unfolding new_histogram observe_ms place reset snapshot percentile percentile_from
percentile_tests = (refl, refl)

run : Observed bounds (40 ∷ 7 ∷ 3 ∷ []) observed
run = observes (ms 40) (observes (ms 7) (observes (ms 3) (resets (observes Number.nan start))))

bounds-IsRising : IsRising 0 bounds
unfolding IsRising
bounds-IsRising = (refl, (refl, (refl, tt)))

Observed-IsTally_example : IsTally bounds (40 ∷ 7 ∷ 3 ∷ []) observed
Observed-IsTally_example = Observed-IsTally bounds (40 ∷ 7 ∷ 3 ∷ []) observed run

snapshot-ArePercentiles_example :
    IsPercentile 50 bounds (40 ∷ 7 ∷ 3 ∷ []) (snapshot observed).p50_ms
    × IsPercentile 95 bounds (40 ∷ 7 ∷ 3 ∷ []) (snapshot observed).p95_ms
    × IsPercentile 99 bounds (40 ∷ 7 ∷ 3 ∷ []) (snapshot observed).p99_ms
snapshot-ArePercentiles_example =
    snapshot-ArePercentiles bounds (40 ∷ 7 ∷ 3 ∷ []) observed bounds-IsRising run
