-- ===== src/Api/Latency.antt =====
-- apps/api/src/metrics/latency.ts: the histogram of durations. Durations are whole milliseconds.
pub mod Percentile
pub mod Tally
pub mod Tests
use better_mta.Prelude.{
  ℕ, zero, suc, ◌+◌, ◌*◌, ◌/◌, ◌≡◌, Bool, true, false, List, [], ◌∷◌, Option, none, some, arith,
  leb, ltb, if◌then◌else◌, map,
}
use better_mta.Prelude.Int.{pos, negsuc}
use better_mta.Prelude.Number.{Number}

-- LatencyHistogram: one bucket for each bound and one for what exceeds them all.
pub record LatencyHistogram : Type 0 where
  pub count : ℕ
  pub sum_ms : ℕ
  pub max_ms : ℕ
  pub bounds : List ℕ
  pub buckets : List ℕ

-- LatencySnapshot
pub record LatencySnapshot : Type 0 where
  pub count : ℕ
  pub sum_ms : ℕ
  pub max_ms : ℕ
  pub bucket_bounds_ms : List ℕ
  pub bucket_counts : List ℕ
  pub p50_ms : Option ℕ
  pub p95_ms : Option ℕ
  pub p99_ms : Option ℕ

-- One zero for each bound and one for the overflow.
abbrev pub empty_buckets : List ℕ → List ℕ
empty_buckets [] = 0 ∷ []
empty_buckets (_ ∷ us) = 0 ∷ empty_buckets us

unfoldable pub new_histogram : List ℕ → LatencyHistogram
new_histogram bounds = record {
  count = 0;
  sum_ms = 0;
  max_ms = 0;
  bounds = bounds;
  buckets = empty_buckets bounds;
}

-- What is observed of a duration: zero for what is negative or not finite.
abbrev pub observed_ms : Number → ℕ
observed_ms (Number.finite (pos n)) = n
observed_ms _ = 0

-- The buckets once the first one whose bound is not below the duration, or else the last one, has
-- one more.
unfoldable pub place : ℕ → List ℕ → List ℕ → List ℕ
place ms bounds [] = []
place ms [] (b ∷ []) = suc b ∷ []
place ms [] (b ∷ c ∷ bs) = b ∷ place ms [] (c ∷ bs)
place ms (u ∷ us) (b ∷ bs) = let rest = place ms us bs in if leb ms u then suc b ∷ bs else b ∷ rest

unfoldable pub observe_ms : ℕ → LatencyHistogram → LatencyHistogram
observe_ms ms h = record {
  count = h.count + 1;
  sum_ms = h.sum_ms + ms;
  max_ms = if ltb h.max_ms ms then ms else h.max_ms;
  bounds = h.bounds;
  buckets = place ms h.bounds h.buckets;
}

abbrev pub observe : Number → LatencyHistogram → LatencyHistogram
observe duration_ms h = observe_ms (observed_ms duration_ms) h

unfoldable pub reset : LatencyHistogram → LatencyHistogram
reset h = record {
  count = 0;
  sum_ms = 0;
  max_ms = 0;
  bounds = h.bounds;
  buckets = map (λ _. 0) h.buckets;
}

-- The loop of `percentile` over the bounds and the buckets that are left.
unfoldable pub percentile_from : ℕ → ℕ → ℕ → List ℕ → List ℕ → ℕ
percentile_from target cumulative max_ms bounds [] = max_ms
percentile_from target cumulative max_ms [] (b ∷ bs) =
    let rest = percentile_from target (cumulative + b) max_ms [] bs in
    if leb target (cumulative + b) then max_ms else rest
percentile_from target cumulative max_ms (u ∷ us) (b ∷ bs) =
    let rest = percentile_from target (cumulative + b) max_ms us bs in
    if leb target (cumulative + b) then u else rest

-- `Math.ceil(count * p)`, for a `p` of that many hundredths
abbrev pub target_of : ℕ → ℕ → ℕ
target_of count hundredths = (count * hundredths + 99) / 100

unfoldable pub percentile : ℕ → LatencyHistogram → Option ℕ
percentile hundredths h = elim h.count [
  | zero ↦ none
  | suc n ↦ some (percentile_from (target_of (suc n) hundredths) 0 h.max_ms h.bounds h.buckets)
]

unfoldable pub snapshot : LatencyHistogram → LatencySnapshot
snapshot h = record {
  count = h.count;
  sum_ms = h.sum_ms;
  max_ms = h.max_ms;
  bucket_bounds_ms = h.bounds;
  bucket_counts = h.buckets;
  p50_ms = percentile 50 h;
  p95_ms = percentile 95 h;
  p99_ms = percentile 99 h;
}
