-- ===== src/Api/Latency/Percentile.antt =====
-- What the percentiles of apps/api/src/metrics/latency.ts bound.
use better_mta.Prelude.{
  ℕ, suc, ◌+◌, ◌≡◌, refl, Bool-cases, inl, inr, true, false, List, [], ◌∷◌, Option, none, some,
  arith, leb, ltb, length, ◌||◌,
}
use better_mta.Api.Latency.{LatencyHistogram, percentile_from, target_of, percentile, snapshot}
use better_mta.Api.Latency.Tally.{
  at_most, above, spread, IsRising, AreBetween, AreBetween-above, at_most-all, length-above,
  at_most-above, Observed, IsTally, Observed-IsTally,
}

-- A duration lies between the bounds if there is any.
low-max :
    (low high : ℕ) (xs : List ℕ)
    → AreBetween low high xs
    → ltb 0 (length xs) ≡ true
    → leb low high ≡ true
unfolding AreBetween
low-max low high [] b some_x = cc some_x
low-max low high (x ∷ xs) (p, q, b) some_x = ground arith

Reaches : ℕ → ℕ → ℕ → List ℕ → ℕ → Type 0
Reaches target c low xs bound = (leb low bound ≡ true) × (leb target (c + at_most bound xs) ≡ true)

Reaches-above :
    (target c u low : ℕ) (xs : List ℕ) (v : ℕ)
    → leb low u ≡ true
    → Reaches target (c + at_most u xs) u (above u xs) v
    → Reaches target c low xs v
unfolding Reaches
Reaches-above target c u low xs v r (rises, reaches) =
    let e = at_most-above u v xs rises in ((ground arith), (ground arith))

-- The loop from a bound on: what it returns is not below the bound, and the durations up to it
-- reach the target.
percentile_from-Reaches :
    (target c high low : ℕ) (us xs : List ℕ)
    → IsRising low us
    → AreBetween low high xs
    → ltb c target ≡ true
    → leb target (c + length xs) ≡ true
    → Reaches target c low xs (percentile_from target c high us (spread us xs))
unfolding percentile_from spread IsRising Reaches
percentile_from-Reaches target c high low [] xs rising between less reach =
    rw reach
      (low-max low high xs between (ground arith), rw (at_most-all low high xs between) reach)
percentile_from-Reaches target c high low (u ∷ us) xs (r, rising) between less reach =
    let e = length-above u xs in
    let next =
      percentile_from-Reaches target (c + at_most u xs) high u us (above u xs) rising
        (AreBetween-above u low high xs between) in
    elim (Bool-cases (leb target (c + at_most u xs))) [
      | inl h ↦ rw h (r, h)
      | inr h ↦
          rw h
            (Reaches-above target c u low xs _ r (next (ground arith) (ground (arith, e, reach))))
    ]

-- No bound of the list below `v` has enough durations.
unfoldable pub IsFirst : ℕ → ℕ → List ℕ → ℕ → List ℕ → Type 0
IsFirst target c xs v [] = Unit
IsFirst target c xs v (u ∷ us) =
    ((leb v u || ltb (c + at_most u xs) target) ≡ true) × IsFirst target c xs v us

IsFirst-least :
    (target c u : ℕ) (xs us : List ℕ) (v : ℕ)
    → leb v u ≡ true
    → IsRising u us
    → IsFirst target c xs v us
unfolding IsFirst IsRising
IsFirst-least target c u xs [] v le r = tt
IsFirst-least target c u xs (w ∷ us) v le (p, r) =
    ((ground arith), IsFirst-least target c w xs us v (ground arith) r)

IsFirst-above :
    (target c u : ℕ) (xs us : List ℕ) (v low : ℕ)
    → leb u low ≡ true
    → IsRising low us
    → IsFirst target (c + at_most u xs) (above u xs) v us
    → IsFirst target c xs v us
unfolding IsFirst IsRising
IsFirst-above target c u xs [] v low le r f = tt
IsFirst-above target c u xs (w ∷ us) v low le (p, r) (f, fs) =
    let e = at_most-above u w xs (ground arith) in
    ((ground (arith, e, f)), IsFirst-above target c u xs us v w (ground arith) r fs)

IsFirst-nil : (target c : ℕ) (xs : List ℕ) (v : ℕ) → IsFirst target c xs v []
unfolding IsFirst
IsFirst-nil target c xs v = tt

IsFirst-cons :
    (target c u : ℕ) (xs us : List ℕ) (v : ℕ)
    → (leb v u || ltb (c + at_most u xs) target) ≡ true
    → IsFirst target c xs v us
    → IsFirst target c xs v (u ∷ us)
unfolding IsFirst
IsFirst-cons target c u xs us v h fs = (h, fs)

percentile_from-hit :
    (target c high u b : ℕ) (us bs : List ℕ)
    → leb target (c + b) ≡ true
    → percentile_from target c high (u ∷ us) (b ∷ bs) ≡ u
unfolding percentile_from
percentile_from-hit target c high u b us bs h = rw h refl

percentile_from-miss :
    (target c high u b : ℕ) (us bs : List ℕ)
    → leb target (c + b) ≡ false
    → percentile_from target c high (u ∷ us) (b ∷ bs) ≡ percentile_from target (c + b) high us bs
unfolding percentile_from
percentile_from-miss target c high u b us bs h = rw h refl

percentile_from-IsFirst :
    (target c high low : ℕ) (us xs : List ℕ)
    → IsRising low us
    → IsFirst target c xs (percentile_from target c high us (spread us xs)) us
unfolding spread IsRising
percentile_from-IsFirst target c high low [] xs rising = IsFirst-nil target c xs _
percentile_from-IsFirst target c high low (u ∷ us) xs (r, rising) =
    let next = percentile_from-IsFirst target (c + at_most u xs) high u us (above u xs) rising in
    elim (Bool-cases (leb target (c + at_most u xs))) [
      | inl h ↦
          rw (percentile_from-hit target c high u (at_most u xs) us (spread us (above u xs)) h) (
            IsFirst-cons target c u xs us u (ground arith)
              (IsFirst-least target c u xs us u (ground arith) rising))
      | inr h ↦
          rw (percentile_from-miss target c high u (at_most u xs) us (spread us (above u xs)) h) (
            IsFirst-cons target c u xs us _ (ground arith)
              (IsFirst-above target c u xs us _ u (ground arith) rising next))
    ]

-- The percentile of so many hundredths: none without durations, and else a value that the target
-- count of durations does not exceed, while no bound below it has that count.
unfoldable pub IsPercentile : ℕ → List ℕ → List ℕ → Option ℕ → Type 0
IsPercentile hundredths bounds [] o = o ≡ none
IsPercentile hundredths bounds (x ∷ xs) o =
    (v : ℕ) × (o ≡ some v)
    × (leb (target_of (length (x ∷ xs)) hundredths) (at_most v (x ∷ xs)) ≡ true)
    × IsFirst (target_of (length (x ∷ xs)) hundredths) 0 (x ∷ xs) v bounds

percentile-IsPercentile :
    (hundredths : ℕ) (bounds xs : List ℕ) (h : LatencyHistogram)
    → IsRising 0 bounds
    → IsTally bounds xs h
    → ((n : ℕ) → ltb 0 (target_of (suc n) hundredths) ≡ true)
    → ((n : ℕ) → leb (target_of (suc n) hundredths) (0 + suc n) ≡ true)
    → IsPercentile hundredths bounds xs (percentile hundredths h)
unfolding IsPercentile IsTally percentile Reaches
percentile-IsPercentile k bounds [] h rising (same, counted, summed, placed, between) low high =
    rw counted refl
percentile-IsPercentile k bounds (x ∷ xs) h rising (same, counted, summed, placed, between) low
      high =
    let t = target_of (length (x ∷ xs)) k in
    let reached =
      percentile_from-Reaches t 0 h.max_ms 0 bounds (x ∷ xs) rising between (low (length xs))
        (high (length xs)) in
    (
      percentile_from t 0 h.max_ms bounds (spread bounds (x ∷ xs)),
      rw counted (rw same (rw placed refl)),
      (ground (arith, reached.1)),
      percentile_from-IsFirst t 0 h.max_ms 0 bounds (x ∷ xs) rising,
    )

-- After any run of observations and resets of a histogram whose bounds do not fall, each percentile
-- of its snapshot is null if nothing was observed since the last reset; else at least that share of
-- what was observed is at most the percentile, and no bound below the percentile has that share.
pub snapshot-ArePercentiles :
    (bounds xs : List ℕ) (h : LatencyHistogram)
    → IsRising 0 bounds
    → Observed bounds xs h
    → IsPercentile 50 bounds xs (snapshot h).p50_ms
      × IsPercentile 95 bounds xs (snapshot h).p95_ms
      × IsPercentile 99 bounds xs (snapshot h).p99_ms
unfolding snapshot
snapshot-ArePercentiles bounds xs h rising run =
    let tally = Observed-IsTally bounds xs h run in
    (
      percentile-IsPercentile 50 bounds xs h rising tally (λ n. ground arith) (λ n. ground arith),
      percentile-IsPercentile 95 bounds xs h rising tally (λ n. ground arith) (λ n. ground arith),
      percentile-IsPercentile 99 bounds xs h rising tally (λ n. ground arith) (λ n. ground arith),
    )
