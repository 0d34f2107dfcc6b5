-- ===== src/Api/Latency/Tally.antt =====
-- What the histogram of apps/api/src/metrics/latency.ts counts.
use better_mta.Prelude.{
  ℕ, suc, ◌+◌, ◌≡◌, refl, ap, ◌∙◌, true, List, [], ◌∷◌, arith, leb, if◌then◌else◌, map, length,
}
use better_mta.Prelude.Number.{Number}
use better_mta.Api.Latency.{
  LatencyHistogram, empty_buckets, new_histogram, observed_ms, place, observe_ms, observe, reset,
}

-- How many of the durations are at most a bound.
unfoldable pub at_most : ℕ → List ℕ → ℕ
at_most u [] = 0
at_most u (x ∷ xs) = if leb x u then suc (at_most u xs) else at_most u xs

-- The durations above a bound.
unfoldable pub above : ℕ → List ℕ → List ℕ
above u [] = []
above u (x ∷ xs) = if leb x u then above u xs else x ∷ above u xs

-- How durations spread over the buckets.
unfoldable pub spread : List ℕ → List ℕ → List ℕ
unfolding at_most above
spread [] xs = length xs ∷ []
spread (u ∷ us) xs = at_most u xs ∷ spread us (above u xs)

-- Bounds that do not fall, from a least one.
unfoldable pub IsRising : ℕ → List ℕ → Type 0
IsRising low [] = Unit
IsRising low (u ∷ us) = (leb low u ≡ true) × IsRising u us

-- Durations between two bounds.
unfoldable pub AreBetween : ℕ → ℕ → List ℕ → Type 0
AreBetween low high [] = Unit
AreBetween low high (x ∷ xs) = (leb low x ≡ true) × (leb x high ≡ true) × AreBetween low high xs

pub place-spread : (m : ℕ) (us xs : List ℕ) → place m us (spread us xs) ≡ spread us (m ∷ xs)
unfolding place spread at_most above
place-spread m [] xs = refl
place-spread m (u ∷ us) xs = ground (arith, place-spread m us (above u xs))

empty_buckets-spread : (us : List ℕ) → empty_buckets us ≡ spread us []
unfolding spread at_most above
empty_buckets-spread [] = refl
empty_buckets-spread (u ∷ us) = ap (λ bs. 0 ∷ bs) (empty_buckets-spread us)

map-spread : (us xs : List ℕ) → map (λ _. 0) (spread us xs) ≡ spread us []
unfolding spread at_most above
map-spread [] xs = refl
map-spread (u ∷ us) xs = ap (λ bs. 0 ∷ bs) (map-spread us (above u xs))

pub AreBetween-above :
    (u low high : ℕ) (xs : List ℕ) → AreBetween low high xs → AreBetween u high (above u xs)
unfolding AreBetween above
AreBetween-above u low high [] b = tt
AreBetween-above u low high (x ∷ xs) (p, q, b) = ground (arith, AreBetween-above u low high xs b)

AreBetween-raise :
    (low high more : ℕ) (xs : List ℕ)
    → leb high more ≡ true
    → AreBetween low high xs
    → AreBetween low more xs
unfolding AreBetween
AreBetween-raise low high more [] le b = tt
AreBetween-raise low high more (x ∷ xs) le (p, q, b) =
    (p, (ground arith), AreBetween-raise low high more xs le b)

pub at_most-all :
    (low high : ℕ) (xs : List ℕ) → AreBetween low high xs → at_most high xs ≡ length xs
unfolding AreBetween at_most
at_most-all low high [] b = refl
at_most-all low high (x ∷ xs) (p, q, b) = ground (arith, at_most-all low high xs b)

pub length-above : (u : ℕ) (xs : List ℕ) → length xs ≡ at_most u xs + length (above u xs)
unfolding above at_most
length-above u [] = refl
length-above u (x ∷ xs) = ground (arith, length-above u xs)

pub at_most-above :
    (u v : ℕ) (xs : List ℕ) → leb u v ≡ true → at_most v xs ≡ at_most u xs + at_most v (above u xs)
unfolding above at_most
at_most-above u v [] le = refl
at_most-above u v (x ∷ xs) le = ground (arith, at_most-above u v xs le)

-- The states of a histogram, with the durations since it was made or reset.
pub data Observed (bounds : List ℕ) : List ℕ → LatencyHistogram → Type 0 where
  start : Observed bounds [] (new_histogram bounds)
  observes :
      {xs : List ℕ} {h : LatencyHistogram} (duration_ms : Number)
      → Observed bounds xs h
      → Observed bounds (observed_ms duration_ms ∷ xs) (observe duration_ms h)
  resets :
      {xs : List ℕ} {h : LatencyHistogram} → Observed bounds xs h → Observed bounds [] (reset h)

abbrev sum : List ℕ → ℕ
sum [] = 0
sum (x ∷ xs) = sum xs + x

-- What the fields hold after these durations.
unfoldable pub IsTally : List ℕ → List ℕ → LatencyHistogram → Type 0
IsTally bounds xs h =
    (h.bounds ≡ bounds)
    × (h.count ≡ length xs)
    × (h.sum_ms ≡ sum xs)
    × (h.buckets ≡ spread bounds xs)
    × AreBetween 0 h.max_ms xs

observe_ms-IsTally :
    (bounds xs : List ℕ) (h : LatencyHistogram) (ms : ℕ)
    → IsTally bounds xs h
    → IsTally bounds (ms ∷ xs) (observe_ms ms h)
unfolding IsTally observe_ms AreBetween
observe_ms-IsTally bounds xs h ms (same, counted, summed, placed, between) = (
  same,
  (ground arith),
  (ground arith),
  rw same (rw placed (place-spread ms bounds xs)),
  ((ground arith), (ground arith), AreBetween-raise 0 h.max_ms _ xs (ground arith) between),
)

resets_lem :
    (bounds xs : List ℕ) (h : LatencyHistogram) → IsTally bounds xs h → IsTally bounds [] (reset h)
unfolding IsTally reset AreBetween
resets_lem bounds xs h (same, counted, summed, placed, between) =
    (same, refl, refl, ap (λ bs. map (λ _. 0) bs) placed ∙ map-spread bounds xs, tt)

-- After any run of observations and resets the histogram counts what was observed since the last
-- reset: how many and their sum, in each bucket those up to its bound that no earlier bucket has and
-- in the last one the rest, and the maximum is not exceeded.
pub Observed-IsTally :
    (bounds xs : List ℕ) (h : LatencyHistogram) → Observed bounds xs h → IsTally bounds xs h
unfolding IsTally new_histogram reset AreBetween
Observed-IsTally bounds _ _ start = (refl, refl, refl, empty_buckets-spread bounds, tt)
Observed-IsTally bounds _ _ (observes {xs} {h} d before) =
    observe_ms-IsTally bounds xs h (observed_ms d) (Observed-IsTally bounds xs h before)
Observed-IsTally bounds _ _ (resets {xs} {h} before) =
    resets_lem bounds xs h (Observed-IsTally bounds xs h before)
