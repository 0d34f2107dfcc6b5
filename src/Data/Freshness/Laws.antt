-- ===== src/Data/Freshness/Laws.antt =====
-- Laws of the data mode and of the age in services/data/src/freshness.ts.
use better_mta.Prelude.{
  ℕ, ◌≤◌, ◌≡◌, refl, sym, true, none, some, List, [], ◌∷◌, Memᴰ, All, arith, Bool-cases, ◌⊎◌, inl,
  inr, if◌then◌else◌, is_empty, Memᴰ-All,
}
use mathlib.Core.Path.{subst}
use better_mta.Prelude.Text.{Text}
use better_mta.Prelude.Number.{
  Number, nan, inf, neg_inf, finite, IsNumber, is_finite, is_nan, number_leb, number_leb_trans,
  compare_number-IsOrder, ◌-ₙ◌,
}
use better_mta.Routing.Types.{Host, DataMode, live, stale}
use better_mta.Data.Types.{RealtimeSnapshot, FreshnessPolicy}
use better_mta.Data.Freshness.{
  ModeOptions, mode_of_age, compute_data_mode, seconds_since, age_seconds_from, max_number, max_of,
  feed_ages, compute_realtime_age_seconds,
}

-- How much a mode claims of the realtime data.
abbrev pub freshness_rank : DataMode → ℕ
freshness_rank live = 2
freshness_rank stale = 1
freshness_rank _ = 0

mode_of_age_monotone :
    (policy : FreshnessPolicy) (a b : Number)
    → number_leb a b ≡ true
    → freshness_rank (mode_of_age policy b) ≤ freshness_rank (mode_of_age policy a)
unfolding mode_of_age
mode_of_age_monotone policy a b h = elim (Bool-cases (number_leb b policy.live_max_age_seconds)) [
  | inl t ↦ rw (t, number_leb_trans a b policy.live_max_age_seconds h t) (omega arith)
  | inr f ↦ elim (Bool-cases (number_leb b policy.stale_max_age_seconds)) [
    | inl u ↦ ground (arith, f, u, number_leb_trans a b policy.stale_max_age_seconds h u)
    | inr v ↦ ground (arith, f, v)
  ]
]

-- Older data never gets a better mode: under the same options, the mode at a greater age claims no
-- more of the realtime data than the mode at a smaller one, and a missing age claims nothing.
pub compute_data_mode_monotone :
    (a b : Number) (options : ModeOptions)
    → number_leb a b ≡ true
    → (freshness_rank (compute_data_mode (some b) options)
        ≤ freshness_rank (compute_data_mode (some a) options))
      × (freshness_rank (compute_data_mode none options) ≡ 0)
unfolding compute_data_mode
compute_data_mode_monotone a b options h =
    (ground (arith, mode_of_age_monotone options.policy a b h), ground arith)

-- The age is the greatest of them.
pub record IsGreatest (ages : List Number) (m : Number) : Type 0 where
  pub attained : Memᴰ m ages
  pub bound : All (λ a. number_leb a m ≡ true) ages

number_leb_refl : (a : Number) → IsNumber a → number_leb a a ≡ true
number_leb_refl (finite a) h =
    ground (arith, compare_number-IsOrder.swaps (finite a) (finite a) refl refl)
number_leb_refl nan h = cc
number_leb_refl inf h = refl
number_leb_refl neg_inf h = refl

max_number-cases :
    (a b : Number)
    → IsNumber a
    → IsNumber b
    → ((max_number a b ≡ a) × (number_leb b a ≡ true))
      ⊎ ((max_number a b ≡ b) × (number_leb a b ≡ true))
max_number-cases a b p q = ground (arith, compare_number-IsOrder.swaps a b p q)

All-leb :
    (xs : List Number) (m n : Number)
    → number_leb m n ≡ true
    → All (λ a. number_leb a m ≡ true) xs
    → All (λ a. number_leb a n ≡ true) xs
All-leb [] m n h a = tt
All-leb (x ∷ xs) m n h a = (number_leb_trans x m n a.0 h, All-leb xs m n h a.1)

max_of-IsGreatest :
    (x : Number) (xs : List Number) → All IsNumber (x ∷ xs) → IsGreatest (x ∷ xs) (max_of (x ∷ xs))
max_of-IsGreatest x [] a =
    let same : max_of (x ∷ []) ≡ x = ground arith in
    rw same (record { attained = Memᴰ.head refl; bound = (number_leb_refl x a.0, tt) })
max_of-IsGreatest x (y ∷ ys) a =
    let rest = max_of-IsGreatest y ys a.1 in
    let m = max_of (y ∷ ys) in
    let m_number = Memᴰ-All IsNumber (y ∷ ys) a.1 rest.attained in
    elim (max_number-cases x m a.0 m_number) [
      | inl (same, over) ↦ subst (IsGreatest (x ∷ y ∷ ys)) (sym same) (record {
        attained = Memᴰ.head refl;
        bound = (number_leb_refl x a.0, All-leb (y ∷ ys) m x over rest.bound);
      })
      | inr (same, over) ↦
          subst (IsGreatest (x ∷ y ∷ ys)) (sym same)
            (record { attained = Memᴰ.tail rest.attained; bound = (over, rest.bound) })
    ]

seconds_since-IsNumber :
    (now ms : Number) → is_finite now ≡ true → IsNumber ms → IsNumber (seconds_since now ms)
unfolding ◌-ₙ◌
seconds_since-IsNumber (finite n) ms f h = ground arith
seconds_since-IsNumber nan ms f h = cc
seconds_since-IsNumber inf ms f h = cc
seconds_since-IsNumber neg_inf ms f h = cc

feed_ages-IsNumber :
    (host : Host) (feeds : List (Text × Text)) (now : Number)
    → is_finite now ≡ true
    → All IsNumber (feed_ages host feeds now)
unfolding feed_ages
feed_ages-IsNumber host [] now f = tt
feed_ages-IsNumber host ((feed, timestamp) ∷ rest) now f =
    elim (Bool-cases (is_nan (host.date_parse timestamp))) [
      | inl t ↦ rw t (feed_ages-IsNumber host rest now f)
      | inr n ↦ rw n (seconds_since-IsNumber now _ f n, feed_ages-IsNumber host rest now f)
    ]

-- The age of a snapshot at a finite time: if no feed has a timestamp that is a date, it is the age
-- since the ingestion; otherwise it is the greatest of the ages of the feeds that have one, so the
-- oldest feed decides.
pub compute_realtime_age_seconds_lem :
    (host : Host) (snapshot : RealtimeSnapshot) (now : Number)
    → is_finite now ≡ true
    → ((feed_ages host snapshot.feed_timestamps now ≡ [])
        × (compute_realtime_age_seconds host snapshot now
            ≡ age_seconds_from host snapshot.ingested_at now))
      ⊎ IsGreatest
          (feed_ages host snapshot.feed_timestamps now)
          (compute_realtime_age_seconds host snapshot now)
unfolding compute_realtime_age_seconds
compute_realtime_age_seconds_lem host snapshot now f =
    decide (feed_ages host snapshot.feed_timestamps now)
      (feed_ages-IsNumber host snapshot.feed_timestamps now f)
  where
    decide :
        (ages : List Number)
        → All IsNumber ages
        → ((ages ≡ [])
            × ((if is_empty ages
                  then age_seconds_from host snapshot.ingested_at now
                  else max_of ages)
                ≡ age_seconds_from host snapshot.ingested_at now))
          ⊎ IsGreatest ages (
              if is_empty ages then age_seconds_from host snapshot.ingested_at now else max_of ages)
    decide [] a = inl (refl, refl)
    decide (x ∷ xs) a = inr (max_of-IsGreatest x xs a)
