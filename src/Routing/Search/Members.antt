-- ===== src/Routing/Search/Members.antt =====
-- Where the itineraries of the two lists come from, and what removing duplicates keeps.
use better_mta.Prelude.{
  ◌≡◌, ◌≢◌, refl, ap, sym, ◌∙◌, true, false, Option, none, List, [], ◌∷◌, map, Memᴰ, arith,
  Bool-cases, inl, inr, Memᴰ-take, Memᴰ-map, Memᴰ-of_map, Memᴰ-of_filter,
}
use better_mta.Prelude.Text.{Text, ◌===◌, ===_sound, ===_refl}
use better_mta.Prelude.Sort.{IsPairwise, Memᴰ-of_sort}
use better_mta.Routing.Types.{Host, Draft, DataMode, RankedItinerary}
use better_mta.Routing.Satisfaction.{contains}
use better_mta.Routing.Ranking.{rank_baseline, rank_constrained}
use better_mta.Routing.Search.{is_baseline_family, present, dedupe_from, dedupe_by_fingerprint}
use better_mta.Routing.Search.Pure.{
  enriched, best_arrival, enriched_all, baseline_pool, baseline_list, stamp, constrained_pool,
  constrained_list,
}

-- The two itineraries can be told apart.
abbrev pub DifferentFingerprints : RankedItinerary → RankedItinerary → Type 0
DifferentFingerprints a b = a.fingerprint ≢ b.fingerprint

Memᴰ-of_dedupe_from :
    (seen : List Text) (items : List RankedItinerary) {i : RankedItinerary}
    → Memᴰ i (dedupe_from seen items)
    → Memᴰ i items × (contains seen i.fingerprint ≡ false)
unfolding dedupe_from
Memᴰ-of_dedupe_from seen [] m = elim m [ ]
Memᴰ-of_dedupe_from seen (item ∷ items) {i} m = elim (Bool-cases (contains seen item.fingerprint)) [
  | inl old ↦ let (k, n) = Memᴰ-of_dedupe_from seen items (rw old at m) in (Memᴰ.tail k, n)
  | inr new ↦ split new (rw new at m) (λ k. Memᴰ-of_dedupe_from (item.fingerprint ∷ seen) items k)
]
  where
    split :
        contains seen item.fingerprint ≡ false
        → {rest : List RankedItinerary} → Memᴰ i (item ∷ rest)
        → (Memᴰ i rest → Memᴰ i items × (contains (item.fingerprint ∷ seen) i.fingerprint ≡ false))
        → Memᴰ i (item ∷ items) × (contains seen i.fingerprint ≡ false)
    split new (Memᴰ.head e) f =
        (Memᴰ.head e, rw (ap (λ (r : RankedItinerary). r.fingerprint) e) new)
    split new (Memᴰ.tail k) f = let (l, n) = f k in (Memᴰ.tail l, unfold contains in ground arith)

contains-cons_self : (id : Text) (seen : List Text) → contains (id ∷ seen) id ≡ true
unfolding contains
contains-cons_self id seen = rw ===_refl

dedupe_from-IsPairwise :
    (seen : List Text) (items : List RankedItinerary)
    → IsPairwise DifferentFingerprints (dedupe_from seen items)
unfolding dedupe_from
dedupe_from-IsPairwise seen [] = tt
dedupe_from-IsPairwise seen (item ∷ items) = elim (Bool-cases (contains seen item.fingerprint)) [
  | inl old ↦ rw old (dedupe_from-IsPairwise seen items)
  | inr new ↦ rw new (apart, dedupe_from-IsPairwise (item.fingerprint ∷ seen) items)
]
  where
    apart :
        (y : RankedItinerary)
        → Memᴰ y (dedupe_from (item.fingerprint ∷ seen) items)
        → DifferentFingerprints item y
    apart y m e =
        let (k, n) = Memᴰ-of_dedupe_from (item.fingerprint ∷ seen) items m in
        cc (contains-cons_self item.fingerprint seen)

not_seen :
    (f : Text) (seen : List Text) (g : Text)
    → (f === g) ≡ false
    → contains seen g ≡ false
    → contains (f ∷ seen) g ≡ false
unfolding contains
not_seen f seen g h k = rw (h, k)

-- Every item is kept, or one with its fingerprint is, or that was seen before.
dedupe_from-covers :
    (seen : List Text) (items : List RankedItinerary) {i : RankedItinerary}
    → Memᴰ i items
    → contains seen i.fingerprint ≡ false
    → (j : RankedItinerary) × Memᴰ j (dedupe_from seen items) × (j.fingerprint ≡ i.fingerprint)
unfolding dedupe_from
dedupe_from-covers seen [] m h = elim m [ ]
dedupe_from-covers seen (item ∷ items) (Memᴰ.head e) h =
    let new : contains seen item.fingerprint ≡ false =
      rw (← ap (λ (r : RankedItinerary). r.fingerprint) e) h in
    rw new (item, Memᴰ.head refl, ap (λ (r : RankedItinerary). r.fingerprint) (sym e))
dedupe_from-covers seen (item ∷ items) {i} (Memᴰ.tail m) h =
    elim (Bool-cases (contains seen item.fingerprint)) [
      | inl old ↦ rw old (dedupe_from-covers seen items m h)
      | inr new ↦ elim (Bool-cases (item.fingerprint === i.fingerprint)) [
        | inl same ↦ rw new (item, Memᴰ.head refl, ===_sound _ _ same)
        | inr other ↦
            let (j, k, e) =
              dedupe_from-covers (item.fingerprint ∷ seen) items m
                (not_seen item.fingerprint seen i.fingerprint other h) in
            rw new (j, Memᴰ.tail k, e)
      ]
    ]

pub dedupe-IsPairwise :
    (items : List RankedItinerary) → IsPairwise DifferentFingerprints (dedupe_by_fingerprint items)
unfolding dedupe_by_fingerprint
dedupe-IsPairwise items = dedupe_from-IsPairwise [] items

pub Memᴰ-of_dedupe :
    (items : List RankedItinerary) {i : RankedItinerary}
    → Memᴰ i (dedupe_by_fingerprint items)
    → Memᴰ i items
unfolding dedupe_by_fingerprint
Memᴰ-of_dedupe items m = (Memᴰ-of_dedupe_from [] items m).0

pub dedupe-covers :
    (items : List RankedItinerary) {i : RankedItinerary}
    → Memᴰ i items
    → (j : RankedItinerary) × Memᴰ j (dedupe_by_fingerprint items) × (j.fingerprint ≡ i.fingerprint)
unfolding dedupe_by_fingerprint
dedupe-covers items m = dedupe_from-covers [] items m (unfold contains in refl)

-- What an itinerary says of the draft that it was made of.
pub record Presents (host : Host) (d : Draft) (i : RankedItinerary) : Type 0 where
  pub itinerary_id : i.itinerary_id ≡ d.itinerary_id
  pub legs : i.legs ≡ d.legs
  pub arrival : i.arrival_time ≡ d.arrival_time
  pub duration : i.duration_seconds ≡ d.duration_seconds
  pub walking : i.walking_seconds ≡ d.walking_seconds
  pub waiting : i.waiting_seconds ≡ d.waiting_seconds
  pub transfers : i.transfer_count ≡ d.transfer_count
  pub family : i.candidate_family ≡ d.candidate_family

module _ (host : Host) (mode : DataMode) (selected : List Text) where
  abbrev pub content_of : Draft → Text
  content_of d = (enriched host mode selected none d).fingerprint

  pub enriched-Presents :
      (best : Option Text) (d : Draft) → Presents host d (enriched host mode selected best d)
  unfolding enriched present
  enriched-Presents best d = record {
    itinerary_id = refl;
    legs = refl;
    arrival = refl;
    duration = refl;
    walking = refl;
    waiting = refl;
    transfers = refl;
    family = refl;
  }

  module _ (drafts : List Draft) where
    abbrev pub candidate : Draft → RankedItinerary
    candidate d = enriched host mode selected (best_arrival host mode drafts) d

    pub Memᴰ-of_enriched_all :
        {i : RankedItinerary}
        → Memᴰ i (enriched_all host mode selected drafts)
        → (d : Draft) × Memᴰ d drafts × (i ≡ candidate d)
    unfolding enriched_all
    Memᴰ-of_enriched_all m = Memᴰ-of_map _ drafts m

    pub Memᴰ-of_baseline_pool :
        {i : RankedItinerary}
        → Memᴰ i (baseline_pool host mode selected drafts)
        → ((d : Draft) × Memᴰ d drafts × (i ≡ candidate d))
          × (is_baseline_family i.candidate_family ≡ true)
    unfolding baseline_pool
    Memᴰ-of_baseline_pool m =
        let (k, f) =
          Memᴰ-of_filter (λ i. is_baseline_family i.candidate_family) _ (Memᴰ-of_dedupe _ m) in
        (Memᴰ-of_enriched_all k, f)

    -- Every itinerary of the baseline list is the candidate of a draft of the baseline family.
    pub Memᴰ-of_baseline_list :
        {i : RankedItinerary}
        → Memᴰ i (baseline_list host mode selected drafts)
        → ((d : Draft) × Memᴰ d drafts × (i ≡ candidate d))
          × (is_baseline_family i.candidate_family ≡ true)
    unfolding baseline_list rank_baseline
    Memᴰ-of_baseline_list m = Memᴰ-of_baseline_pool (Memᴰ-of_sort _ _ (Memᴰ-take 3 _ m))

    pub Memᴰ-of_constrained_pool :
        {i : RankedItinerary}
        → Memᴰ i (constrained_pool host mode selected drafts)
        → (d : Draft) × Memᴰ d drafts × (i ≡ stamp host mode selected drafts (candidate d))
    unfolding constrained_pool
    Memᴰ-of_constrained_pool m =
        let (j, k, e) = Memᴰ-of_map (stamp host mode selected drafts) _ m in
        let (d, l, f) = Memᴰ-of_enriched_all (Memᴰ-of_dedupe _ k) in
        (d, l, e ∙ ap (stamp host mode selected drafts) f)

    pub Memᴰ-of_constrained_list :
        {i : RankedItinerary}
        → Memᴰ i (constrained_list host mode selected drafts)
        → (d : Draft) × Memᴰ d drafts × (i ≡ stamp host mode selected drafts (candidate d))
    unfolding constrained_list rank_constrained
    Memᴰ-of_constrained_list m = Memᴰ-of_constrained_pool (Memᴰ-of_sort _ _ (Memᴰ-take 3 _ m))

    -- Every draft has a candidate with its fingerprint in the pool.
    pub constrained_pool-covers :
        (d : Draft)
        → Memᴰ d drafts
        → (e : Draft) × Memᴰ e drafts
          × Memᴰ
              (stamp host mode selected drafts (candidate e))
              (constrained_pool host mode selected drafts)
          × ((candidate e).fingerprint ≡ (candidate d).fingerprint)
    unfolding constrained_pool enriched_all
    constrained_pool-covers d m =
        let (j, k, f) = dedupe-covers (map candidate drafts) (Memᴰ-map candidate drafts m) in
        let (e, l, g) = Memᴰ-of_map candidate drafts (Memᴰ-of_dedupe _ k) in
        (
          e,
          l,
          rw (← g) (Memᴰ-map (stamp host mode selected drafts) _ k),
          ap (λ (r : RankedItinerary). r.fingerprint) (sym g) ∙ f,
        )
