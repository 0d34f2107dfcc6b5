-- ===== src/Routing/Search/Summary.antt =====
-- The selected lines that drafts use, and the first item of the constrained list that `runRouteSearch`
-- (services/routing/src/search.ts) reads its summary off.
use better_mta.Prelude.{
  ℕ, ◌≤◌, ◌≡◌, ◌↔◌, refl, ap, sym, ◌∙◌, true, false, some, List, Memᴰ, arith, inl, inr, first,
  Memᴰ-All, Memᴰ-take,
}
use better_mta.Prelude.Text.{Text}
use better_mta.Prelude.Number.{sign}
use better_mta.Prelude.Sort.{precedes, first-best, Memᴰ-sort, Memᴰ-of_sort, sort-IsRanked}
use better_mta.Routing.Types.{Host, Draft, DataMode, RankedItinerary}
use better_mta.Routing.Satisfaction.{satisfaction_of, uses_line}
use better_mta.Routing.Satisfaction.Laws.{
  satisfaction_of-IsSatisfactionOf, requested-satisfaction_of, satisfaction_of-same_lines,
}
use better_mta.Routing.Fingerprint.{fingerprint_itinerary}
use better_mta.Routing.Validate.{valid, validate_candidate_draft}
use better_mta.Routing.Ranking.{compare_constrained, rank_constrained}
use better_mta.Routing.Ranking.Order.{
  IsRankable, sign-compare_constrained, compare_constrained-IsOrder,
}
use better_mta.Routing.Search.{restamp, present}
use better_mta.Routing.Search.Pure.{enriched, stamp, constrained_pool, constrained_list}
use better_mta.Routing.Search.Members.{candidate, constrained_pool-covers}
use better_mta.Routing.Search.Laws.{constrained_pool-IsRankable}

-- How many of the selected lines the draft's legs use.
abbrev pub count_of : List Text → Draft → ℕ
count_of selected d = (satisfaction_of selected d.legs).satisfaction_count

-- The draft uses every selected line.
abbrev pub UsesAll : List Text → Draft → Type 0
UsesAll selected d = (id : Text) → Memᴰ id selected → uses_line d.legs id ≡ true

-- The fingerprint of a draft's content.
abbrev pub fingerprint_of : Host → Draft → Text
fingerprint_of host d = fingerprint_itinerary host (record {
  legs = d.legs;
  arrival_time = d.arrival_time;
  transfer_count = d.transfer_count;
  walking_seconds = d.walking_seconds;
  duration_seconds = d.duration_seconds;
})

-- Drafts with one fingerprint use the same lines: the digest does not collide on these drafts.
pub record FingerprintsTell (host : Host) (drafts : List Draft) : Type 0 where
  pub tell :
      (d e : Draft)
      → Memᴰ d drafts
      → Memᴰ e drafts
      → fingerprint_of host d ≡ fingerprint_of host e
      → (id : Text) → uses_line d.legs id ≡ uses_line e.legs id

precedes_count :
    (a b : RankedItinerary)
    → IsRankable a
    → IsRankable b
    → precedes (λ x y. sign (compare_constrained x y)) a b ≡ false
    → a.satisfaction.satisfaction_count ≤ b.satisfaction.satisfaction_count
precedes_count a b p q h = ground (arith, sign-compare_constrained a b p q)

module _ (host : Host) (mode : DataMode) (selected : List Text) (drafts : List Draft) where
  abbrev pub offer : Draft → RankedItinerary
  offer d = stamp host mode selected drafts (candidate host mode selected drafts d)

  pub satisfaction-offer : (d : Draft) → (offer d).satisfaction ≡ satisfaction_of selected d.legs
  unfolding stamp restamp enriched present
  satisfaction-offer d = refl

  fingerprint-candidate :
      (d : Draft) → (candidate host mode selected drafts d).fingerprint ≡ fingerprint_of host d
  unfolding enriched present
  fingerprint-candidate d = refl

  module _ (gated : (d : Draft) → Memᴰ d drafts → validate_candidate_draft host d ≡ valid) where
    -- The first item of the constrained list satisfies at least as many lines as any candidate.
    pub list-head :
        {a : RankedItinerary}
        → Memᴰ a (constrained_pool host mode selected drafts)
        → (x : RankedItinerary) × (first (constrained_list host mode selected drafts) ≡ some x)
          × Memᴰ x (constrained_list host mode selected drafts)
          × (a.satisfaction.satisfaction_count ≤ x.satisfaction.satisfaction_count)
    unfolding constrained_list rank_constrained
    list-head {a} m =
        let c = λ (x y : RankedItinerary). sign (compare_constrained x y) in
        let rankable = constrained_pool-IsRankable host mode selected drafts gated in
        let (x, head, k, above) =
          first-best c 2 _ (sort-IsRanked c compare_constrained-IsOrder _ rankable)
            (Memᴰ-sort c _ m) in
        let x_rankable = Memᴰ-All IsRankable _ rankable (Memᴰ-of_sort c _ (Memᴰ-take 3 _ k)) in
        (
          x,
          head,
          k,
          elim above [
            | inl e ↦
                omega (arith, ap (λ (i : RankedItinerary). i.satisfaction.satisfaction_count) e)
            | inr behind ↦ precedes_count a x (Memᴰ-All IsRankable _ rankable m) x_rankable behind
          ],
        )

    -- So it satisfies at least as many as any draft, if the fingerprints tell the lines apart.
    pub head-covers :
        FingerprintsTell host drafts
        → (d : Draft) → Memᴰ d drafts
        → (x : RankedItinerary) × (first (constrained_list host mode selected drafts) ≡ some x)
          × Memᴰ x (constrained_list host mode selected drafts)
          × (count_of selected d ≤ x.satisfaction.satisfaction_count)
    head-covers apart d m =
        let (e, l, k, f) = constrained_pool-covers host mode selected drafts d m in
        let (x, head, n, above) = list-head k in
        let same = sym (fingerprint-candidate e) ∙ f ∙ fingerprint-candidate d in
        let lines = satisfaction_of-same_lines selected e.legs d.legs (apart.tell e d l m same) in
        (
          x,
          head,
          n,
          omega (
            arith,
            above,
            ap (λ s. s.satisfaction_count) lines,
            ap (λ s. s.satisfaction_count) (satisfaction-offer e),
          ),
        )

pub is_complete_iff :
    (selected : List Text) (d : Draft)
    → ((satisfaction_of selected d.legs).is_complete ≡ true) ↔ UsesAll selected d
is_complete_iff selected d =
    let s = satisfaction_of-IsSatisfactionOf selected d.legs in
    let same = requested-satisfaction_of selected d.legs in
    (
      (λ h id m. s.complete_iff.0 h id (rw same m)),
      λ h. s.complete_iff.1 (λ id m. h id (rw same at m)),
    )
