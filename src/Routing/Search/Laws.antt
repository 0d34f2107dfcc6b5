-- ===== src/Routing/Search/Laws.antt =====
-- What the two lists of a search that found itineraries hold, and how they are ranked.
use better_mta.Prelude.{
  ◌<◌, ◌≤◌, ◌≡◌, refl, sym, true, false, List, [], Memᴰ, All, arith, Bool-cases, ◌⊎◌, inl, inr,
  length, nat_eqb, length-take, All-of_Memᴰ, Memᴰ-of_filter,
}
use better_mta.Prelude.Text.{Text}
use better_mta.Prelude.Number.{Number, nan, inf, neg_inf, finite, sign, IsNumber}
use better_mta.Prelude.Sort.{
  precedes, IsRanked, IsRanked-take, sort-IsRanked, IsPairwise, IsPairwise-map, IsPairwise-take,
  sort-IsPairwise, take-best, Memᴰ-sort,
}
use better_mta.Routing.Types.{
  Host, Draft, DataMode, RankedItinerary, Tally, max_returned_itineraries,
}
use better_mta.Routing.Satisfaction.{satisfaction_of}
use better_mta.Routing.Validate.{
  valid, rejected, DraftValidationResult, validate_candidate_draft, is_non_negative,
}
use better_mta.Routing.Validate.Laws.{validate_candidate_draft_iff}
use better_mta.Routing.Ranking.{
  compare_baseline, compare_constrained, rank_baseline, rank_constrained,
}
use better_mta.Routing.Ranking.Order.{
  IsRankable, compare_baseline-IsOrder, compare_constrained-IsOrder,
}
use better_mta.Routing.Search.{
  valid_drafts, is_accepted, restamp, unconstrained_results, constrained_results,
}
use better_mta.Routing.Search.Pure.{
  baseline_pool, baseline_list, stamp, constrained_pool, constrained_list, results,
}
use better_mta.Routing.Search.Members.{
  DifferentFingerprints, Presents, enriched-Presents, Memᴰ-of_baseline_pool,
  Memᴰ-of_constrained_pool, dedupe-IsPairwise,
}

non_negative-IsNumber : (n : Number) → is_non_negative n ≡ true → IsNumber n
unfolding is_non_negative
non_negative-IsNumber nan h = cc
non_negative-IsNumber inf h = refl
non_negative-IsNumber neg_inf h = refl
non_negative-IsNumber (finite a) h = refl

accepted-valid : (v : DraftValidationResult) → is_accepted v ≡ true → v ≡ valid
accepted-valid valid h = refl
accepted-valid (rejected r) h = cc

pub Memᴰ-of_valid_drafts :
    (host : Host) (drafts : List Draft) {d : Draft}
    → Memᴰ d (valid_drafts host drafts)
    → Memᴰ d drafts × (validate_candidate_draft host d ≡ valid)
unfolding valid_drafts
Memᴰ-of_valid_drafts host drafts m =
    let (k, h) = Memᴰ-of_filter (λ d. is_accepted (validate_candidate_draft host d)) drafts m in
    (k, accepted-valid _ h)

Presents-IsRankable :
    (host : Host) (d : Draft) (i : RankedItinerary)
    → validate_candidate_draft host d ≡ valid
    → Presents host d i
    → IsRankable i
Presents-IsRankable host d i h p =
    let v = (validate_candidate_draft_iff host d).0 h in
    record {
      transfers = rw (p.transfers) (non_negative-IsNumber _ v.transfers);
      walking = rw (p.walking) (non_negative-IsNumber _ v.walking);
    }

restamp-Presents :
    (host : Host) (d : Draft) (i : RankedItinerary) (requested : List Text)
    → Presents host d i
    → Presents host d (restamp i (satisfaction_of requested i.legs))
unfolding restamp
restamp-Presents host d i requested p = record {
  itinerary_id = p.itinerary_id;
  legs = p.legs;
  arrival = p.arrival;
  duration = p.duration;
  walking = p.walking;
  waiting = p.waiting;
  transfers = p.transfers;
  family = p.family;
}

module _ (host : Host) (mode : DataMode) (selected : List Text) (drafts : List Draft)
    (gated : (d : Draft) → Memᴰ d drafts → validate_candidate_draft host d ≡ valid) where
  pub stamp-Presents :
      (d : Draft) (i : RankedItinerary)
      → Presents host d i
      → Presents host d (stamp host mode selected drafts i)
  unfolding stamp
  stamp-Presents d i p = restamp-Presents host d i selected p

  baseline_pool-IsRankable : All IsRankable (baseline_pool host mode selected drafts)
  baseline_pool-IsRankable = All-of_Memᴰ IsRankable _ λ i m.
      let (d, k, e) = (Memᴰ-of_baseline_pool host mode selected drafts m).0 in
      rw e (Presents-IsRankable host d _ (gated d k) (enriched-Presents host mode selected _ d))

  pub constrained_pool-IsRankable : All IsRankable (constrained_pool host mode selected drafts)
  constrained_pool-IsRankable = All-of_Memᴰ IsRankable _ λ i m.
      let (d, k, e) = Memᴰ-of_constrained_pool host mode selected drafts m in
      rw e (
        Presents-IsRankable host d _ (gated d k)
          (stamp-Presents d _ (enriched-Presents host mode selected _ d)))

  pub baseline_list-IsRanked :
      IsRanked (λ a b. sign (compare_baseline a b)) (baseline_list host mode selected drafts)
  unfolding baseline_list rank_baseline
  baseline_list-IsRanked =
      IsRanked-take _ 3 _ (sort-IsRanked _ compare_baseline-IsOrder _ baseline_pool-IsRankable)

  pub constrained_list-IsRanked :
      IsRanked (λ a b. sign (compare_constrained a b)) (constrained_list host mode selected drafts)
  unfolding constrained_list rank_constrained
  constrained_list-IsRanked =
      IsRanked-take _ 3 _
        (sort-IsRanked _ compare_constrained-IsOrder _ constrained_pool-IsRankable)

  pub constrained_list-best :
      {a b : RankedItinerary}
      → Memᴰ a (constrained_pool host mode selected drafts)
      → Memᴰ b (constrained_list host mode selected drafts)
      → Memᴰ a (constrained_list host mode selected drafts)
        ⊎ (precedes (λ x y. sign (compare_constrained x y)) a b ≡ false)
  unfolding constrained_list rank_constrained
  constrained_list-best m k =
      take-best _ 3 _ (sort-IsRanked _ compare_constrained-IsOrder _ constrained_pool-IsRankable)
        (Memᴰ-sort _ _ m) k

module _ (host : Host) (mode : DataMode) (selected : List Text) (drafts : List Draft) where
  different_back : (a b : RankedItinerary) → DifferentFingerprints a b → DifferentFingerprints b a
  different_back a b d e = d (sym e)

  pub baseline_list-IsPairwise :
      IsPairwise DifferentFingerprints (baseline_list host mode selected drafts)
  unfolding baseline_list baseline_pool rank_baseline
  baseline_list-IsPairwise =
      IsPairwise-take _ 3 _ (sort-IsPairwise _ _ different_back _ (dedupe-IsPairwise _))

  constrained_pool-IsPairwise :
      IsPairwise DifferentFingerprints (constrained_pool host mode selected drafts)
  unfolding constrained_pool stamp restamp
  constrained_pool-IsPairwise =
      IsPairwise-map DifferentFingerprints DifferentFingerprints (stamp host mode selected drafts)
        (λ a b d. d) _ (dedupe-IsPairwise _)

  pub constrained_list-IsPairwise :
      IsPairwise DifferentFingerprints (constrained_list host mode selected drafts)
  unfolding constrained_list rank_constrained
  constrained_list-IsPairwise =
      IsPairwise-take _ 3 _ (sort-IsPairwise _ _ different_back _ constrained_pool-IsPairwise)

  pub baseline_list-length :
      length (baseline_list host mode selected drafts) ≤ max_returned_itineraries
  unfolding baseline_list
  baseline_list-length = length-take 3 _

  pub constrained_list-length :
      length (constrained_list host mode selected drafts) ≤ max_returned_itineraries
  unfolding constrained_list
  constrained_list-length = length-take 3 _

  pub results-cases :
      (counts : Tally)
      → (results host mode selected drafts counts
            ≡ unconstrained_results mode counts (baseline_list host mode selected drafts))
          × (length selected ≡ 0)
        ⊎ (results host mode selected drafts counts
            ≡ constrained_results mode
                (length selected)
                counts
                (baseline_list host mode selected drafts)
                (constrained_list host mode selected drafts))
          × (0 < length selected)
  results-cases counts = elim (Bool-cases (nat_eqb (length selected) 0)) [
    | inl zero_lines ↦ inl (rw zero_lines, ground arith)
    | inr some_line ↦ inr (rw some_line, ground arith)
  ]

  pub baseline-results :
      (counts : Tally)
      → (results host mode selected drafts counts).baseline
        ≡ baseline_list host mode selected drafts
  unfolding unconstrained_results constrained_results
  baseline-results counts = ground arith

  pub constrained-results :
      (counts : Tally)
      → ((results host mode selected drafts counts).constrained ≡ [])
        ⊎ ((results host mode selected drafts counts).constrained
            ≡ constrained_list host mode selected drafts)
  unfolding unconstrained_results constrained_results
  constrained-results counts = ground arith
