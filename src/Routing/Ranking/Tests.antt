-- ===== src/Routing/Ranking/Tests.antt =====
-- The ranking, on two itineraries.
use mathlib.Core.List.{Perm}
use better_mta.Prelude.{◌≡◌, refl, none, List, [], ◌∷◌, map}
use better_mta.Prelude.Number.{sign}
use better_mta.Prelude.Sort.{IsRanked}
use better_mta.Routing.Types.{RankedItinerary, RealtimeConfidence, unrated, live, Draft}
use better_mta.Routing.Samples.{host, slow, fast, selected}
use better_mta.Routing.Satisfaction.{satisfaction_of}
use better_mta.Routing.Search.{present}
use better_mta.Routing.Ranking.{
  realtime_confidence_rank, compare_baseline, compare_constrained, rank_constrained,
}
use better_mta.Routing.Ranking.Order.{
  IsRankable, by_time_criteria, by_all_criteria, sign-compare_baseline, sign-compare_constrained,
  rank_constrained_lem,
}

abbrev shown : Draft → RankedItinerary
shown d = present host d (satisfaction_of selected d.legs) none live

shown-slow-IsRankable : IsRankable (shown slow)
unfolding present
shown-slow-IsRankable = record { transfers = refl; walking = refl }

shown-fast-IsRankable : IsRankable (shown fast)
unfolding present
shown-fast-IsRankable = record { transfers = refl; walking = refl }

abbrev both : List RankedItinerary
both = shown slow ∷ shown fast ∷ []

sign-compare_baseline_example :
    sign (compare_baseline (shown slow) (shown fast)) ≡ by_time_criteria (shown slow) (shown fast)
sign-compare_baseline_example =
    sign-compare_baseline (shown slow) (shown fast) shown-slow-IsRankable shown-fast-IsRankable

sign-compare_constrained_example :
    sign (compare_constrained (shown slow) (shown fast)) ≡ by_all_criteria (shown slow) (shown fast)
sign-compare_constrained_example =
    sign-compare_constrained (shown slow) (shown fast) shown-slow-IsRankable shown-fast-IsRankable

confidence_tests :
    (map realtime_confidence_rank (
        RealtimeConfidence.high ∷ RealtimeConfidence.medium ∷ RealtimeConfidence.low ∷ unrated ∷ [])
      ≡ 3 ∷ 2 ∷ 1 ∷ 0 ∷ [])
confidence_tests = refl

rank_constrained_lem_example :
    Perm (rank_constrained both) both
    × IsRanked (λ a b. sign (compare_constrained a b)) (rank_constrained both)
rank_constrained_lem_example =
    rank_constrained_lem both (shown-slow-IsRankable, (shown-fast-IsRankable, tt))
