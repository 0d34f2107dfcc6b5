-- ===== src/Routing/Ranking.antt =====
-- services/routing/src/ranking.ts. A comparator returns a number, whose sign `sort` reads.
pub mod Order
mod Tests
use better_mta.Prelude.{ℕ, Bool, not, List, if◌then◌else◌, nat_eqb, take}
use better_mta.Prelude.Int.{pos, negsuc}
use better_mta.Prelude.Text.{Text, ◌===◌, text_ltb}
use better_mta.Prelude.Number.{Number, number, finite, ◌-ₙ◌, number_eqb, sign}
use better_mta.Prelude.Sort.{sort}
use better_mta.Routing.Types.{RankedItinerary, RealtimeConfidence, high, medium, low, unrated}

abbrev pub realtime_confidence_rank : RealtimeConfidence → ℕ
realtime_confidence_rank RealtimeConfidence.high = 3
realtime_confidence_rank RealtimeConfidence.medium = 2
realtime_confidence_rank RealtimeConfidence.low = 1
realtime_confidence_rank unrated = 0

-- `a < b ? -1 : 1`
abbrev pub text_order : Text → Text → Number
text_order a b = if text_ltb a b then finite (negsuc 0) else number 1

unfoldable pub compare_baseline : RankedItinerary → RankedItinerary → Number
compare_baseline a b =
    if not (a.arrival_time === b.arrival_time)
    then text_order a.arrival_time b.arrival_time
    else if not (number_eqb a.transfer_count b.transfer_count)
    then a.transfer_count -ₙ b.transfer_count
    else if not (number_eqb a.walking_seconds b.walking_seconds)
    then a.walking_seconds -ₙ b.walking_seconds
    else let conf =
        number (realtime_confidence_rank b.realtime_confidence)
        -ₙ number (realtime_confidence_rank a.realtime_confidence) in
      if not (number_eqb conf (number 0))
      then conf
      else if not (a.fingerprint === b.fingerprint)
      then text_order a.fingerprint b.fingerprint
      else number 0

unfoldable pub compare_constrained : RankedItinerary → RankedItinerary → Number
compare_constrained a b =
    if not (nat_eqb a.satisfaction.satisfaction_count b.satisfaction.satisfaction_count)
    then number b.satisfaction.satisfaction_count -ₙ number a.satisfaction.satisfaction_count
    else if not (a.arrival_time === b.arrival_time)
    then text_order a.arrival_time b.arrival_time
    else if not (number_eqb a.transfer_count b.transfer_count)
    then a.transfer_count -ₙ b.transfer_count
    else if not (number_eqb a.walking_seconds b.walking_seconds)
    then a.walking_seconds -ₙ b.walking_seconds
    else let conf =
        number (realtime_confidence_rank b.realtime_confidence)
        -ₙ number (realtime_confidence_rank a.realtime_confidence) in
      if not (number_eqb conf (number 0))
      then conf
      else if not (a.fingerprint === b.fingerprint)
      then text_order a.fingerprint b.fingerprint
      else number 0

unfoldable pub rank_constrained : List RankedItinerary → List RankedItinerary
rank_constrained candidates = sort (λ a b. sign (compare_constrained a b)) candidates

unfoldable pub rank_baseline : List RankedItinerary → List RankedItinerary
rank_baseline candidates = sort (λ a b. sign (compare_baseline a b)) candidates

-- `items.slice(0, Math.max(0, n))`, for a count that is never negative
abbrev pub truncate_top {ℓ} : {A : Type ℓ} → List A → ℕ → List A
truncate_top items n = take n items
