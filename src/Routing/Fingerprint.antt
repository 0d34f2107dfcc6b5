-- ===== src/Routing/Fingerprint.antt =====
-- services/routing/src/fingerprint.ts
use better_mta.Prelude.{
  Option, none, some, List, [], ◌∷◌, ◌++◌, map, if◌then◌else◌, or_else, or_try, take,
}
use better_mta.Prelude.Text.{Text, text, join}
use better_mta.Prelude.Number.{Number, show}
use better_mta.Routing.Types.{Host, Leg, transit, walk, TransitLeg, WalkingLeg, StopRef}
use better_mta.Routing.Satisfaction.{transit_legs_of}

-- `stop.stationId ?? stop.stopId ?? stop.name`
abbrev pub stop_key : StopRef → Text
stop_key stop = or_else (or_try stop.station_id stop.stop_id) stop.name

unfoldable pub transit_key : TransitLeg → Text
unfolding join
transit_key leg = join (text "|") (
    text "t"
    ∷ leg.line_id
    ∷ or_else leg.trip_id []
    ∷ stop_key leg.origin
    ∷ stop_key leg.destination
    ∷ leg.depart_time
    ∷ leg.arrive_time
    ∷ [])

abbrev distance_part : Option Number → List Text
distance_part none = []
distance_part (some d) = (text "d" ++ show d) ∷ []

unfoldable pub walk_key : WalkingLeg → Text
unfolding join show
walk_key leg = join (text "|") (
    text "w"
    ∷ leg.leg_id
    ∷ show leg.duration_seconds
    ∷ (if leg.out_of_system then text "1" else text "0")
    ∷ distance_part leg.distance_meters)

unfoldable pub leg_key : Leg → Text
unfolding transit_key walk_key
leg_key (transit t) = transit_key t
leg_key (walk w) = walk_key w

-- What the fingerprint is taken of.
pub record FingerprintInput : Type 0 where
  pub legs : List Leg
  pub arrival_time : Text
  pub transfer_count : Number
  pub walking_seconds : Number
  pub duration_seconds : Number

unfoldable pub material : FingerprintInput → Text
unfolding join show leg_key transit_legs_of
material input = join (text "\n") (
    input.arrival_time
    ∷ show input.duration_seconds
    ∷ show input.transfer_count
    ∷ show input.walking_seconds
    ∷ (map leg_key input.legs ++ map (λ leg. leg.line_id) (transit_legs_of input.legs)))

unfoldable pub fingerprint_itinerary : Host → FingerprintInput → Text
unfolding material
fingerprint_itinerary host input = text "fp_" ++ take 24 (host.sha256_hex (material input))
