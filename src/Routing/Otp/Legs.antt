-- ===== src/Routing/Otp/Legs.antt =====
-- services/routing/src/otp-provider/map.ts: the legs of an itinerary.
use better_mta.Prelude.{
  ℕ, suc, not, ◌||◌, Option, none, some, List, [], ◌∷◌, ◌++◌, or_else, or_try, is_some,
  if◌then◌else◌,
}
use better_mta.Prelude.Int.{ℤ, pos}
use better_mta.Prelude.Text.{Text, text, show_ℕ}
use better_mta.Prelude.Number.{Number, number, finite, number_ltb, max_zero, round_quotient, ◌-ₙ◌}
use better_mta.Routing.Types.{Host, StopRef, Leg, transit, walk, TransitLeg, WalkingLeg}
use better_mta.Routing.Otp.Types.{
  Engine, Attempt, returned, raised, OtpPlace, OtpLeg, OtpRejectReason, MapContext,
  zero_duration_transit, unmappable_route, missing_times,
}
use better_mta.Routing.Otp.Times.{present_text, leg_start, leg_end, is_walk_mode, is_transit_mode}

-- `place?.stop?.gtfsId`
abbrev pub stop_id_of : Option OtpPlace → Option Text
stop_id_of none = none
stop_id_of (some place) = place.stop_gtfs_id

abbrev name_of : Option OtpPlace → Option Text
name_of none = none
name_of (some place) = or_try place.stop_name place.place_name

unfoldable pub stop_ref : Option OtpPlace → StopRef
stop_ref place =
    let id = present_text (stop_id_of place) in
    record { name = or_else (name_of place) (text "Unknown"); station_id = id; stop_id = id }

unfoldable pub trip_ids : List OtpLeg → List Text
trip_ids [] = []
trip_ids (leg ∷ legs) = elim (present_text leg.trip_gtfs_id) [
  | none ↦ trip_ids legs
  | some id ↦ id ∷ trip_ids legs
]

unfoldable pub source_engine_ids : Engine → MapContext → ℕ → List OtpLeg → List (Text × Text)
unfolding trip_ids
source_engine_ids engine ctx index legs =
    (text "engine", text "otp")
    ∷ (text "graphVersion", ctx.graph_version)
    ∷ (text "queryId", ctx.query_id)
    ∷ (text "itineraryIndex", show_ℕ index)
    ∷ (text "otpTripIds", engine.json_strings (trip_ids legs))
    ∷ []

-- `Math.max(0, Math.round(leg.duration ?? 0))`
unfoldable pub walk_seconds : OtpLeg → Number
walk_seconds leg = max_zero (finite (or_else leg.duration (pos 0)))

unfoldable pub map_walk_leg : OtpLeg → Text → WalkingLeg
unfolding walk_seconds
map_walk_leg leg id = record {
  leg_id = id;
  duration_seconds = walk_seconds leg;
  distance_meters = none;
  out_of_system = not (
      is_some (present_text (stop_id_of leg.origin))
      || is_some (present_text (stop_id_of leg.destination)));
  instruction = none;
}

-- `leg.duration ?? s`
unfoldable pub duration_or : Option ℤ → Number → Number
duration_or none s = s
duration_or (some d) s = finite d

unfoldable pub map_transit_leg :
    Host → OtpLeg → Text → Text → List (Text × Text) → Text → Text → TransitLeg
unfolding ◌-ₙ◌ stop_ref duration_or
map_transit_leg host leg id line identity depart arrive = record {
  leg_id = id;
  line_id = line;
  trip_id = leg.trip_gtfs_id;
  headsign = none;
  origin = stop_ref leg.origin;
  destination = stop_ref leg.destination;
  depart_time = depart;
  arrive_time = arrive;
  duration_seconds = some (
      max_zero (
        duration_or leg.duration
          (max_zero (round_quotient (host.date_parse arrive -ₙ host.date_parse depart) 1000))));
  source_engine_ids = some identity;
}

-- A leg, the reason for which the itinerary is rejected, or the message of an error.
pub data LegResult : Type 0 where
  leg_mapped : Leg → LegResult
  leg_rejected : OtpRejectReason → LegResult
  leg_raised : Text → LegResult

-- A transit leg, from its times.
unfoldable pub map_timed :
    Host → OtpLeg → Text → List (Text × Text) → Text → Option Text → Option Text → LegResult
unfolding ◌-ₙ◌ map_transit_leg duration_or
map_timed host leg id identity line none arrive = leg_rejected missing_times
map_timed host leg id identity line (some depart) none = leg_rejected missing_times
map_timed host leg id identity line (some depart) (some arrive) =
    let seconds =
      duration_or leg.duration
        (round_quotient (host.date_parse arrive -ₙ host.date_parse depart) 1000) in
    if not (number_ltb (number 0) seconds)
    then leg_rejected zero_duration_transit
    else leg_mapped (transit (map_transit_leg host leg id line identity depart arrive))

-- A transit leg, from its line.
unfoldable pub map_ride :
    Host
    → OtpLeg
    → Text
    → List (Text × Text)
    → Option Text
    → Attempt (Option Text)
    → Attempt (Option Text)
    → LegResult
unfolding map_timed
map_ride host leg id identity none depart arrive = leg_rejected unmappable_route
map_ride host leg id identity (some line) (raised m) arrive = leg_raised m
map_ride host leg id identity (some line) (returned depart) (raised m) = leg_raised m
map_ride host leg id identity (some line) (returned depart) (returned arrive) =
    map_timed host leg id identity line (present_text depart) (present_text arrive)

-- `ctx.routeIdToLineId(gtfsRouteId)`, where there is an id
unfoldable pub line_of_route : MapContext → Option Text → Option Text
line_of_route ctx none = none
line_of_route ctx (some id) = present_text (ctx.route_id_to_line_id id)

-- One round of the loop over the legs.
unfoldable pub map_leg : Host → Engine → MapContext → Text → List (Text × Text) → OtpLeg → LegResult
unfolding is_walk_mode is_transit_mode map_walk_leg map_ride line_of_route leg_start leg_end
map_leg host engine ctx id identity leg =
    let ride =
      map_ride host leg id identity (line_of_route ctx (present_text leg.route_gtfs_id))
        (leg_start host engine leg) (leg_end host engine leg) in
    if is_walk_mode host engine leg.mode
    then leg_mapped (walk (map_walk_leg leg id))
    else if not (is_transit_mode host engine leg.mode)
    then leg_mapped (walk (map_walk_leg leg id))
    else ride

pub data LegsResult : Type 0 where
  legs_mapped : List Leg → LegsResult
  legs_rejected : OtpRejectReason → LegsResult
  legs_raised : Text → LegsResult

unfoldable pub itinerary_id : MapContext → ℕ → Text
itinerary_id ctx index = text "otp_" ++ ctx.query_id ++ text "_" ++ show_ℕ index

abbrev pub cons_leg : LegResult → LegsResult → LegsResult
cons_leg (leg_rejected r) rest = legs_rejected r
cons_leg (leg_raised m) rest = legs_raised m
cons_leg (leg_mapped l) (legs_rejected r) = legs_rejected r
cons_leg (leg_mapped l) (legs_raised m) = legs_raised m
cons_leg (leg_mapped l) (legs_mapped ls) = legs_mapped (l ∷ ls)

-- The loop over the legs, from the leg with this number on; the first that is rejected or throws
-- decides.
unfoldable pub map_legs :
    Host → Engine → MapContext → ℕ → List (Text × Text) → ℕ → List OtpLeg → LegsResult
unfolding map_leg itinerary_id
map_legs host engine ctx index identity i [] = legs_mapped []
map_legs host engine ctx index identity i (leg ∷ legs) =
    cons_leg (map_leg host engine ctx (itinerary_id ctx index ++ text "_" ++ show_ℕ i) identity leg)
      (map_legs host engine ctx index identity (suc i) legs)
