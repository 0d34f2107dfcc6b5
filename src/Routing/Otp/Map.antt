-- ===== src/Routing/Otp/Map.antt =====
-- services/routing/src/otp-provider/map.ts: itineraries to drafts, or to a reason for
-- rejection, or to an error that the loop over the itineraries does not catch.
use better_mta.Prelude.{
  ℕ, suc, ◌+◌, ◌-◌, Bool, true, false, not, ◌||◌, Option, none, some, List, [], ◌∷◌, ◌++◌, length,
  or_else, or_try, is_empty, if◌then◌else◌,
}
use better_mta.Prelude.Text.{Text, text}
use better_mta.Prelude.Number.{
  Number, number, is_finite, is_nan, number_ltb, number_eqb, max_zero, floor_quotient, ◌+ₙ◌, ◌-ₙ◌,
}
use better_mta.Routing.Types.{Host, Leg, transit, walk, TransitLeg, Draft, baseline, unrated}
use better_mta.Routing.Satisfaction.{transit_legs_of}
use better_mta.Routing.Validate.{overlaps}
use better_mta.Routing.Otp.Types.{
  Engine, Attempt, returned, raised, OtpLeg, OtpItinerary, OtpRejectReason, MapContext, empty_legs,
  non_chronological, zero_duration_transit, unmappable_route, missing_times,
}
use better_mta.Routing.Otp.Times.{present_text, itinerary_start, itinerary_end}
use better_mta.Routing.Otp.Legs.{
  source_engine_ids, duration_or, LegsResult, itinerary_id, map_legs, legs_mapped, legs_rejected,
  legs_raised,
}

-- The loop of `legsChronological`, with the arrival of the transit leg before.
unfoldable pub legs_chronological : Host → List Leg → Option Number → Bool
unfolding overlaps
legs_chronological host [] previous = true
legs_chronological host (walk w ∷ legs) previous = legs_chronological host legs previous
legs_chronological host (transit t ∷ legs) previous =
    let depart = host.date_parse t.depart_time in
    let arrive = host.date_parse t.arrive_time in
    let rest = legs_chronological host legs (some arrive) in
    if not (is_finite depart) || not (is_finite arrive)
    then false
    else if number_ltb arrive depart
    then false
    else if overlaps previous depart
    then false
    else rest

-- `walkingSeconds`: the sum over the walking legs.
unfoldable pub walking_of : List Leg → Number
unfolding ◌+ₙ◌
walking_of [] = number 0
walking_of (transit t ∷ legs) = walking_of legs
walking_of (walk w ∷ legs) = w.duration_seconds +ₙ walking_of legs

-- `transitSeconds`
unfoldable pub riding_of : List TransitLeg → Number
unfolding ◌+ₙ◌
riding_of [] = number 0
riding_of (t ∷ legs) = or_else t.duration_seconds (number 0) +ₙ riding_of legs

-- The arrival of the last transit leg.
unfoldable pub last_arrival : List TransitLeg → Option Text
last_arrival [] = none
last_arrival (t ∷ legs) = or_try (last_arrival legs) (some t.arrive_time)

-- `Math.max(0, (Date.parse(arrivalTime) - Date.parse(start)) / 1000)`, where there is a start. The
-- numbers of the model are integers, so that a fraction of a second is dropped here.
unfoldable pub elapsed : Host → Text → Option Text → Number
unfolding ◌-ₙ◌
elapsed host arrival none = number 0
elapsed host arrival (some start) =
    max_zero (floor_quotient (host.date_parse arrival -ₙ host.date_parse start) 1000)

-- A number that `||` passes over.
abbrev pub is_falsy : Number → Bool
is_falsy n = is_nan n || number_eqb n (number 0)

unfoldable pub elapsed_from : Host → Text → Attempt (Option Text) → Attempt Number
unfolding elapsed
elapsed_from host arrival (raised m) = raised m
elapsed_from host arrival (returned start) = returned (elapsed host arrival (present_text start))

-- The duration that the answer states, or the time from the start to the arrival, which is only
-- computed in its place.
unfoldable pub spent : Host → Engine → OtpItinerary → Text → Attempt Number
unfolding elapsed_from itinerary_start duration_or
spent host engine it arrival =
    let stated = duration_or it.duration (number 0) in
    if is_falsy stated
    then elapsed_from host arrival (itinerary_start host engine it)
    else returned stated

pub data MapResult : Type 0 where
  mapped : Draft → MapResult
  rejected : OtpRejectReason → MapResult
  map_raised : Text → MapResult

-- The draft made of the legs, with its time of arrival and its duration.
unfoldable pub draft_of : MapContext → ℕ → OtpItinerary → List Leg → Text → Number → Draft
unfolding ◌-ₙ◌ ◌+ₙ◌ walking_of riding_of duration_or itinerary_id transit_legs_of
draft_of ctx index it legs arrival seconds =
    let rides = transit_legs_of legs in
    let duration = max_zero seconds in
    record {
      itinerary_id = itinerary_id ctx index;
      duration_seconds = duration;
      arrival_time = arrival;
      walking_seconds = walking_of legs;
      waiting_seconds = max_zero (duration -ₙ walking_of legs -ₙ riding_of rides);
      transfer_count = max_zero (duration_or it.number_of_transfers (number (length rides - 1)));
      legs = legs;
      realtime_confidence = unrated;
      alerts = none;
      candidate_family = some (or_else ctx.candidate_family baseline);
    }

unfoldable pub with_duration :
    MapContext → ℕ → OtpItinerary → List Leg → Text → Attempt Number → MapResult
unfolding draft_of
with_duration ctx index it legs arrival (raised m) = map_raised m
with_duration ctx index it legs arrival (returned seconds) =
    mapped (draft_of ctx index it legs arrival seconds)

unfoldable pub with_arrival :
    Host → Engine → MapContext → ℕ → OtpItinerary → List Leg → Option Text → MapResult
unfolding with_duration spent
with_arrival host engine ctx index it legs none = rejected missing_times
with_arrival host engine ctx index it legs (some arrival) =
    with_duration ctx index it legs arrival (spent host engine it arrival)

-- `itineraryEnd(it) ?? ...`, and what follows it.
unfoldable pub with_end :
    Host → Engine → MapContext → ℕ → OtpItinerary → List Leg → Attempt (Option Text) → MapResult
unfolding with_arrival last_arrival transit_legs_of
with_end host engine ctx index it legs (raised m) = map_raised m
with_end host engine ctx index it legs (returned finish) =
    with_arrival host engine ctx index it legs
      (present_text (or_try finish (last_arrival (transit_legs_of legs))))

-- What follows the loop over the legs.
unfoldable pub map_rest : Host → Engine → MapContext → ℕ → OtpItinerary → LegsResult → MapResult
unfolding legs_chronological with_end itinerary_end
map_rest host engine ctx index it (legs_rejected r) = rejected r
map_rest host engine ctx index it (legs_raised m) = map_raised m
map_rest host engine ctx index it (legs_mapped legs) =
    if is_empty legs
    then rejected empty_legs
    else if not (legs_chronological host legs none)
    then rejected non_chronological
    else with_end host engine ctx index it legs (itinerary_end host engine it)

abbrev cons_present : OtpLeg → Option (List OtpLeg) → Option (List OtpLeg)
cons_present leg none = none
cons_present leg (some legs) = some (leg ∷ legs)

-- The legs, if none of them is null.
unfoldable pub present_legs : List (Option OtpLeg) → Option (List OtpLeg)
present_legs [] = some []
present_legs (none ∷ legs) = none
present_legs (some leg ∷ legs) = cons_present leg (present_legs legs)

-- `mapOneItinerary`, from the legs that are there; the loop for the trips has read each of them.
unfoldable pub map_present_legs :
    Host → Engine → MapContext → ℕ → OtpItinerary → Option (List OtpLeg) → MapResult
unfolding map_legs map_rest source_engine_ids
map_present_legs host engine ctx index it none = map_raised (engine.null_error (text "trip"))
map_present_legs host engine ctx index it (some legs) =
    map_rest host engine ctx index it
      (map_legs host engine ctx index (source_engine_ids engine ctx index legs) 0 legs)

-- `mapOneItinerary`, from the legs of the itinerary.
unfoldable pub map_raw_legs :
    Host → Engine → MapContext → ℕ → OtpItinerary → Option (List (Option OtpLeg)) → MapResult
unfolding map_present_legs present_legs
map_raw_legs host engine ctx index it none = rejected empty_legs
map_raw_legs host engine ctx index it (some []) = rejected empty_legs
map_raw_legs host engine ctx index it (some (leg ∷ legs)) =
    map_present_legs host engine ctx index it (present_legs (leg ∷ legs))

unfoldable pub map_one_itinerary : Host → Engine → Option OtpItinerary → ℕ → MapContext → MapResult
unfolding map_raw_legs
map_one_itinerary host engine none index ctx = map_raised (engine.null_error (text "legs"))
map_one_itinerary host engine (some it) index ctx = map_raw_legs host engine ctx index it it.legs

pub record RejectionCounts : Type 0 where
  pub empty_legs_count : ℕ
  pub non_chronological_count : ℕ
  pub zero_duration_count : ℕ
  pub unmappable_count : ℕ
  pub missing_times_count : ℕ

abbrev pub no_rejections : RejectionCounts
no_rejections = record {
  empty_legs_count = 0;
  non_chronological_count = 0;
  zero_duration_count = 0;
  unmappable_count = 0;
  missing_times_count = 0;
}

-- The sum of the counts.
abbrev pub total : RejectionCounts → ℕ
total n =
    n.empty_legs_count + n.non_chronological_count + n.zero_duration_count + n.unmappable_count
    + n.missing_times_count

unfoldable pub bump : RejectionCounts → OtpRejectReason → RejectionCounts
bump n empty_legs = record n { empty_legs_count = suc n.empty_legs_count }
bump n non_chronological = record n { non_chronological_count = suc n.non_chronological_count }
bump n zero_duration_transit = record n { zero_duration_count = suc n.zero_duration_count }
bump n unmappable_route = record n { unmappable_count = suc n.unmappable_count }
bump n missing_times = record n { missing_times_count = suc n.missing_times_count }

pub record MapItinerariesResult : Type 0 where
  pub drafts : List Draft
  pub rejection_counts : RejectionCounts

-- One round of the loop over the itineraries.
unfoldable pub map_step : MapResult → MapItinerariesResult → Attempt MapItinerariesResult
unfolding bump
map_step (map_raised m) out = raised m
map_step (rejected r) out = returned (record out { rejection_counts = bump out.rejection_counts r })
map_step (mapped d) out = returned (record out { drafts = out.drafts ++ (d ∷ []) })

unfoldable pub map_from :
    Host
    → Engine
    → MapContext
    → ℕ
    → List (Option OtpItinerary)
    → MapItinerariesResult
    → Attempt MapItinerariesResult
unfolding map_one_itinerary map_step
map_from host engine ctx i [] out = returned out
map_from host engine ctx i (it ∷ its) out =
    elim (map_step (map_one_itinerary host engine it i ctx) out) [
      | raised m ↦ raised m
      | returned next ↦ map_from host engine ctx (suc i) its next
    ]

unfoldable pub map_otp_itineraries :
    Host → Engine → List (Option OtpItinerary) → MapContext → Attempt MapItinerariesResult
unfolding map_from
map_otp_itineraries host engine its ctx =
    map_from host engine ctx 0 its (record { drafts = []; rejection_counts = no_rejections })
