-- ===== src/Routing/Otp/Times.antt =====
-- services/routing/src/otp-provider/map.ts: instants and modes.
use better_mta.Prelude.{
  ℕ, ◌+◌, ◌-◌, ◌*◌, ◌^◌, Bool, false, not, ◌&&◌, ◌||◌, Option, none, some, [], ◌∷◌, leb, ltb, all,
  or_try, is_empty, if◌then◌else◌,
}
use better_mta.Prelude.Int.{ℤ, pos, negsuc}
use better_mta.Prelude.Text.{Text, text, ◌===◌, trim}
use better_mta.Prelude.Number.{Number, finite, nan, inf}
use better_mta.Routing.Types.{Host}
use better_mta.Routing.Otp.Types.{
  Engine, Attempt, returned, raised, OtpInstant, OtpTime, OtpLeg, OtpItinerary, millis, written, at,
  leg_time,
}

-- A string that is there and not empty.
abbrev pub present_text : Option Text → Option Text
present_text none = none
present_text (some []) = none
present_text (some (c ∷ s)) = some (c ∷ s)

abbrev pub is_digit : ℕ → Bool
is_digit c = leb b'0' c && leb c b'9'

-- `Number(s)` of a string of digits
abbrev digits_value : ℕ → Text → ℕ
digits_value n [] = n
digits_value n (c ∷ s) = digits_value (10 * n + (c - b'0')) s

-- The least integer that `Number(s)` rounds to infinity.
abbrev pub overflow_limit : ℕ
overflow_limit = 2 ^ 1024 - 2 ^ 970

-- `Number(s)` of a string of digits; what is rounded lies far out of the range of Date.
unfoldable pub number_of_digits : Text → Number
number_of_digits s =
    let n = digits_value 0 s in if leb overflow_limit n then inf else finite (pos n)

-- The instants of Date, 8.64e15 milliseconds around 1970.
unfoldable pub in_range : ℤ → Bool
in_range (pos n) = leb n 8640000000000000
in_range (negsuc n) = ltb n 8640000000000000

-- The second time, where the first one is not there.
abbrev pub or_scheduled : Option Text → Attempt (Option Text) → Attempt (Option Text)
or_scheduled none scheduled = scheduled
or_scheduled (some t) scheduled = returned (some t)

module _ (host : Host) (engine : Engine) where
  -- `new Date(ms).toISOString()`, if that is a finite number
  abbrev pub iso_of : Number → Attempt (Option Text)
  iso_of (finite ms) =
      if in_range ms then returned (some (engine.to_iso ms)) else raised engine.range_error
  iso_of n = returned none

  -- The milliseconds of an instant, not finite if it is none.
  unfoldable pub epoch_ms : OtpInstant → Number
  epoch_ms (millis ms) = ms
  epoch_ms (written s) =
      let trimmed = trim s in
      if is_empty trimmed
      then nan
      else if all is_digit trimmed
      then number_of_digits trimmed
      else host.date_parse trimmed

  unfoldable pub instant_to_iso : OtpInstant → Attempt (Option Text)
  instant_to_iso i = iso_of (epoch_ms i)

  unfoldable pub optional_to_iso : Option OtpInstant → Attempt (Option Text)
  unfolding instant_to_iso
  optional_to_iso none = returned none
  optional_to_iso (some i) = instant_to_iso i

  -- The time of a leg: the estimated one, if it is there and is an instant, and else the scheduled.
  unfoldable pub estimated_or :
      Attempt (Option Text) → Attempt (Option Text) → Attempt (Option Text)
  estimated_or (raised m) scheduled = raised m
  estimated_or (returned t) scheduled = or_scheduled (present_text t) scheduled

  unfoldable pub otp_time_to_iso_utc : Option OtpTime → Attempt (Option Text)
  unfolding instant_to_iso optional_to_iso estimated_or
  otp_time_to_iso_utc none = returned none
  otp_time_to_iso_utc (some (at i)) = instant_to_iso i
  otp_time_to_iso_utc (some (leg_time scheduled estimated)) =
      estimated_or (optional_to_iso estimated) (optional_to_iso scheduled)

  unfoldable pub itinerary_start : OtpItinerary → Attempt (Option Text)
  unfolding optional_to_iso
  itinerary_start it = optional_to_iso (or_try it.start_time it.start)

  unfoldable pub itinerary_end : OtpItinerary → Attempt (Option Text)
  unfolding optional_to_iso
  itinerary_end it = optional_to_iso (or_try it.end_time it.finish)

  unfoldable pub leg_start : OtpLeg → Attempt (Option Text)
  unfolding otp_time_to_iso_utc
  leg_start leg = otp_time_to_iso_utc (or_try leg.start_time leg.start)

  unfoldable pub leg_end : OtpLeg → Attempt (Option Text)
  unfolding otp_time_to_iso_utc
  leg_end leg = otp_time_to_iso_utc (or_try leg.end_time leg.finish)

  unfoldable pub is_walk_mode : Option Text → Bool
  unfolding ◌===◌
  is_walk_mode none = false
  is_walk_mode (some mode) =
      let m = engine.upper_case mode in
      not (is_empty mode) && ((m === text "WALK") || (m === text "FOOT"))

  unfoldable pub is_transit_mode : Option Text → Bool
  unfolding ◌===◌
  is_transit_mode none = false
  is_transit_mode (some mode) =
      let m = engine.upper_case mode in
      not (is_empty mode)
      && (not (m === text "WALK")
          && (not (m === text "FOOT") && (not (m === text "BICYCLE") && not (m === text "CAR"))))
