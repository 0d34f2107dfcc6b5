-- ===== src/Routing/Otp/Readable.antt =====
-- The answers of OpenTripPlanner on which services/routing/src/otp-provider/map.ts throws no error: no leg
-- and no itinerary is null, and each instant is in the range of Date, or is none at all.
use better_mta.Prelude.{Bool, true, false, ◌&&◌, Option, none, some, List, all}
use better_mta.Prelude.Number.{Number, finite}
use better_mta.Routing.Types.{Host}
use better_mta.Routing.Otp.Types.{Engine, OtpInstant, OtpTime, at, leg_time, OtpLeg, OtpItinerary}
use better_mta.Routing.Otp.Times.{in_range, epoch_ms}

abbrev pub number_in_range : Number → Bool
number_in_range (finite ms) = in_range ms
number_in_range n = true

module _ (host : Host) (engine : Engine) where
  abbrev pub is_datable : Option OtpInstant → Bool
  is_datable none = true
  is_datable (some i) = number_in_range (epoch_ms host engine i)

  abbrev pub is_datable_time : Option OtpTime → Bool
  is_datable_time none = true
  is_datable_time (some (at i)) = is_datable (some i)
  is_datable_time (some (leg_time scheduled estimated)) =
      is_datable estimated && is_datable scheduled

  unfoldable pub is_readable_leg : Option OtpLeg → Bool
  is_readable_leg none = false
  is_readable_leg (some leg) =
      (is_datable_time leg.start_time && is_datable_time leg.start)
      && (is_datable_time leg.end_time && is_datable_time leg.finish)

  unfoldable pub are_readable_legs : Option (List (Option OtpLeg)) → Bool
  unfolding is_readable_leg
  are_readable_legs none = true
  are_readable_legs (some legs) = all is_readable_leg legs

  unfoldable pub is_readable : Option OtpItinerary → Bool
  unfolding are_readable_legs
  is_readable none = false
  is_readable (some it) =
      (is_datable it.start_time && is_datable it.start)
      && ((is_datable it.end_time && is_datable it.finish) && are_readable_legs it.legs)

  unfoldable pub are_readable : List (Option OtpItinerary) → Bool
  unfolding is_readable
  are_readable its = all is_readable its
