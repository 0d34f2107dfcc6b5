-- ===== src/Routing/Otp/Types.antt =====
-- services/routing/src/otp-provider/types.ts: what OpenTripPlanner answers. JSON numbers are
-- integers, finite unless they are instants; fractions do not occur. The legs and the itineraries of
-- a list may be null.
use better_mta.Prelude.{Option, List}
use better_mta.Prelude.Int.{ℤ}
use better_mta.Prelude.Number.{Number}
use better_mta.Prelude.Text.{Text}
use better_mta.Routing.Types.{CandidateFamily}

-- What the code takes from the engine beside Host: `new Date(ms).toISOString()`, for an instant
-- in the range of Date, `toUpperCase`, `JSON.stringify` of a list of strings, and the messages of
-- the RangeError of an instant out of that range and of the TypeError of reading a member of null.
pub record Engine : Type 0 where
  pub to_iso : ℤ → Text
  pub range_error : Text
  pub null_error : Text → Text
  pub upper_case : Text → Text
  pub json_strings : List Text → Text

-- What a function returns, or the message of the error that it throws and nothing here catches.
pub data Attempt {ℓ} (A : Type ℓ) : Type ℓ where
  returned : A → Attempt A
  raised : Text → Attempt A

-- A number of milliseconds, infinite if it was too large for a number, or a string.
pub data OtpInstant : Type 0 where
  millis : Number → OtpInstant
  written : Text → OtpInstant

pub data OtpTime : Type 0 where
  at : OtpInstant → OtpTime
  leg_time : (scheduled_time estimated : Option OtpInstant) → OtpTime

pub record OtpPlace : Type 0 where
  pub place_name : Option Text
  pub stop_name : Option Text
  pub stop_gtfs_id : Option Text

pub record OtpLeg : Type 0 where
  pub mode : Option Text
  pub start_time : Option OtpTime
  pub end_time : Option OtpTime
  pub start : Option OtpTime
  pub finish : Option OtpTime
  pub duration : Option ℤ
  pub origin : Option OtpPlace
  pub destination : Option OtpPlace
  pub route_gtfs_id : Option Text
  pub trip_gtfs_id : Option Text

pub record OtpItinerary : Type 0 where
  pub duration : Option ℤ
  pub start_time : Option OtpInstant
  pub end_time : Option OtpInstant
  pub start : Option OtpInstant
  pub finish : Option OtpInstant
  pub number_of_transfers : Option ℤ
  pub legs : Option (List (Option OtpLeg))

pub data OtpRejectReason : Type 0 where
  empty_legs non_chronological zero_duration_transit unmappable_route missing_times :
      OtpRejectReason

pub record MapContext : Type 0 where
  pub query_id : Text
  pub graph_version : Text
  pub route_id_to_line_id : Text → Option Text
  pub candidate_family : Option CandidateFamily
