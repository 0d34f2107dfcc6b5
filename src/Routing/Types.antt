-- ===== src/Routing/Types.antt =====
-- services/routing/src/contract-types.ts, types.ts and the error classes of the package: the data
-- that the routing functions exchange. `undefined` and `null` are `none`.
use better_mta.Prelude.{◌≡◌, refl, ◌⊎◌, inl, inr, ℕ, Bool, Option, List}
use better_mta.Prelude.Int.{ℤ}
use better_mta.Prelude.Text.{Text}
use better_mta.Prelude.Number.{Number}

-- What the code takes from the engine and from node:crypto: `Date.parse`, in milliseconds or NaN,
-- and the hexadecimal SHA-256 digest of a string's UTF-8 bytes.
pub record Host : Type 0 where
  pub date_parse : Text → Number
  pub sha256_hex : Text → Text

pub data DataMode : Type 0 where
  live schedule_only stale synthetic unavailable : DataMode

pub data RealtimeConfidence : Type 0 where
  high medium low unrated : RealtimeConfidence

pub data Feasibility : Type 0 where
  complete partial infeasible not_applicable : Feasibility

pub data CandidateFamily : Type 0 where
  baseline constrained preference_biased targeted_combination : CandidateFamily

pub data Timing : Type 0 where
  depart_now : Timing
  depart_at arrive_by : Text → Timing

pub record SatisfactionResult : Type 0 where
  pub requested_line_ids : List Text
  pub satisfied_line_ids : List Text
  pub omitted_line_ids : List Text
  pub satisfaction_count : ℕ
  pub requested_count : ℕ
  pub is_complete : Bool
  pub feasibility : Feasibility

pub data FactType : Type 0 where
  line_used line_omitted transfer walk wait realtime baseline_delta alert : FactType

pub record ExplanationFact : Type 0 where
  pub fact_type : FactType
  pub message : Text
  pub line_id : Option Text
  pub seconds : Option Number

pub record Explanation : Type 0 where
  pub summary : Text
  pub facts : List ExplanationFact
  pub baseline_delta_seconds : Option Number

pub data ReliabilityLevel : Type 0 where
  high medium low unknown : ReliabilityLevel

pub record ReliabilityAssessment : Type 0 where
  pub level : ReliabilityLevel
  pub basis : Text
  pub display_eligible : Bool

pub data Severity : Type 0 where
  info warning severe unknown : Severity

pub record ServiceAlert : Type 0 where
  pub alert_id : Text
  pub header : Text
  pub description : Option Text
  pub severity : Option Severity
  pub affected_line_ids : Option (List Text)

pub record StopRef : Type 0 where
  pub name : Text
  pub station_id : Option Text
  pub stop_id : Option Text

pub record TransitLeg : Type 0 where
  pub leg_id : Text
  pub line_id : Text
  pub trip_id : Option Text
  pub headsign : Option Text
  pub origin : StopRef
  pub destination : StopRef
  pub depart_time : Text
  pub arrive_time : Text
  pub duration_seconds : Option Number
  pub source_engine_ids : Option (List (Text × Text))

pub record WalkingLeg : Type 0 where
  pub leg_id : Text
  pub duration_seconds : Number
  pub distance_meters : Option Number
  pub out_of_system : Bool
  pub instruction : Option Text

pub data Leg : Type 0 where
  transit : TransitLeg → Leg
  walk : WalkingLeg → Leg

-- `Record<string, number>`
abbrev pub Tally : Type 0
Tally = List (Text × Number)

-- An itinerary, with the library's own `perLineRideSeconds`.
pub record RankedItinerary : Type 0 where
  pub itinerary_id : Text
  pub fingerprint : Text
  pub duration_seconds : Number
  pub arrival_time : Text
  pub walking_seconds : Number
  pub waiting_seconds : Number
  pub transfer_count : Number
  pub line_sequence : List Text
  pub legs : List Leg
  pub satisfaction : SatisfactionResult
  pub realtime_confidence : RealtimeConfidence
  pub alerts : List ServiceAlert
  pub explanation : Explanation
  pub reliability : Option ReliabilityAssessment
  pub candidate_family : Option CandidateFamily
  pub per_line_ride_seconds : Tally

-- `RawCandidateDraft | CandidateItinerary`: the fields of either that the library reads.
pub record Draft : Type 0 where
  pub itinerary_id : Text
  pub duration_seconds : Number
  pub arrival_time : Text
  pub walking_seconds : Number
  pub waiting_seconds : Number
  pub transfer_count : Number
  pub legs : List Leg
  pub realtime_confidence : RealtimeConfidence
  pub alerts : Option (List ServiceAlert)
  pub candidate_family : Option CandidateFamily

pub record RoutingSnapshotHandle : Type 0 where
  pub static_dataset_version : Text
  pub realtime_snapshot_id : Option Text
  pub data_mode : DataMode
  pub realtime_age_seconds : Option Number
  pub static_activated_at : Option Text

-- Coordinates are in microdegrees; the search only hands them on.
pub record ResolvedPlace : Type 0 where
  pub label : Text
  pub lat : ℤ
  pub lon : ℤ
  pub place_id : Option Text
  pub station_id : Option Text

pub record CandidateSearchRequest : Type 0 where
  pub origin : ResolvedPlace
  pub destination : ResolvedPlace
  pub timing : Timing
  pub selected_line_ids : List Text
  pub snapshot : RoutingSnapshotHandle
  pub candidate_budget : Option ℕ

abbrev pub max_selected_lines : ℕ
max_selected_lines = 5

abbrev pub max_returned_itineraries : ℕ
max_returned_itineraries = 3

-- What the library throws: too many selected lines, with their number, or an error of the provider
-- that it does not turn into an outcome.
pub data SearchError : Type 0 where
  too_many_selected_lines : ℕ → SearchError
  provider_failed : Text → SearchError

pub data Result {ℓ} (A : Type ℓ) : Type ℓ where
  ok : A → Result A
  throw : SearchError → Result A

infixl 5 ◌>>=◌
abbrev pub ◌>>=◌ {ℓ κ} : {A : Type ℓ} {B : Type κ} → Result A → (A → Result B) → Result B
ok a >>= f = f a
throw e >>= f = throw e

pub Result-cases {ℓ} :
    {A : Type ℓ} (r : Result A) → ((a : A) × (r ≡ ok a)) ⊎ ((e : SearchError) × (r ≡ throw e))
Result-cases (ok a) = inl (a, refl)
Result-cases (throw e) = inr (e, refl)

pub ok-injective {ℓ} : {A : Type ℓ} {a b : A} → ok a ≡ ok b → a ≡ b
ok-injective e = cc
