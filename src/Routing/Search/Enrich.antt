-- ===== src/Routing/Search/Enrich.antt =====
-- services/routing/src/search.ts: what is done to one candidate, and the removal of duplicates.
use better_mta.Prelude.{
  Bool, true, false, Option, none, some, List, [], ◌∷◌, if◌then◌else◌, or_else, length,
}
use better_mta.Prelude.Text.{Text}
use better_mta.Prelude.Number.{Number, number, ◌-ₙ◌}
use better_mta.Routing.Types.{
  Host, Draft, DataMode, schedule_only, stale, RealtimeConfidence, unrated, CandidateFamily,
  baseline, SatisfactionResult, RankedItinerary, Result, ok, ◌>>=◌,
}
use better_mta.Routing.Satisfaction.{
  contains, compute_satisfaction, line_sequence_from_legs, compute_per_line_ride_seconds,
}
use better_mta.Routing.Fingerprint.{fingerprint_itinerary}
use better_mta.Routing.Explanation.{build_explanation}

unfoldable pub apply_data_mode_confidence : RealtimeConfidence → DataMode → RealtimeConfidence
apply_data_mode_confidence confidence schedule_only = unrated
apply_data_mode_confidence RealtimeConfidence.high stale = RealtimeConfidence.low
apply_data_mode_confidence RealtimeConfidence.medium stale = RealtimeConfidence.low
apply_data_mode_confidence RealtimeConfidence.low stale = RealtimeConfidence.low
apply_data_mode_confidence unrated stale = unrated
apply_data_mode_confidence confidence _ = confidence

-- `family === "baseline"`
abbrev pub is_baseline_family : Option CandidateFamily → Bool
is_baseline_family (some baseline) = true
is_baseline_family _ = false

-- The arrival less that of the best baseline candidate, in milliseconds; a missing or empty
-- baseline gives `null`.
unfoldable pub baseline_delta : Host → Text → Option Text → Option Number
baseline_delta host arrival none = none
baseline_delta host arrival (some []) = none
baseline_delta host arrival (some (c ∷ best)) =
    some (host.date_parse arrival -ₙ host.date_parse (c ∷ best))

-- The itinerary made of a draft, with the satisfaction that it is given.
unfoldable pub present :
    Host → Draft → SatisfactionResult → Option Text → DataMode → RankedItinerary
present host draft satisfaction best mode =
    let confidence = apply_data_mode_confidence draft.realtime_confidence mode in
    record {
      itinerary_id = draft.itinerary_id;
      fingerprint = fingerprint_itinerary host (record {
        legs = draft.legs;
        arrival_time = draft.arrival_time;
        transfer_count = draft.transfer_count;
        walking_seconds = draft.walking_seconds;
        duration_seconds = draft.duration_seconds;
      });
      duration_seconds = draft.duration_seconds;
      arrival_time = draft.arrival_time;
      walking_seconds = draft.walking_seconds;
      waiting_seconds = draft.waiting_seconds;
      transfer_count = draft.transfer_count;
      line_sequence = line_sequence_from_legs draft.legs;
      legs = draft.legs;
      satisfaction = satisfaction;
      realtime_confidence = confidence;
      alerts = or_else draft.alerts [];
      explanation = build_explanation (record {
        satisfaction = satisfaction;
        transfer_count = draft.transfer_count;
        walking_seconds = draft.walking_seconds;
        waiting_seconds = draft.waiting_seconds;
        realtime_confidence = confidence;
        baseline_delta_seconds =
            if is_baseline_family draft.candidate_family
            then none
            else baseline_delta host draft.arrival_time best;
        alert_count = some (number (length (or_else draft.alerts [])));
      });
      reliability = none;
      candidate_family = draft.candidate_family;
      per_line_ride_seconds = compute_per_line_ride_seconds host draft.legs;
    }

-- A draft of the baseline family is measured against no selected line.
unfoldable pub enrich_candidate :
    Host → Draft → List Text → Option Text → DataMode → Result RankedItinerary
enrich_candidate host draft selected best mode = do
  satisfaction ← compute_satisfaction selected draft.legs
  effective ←
      if is_baseline_family draft.candidate_family
      then compute_satisfaction [] draft.legs
      else ok satisfaction
  ok (present host draft effective best mode)

-- `items.map(f)`, for an `f` that may throw
unfoldable pub map_result {ℓ κ} :
    {A : Type ℓ} {B : Type κ} → (A → Result B) → List A → Result (List B)
map_result f [] = ok []
map_result f (x ∷ xs) = do y ← f x; ys ← map_result f xs; ok (y ∷ ys)

-- The loop of `dedupeByFingerprint`, with the fingerprints seen.
unfoldable pub dedupe_from : List Text → List RankedItinerary → List RankedItinerary
dedupe_from seen [] = []
dedupe_from seen (item ∷ items) =
    let rest =
      dedupe_from (if contains seen item.fingerprint then seen else item.fingerprint ∷ seen)
        items in
    if contains seen item.fingerprint then rest else item ∷ rest

unfoldable pub dedupe_by_fingerprint : List RankedItinerary → List RankedItinerary
dedupe_by_fingerprint items = dedupe_from [] items

-- The itinerary with another satisfaction, and the explanation that goes with it.
unfoldable pub restamp : RankedItinerary → SatisfactionResult → RankedItinerary
restamp itinerary satisfaction = record itinerary {
  satisfaction = satisfaction;
  explanation = build_explanation (record {
    satisfaction = satisfaction;
    transfer_count = itinerary.transfer_count;
    walking_seconds = itinerary.walking_seconds;
    waiting_seconds = itinerary.waiting_seconds;
    realtime_confidence = itinerary.realtime_confidence;
    baseline_delta_seconds = itinerary.explanation.baseline_delta_seconds;
    alert_count = some (number (length itinerary.alerts));
  });
}

unfoldable pub with_constrained_satisfaction : List Text → RankedItinerary → Result RankedItinerary
with_constrained_satisfaction selected itinerary = do
  satisfaction ← compute_satisfaction selected itinerary.legs
  ok (restamp itinerary satisfaction)
