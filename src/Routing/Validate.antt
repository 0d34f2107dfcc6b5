-- ===== src/Routing/Validate.antt =====
-- services/routing/src/validate.ts
pub mod Laws
mod Tests
use better_mta.Prelude.{
  Bool, is_empty, true, false, not, ◌&&◌, ◌||◌, Option, none, some, List, [], ◌∷◌, if◌then◌else◌,
}
use better_mta.Prelude.Text.{Text, text}
use better_mta.Prelude.Number.{Number, number, is_finite, number_ltb, number_leb}
use better_mta.Routing.Types.{Host, Leg, transit, walk, Draft, Tally}
use better_mta.Routing.Satisfaction.{add_to}

pub data DraftRejectReason : Type 0 where
  empty_legs negative_duration_seconds negative_walking_seconds : DraftRejectReason
  negative_waiting_seconds negative_transfer_count : DraftRejectReason
  transit_depart_after_arrive legs_non_chronological : DraftRejectReason

-- `ok`, or the reason of the rejection
pub data DraftValidationResult : Type 0 where
  valid : DraftValidationResult
  rejected : DraftRejectReason → DraftValidationResult

unfoldable pub is_non_negative : Number → Bool
is_non_negative n = is_finite n && number_leb (number 0) n

-- `previousTransitArriveMs !== null && departMs < previousTransitArriveMs`
unfoldable pub overlaps : Option Number → Number → Bool
overlaps none depart = false
overlaps (some previous) depart = number_ltb depart previous

-- The loop over the legs, with the arrival of the transit leg before.
unfoldable pub check_legs : Host → List Leg → Option Number → DraftValidationResult
check_legs host [] previous = valid
check_legs host (walk w ∷ legs) previous = check_legs host legs previous
check_legs host (transit t ∷ legs) previous =
    let depart = host.date_parse t.depart_time in
    let arrive = host.date_parse t.arrive_time in
    let rest = check_legs host legs (some arrive) in
    if not (is_finite depart) || (not (is_finite arrive) || number_ltb arrive depart)
    then rejected transit_depart_after_arrive
    else if overlaps previous depart
    then rejected legs_non_chronological
    else rest

-- The checks in front of the loop.
unfoldable pub validate_candidate_draft : Host → Draft → DraftValidationResult
validate_candidate_draft host draft =
    if is_empty draft.legs
    then rejected empty_legs
    else if not (is_non_negative draft.duration_seconds)
    then rejected negative_duration_seconds
    else if not (is_non_negative draft.walking_seconds)
    then rejected negative_walking_seconds
    else if not (is_non_negative draft.waiting_seconds)
    then rejected negative_waiting_seconds
    else if not (is_non_negative draft.transfer_count)
    then rejected negative_transfer_count
    else check_legs host draft.legs none

abbrev pub reason_key : DraftRejectReason → Text
reason_key empty_legs = text "empty_legs"
reason_key negative_duration_seconds = text "negative_durationSeconds"
reason_key negative_walking_seconds = text "negative_walkingSeconds"
reason_key negative_waiting_seconds = text "negative_waitingSeconds"
reason_key negative_transfer_count = text "negative_transferCount"
reason_key transit_depart_after_arrive = text "transit_depart_after_arrive"
reason_key legs_non_chronological = text "legs_non_chronological"

unfoldable pub count_rejection : Tally → DraftRejectReason → Tally
unfolding add_to
count_rejection counts reason = add_to (reason_key reason) (number 1) counts
