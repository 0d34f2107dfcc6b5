-- ===== src/Routing/Explanation.antt =====
-- services/routing/src/explanation.ts
use better_mta.Prelude.{Option, none, some, List, [], ◌∷◌, ◌++◌, map, if◌then◌else◌, or_else}
use better_mta.Prelude.Text.{Text, text, join}
use better_mta.Prelude.Number.{
  Number, number, show, number_ltb, number_eqb, round_quotient, absolute,
}
use better_mta.Routing.Types.{
  SatisfactionResult, RealtimeConfidence, unrated, complete, partial, infeasible, not_applicable,
  Explanation, ExplanationFact, FactType, line_used, line_omitted, transfer, realtime,
  baseline_delta, alert,
}

pub record ExplanationInput : Type 0 where
  pub satisfaction : SatisfactionResult
  pub transfer_count : Number
  pub walking_seconds : Number
  pub waiting_seconds : Number
  pub realtime_confidence : RealtimeConfidence
  pub baseline_delta_seconds : Option Number
  pub alert_count : Option Number

abbrev pub fact : FactType → Text → ExplanationFact
fact kind message = record { fact_type = kind; message = message; line_id = none; seconds = none }

abbrev pub used_fact : Text → ExplanationFact
used_fact id = record (fact line_used (text "Uses the " ++ (id ++ text " train."))) {
  line_id = some id;
}

abbrev pub omitted_fact : Text → ExplanationFact
omitted_fact id =
    record (fact line_omitted (text "Could not include the " ++ (id ++ text " train."))) {
      line_id = some id;
    }

-- `n === 1 ? "" : "s"`
abbrev pub plural : Number → Text
plural n = if number_eqb n (number 1) then [] else text "s"

unfoldable pub transfer_facts : Number → List ExplanationFact
transfer_facts count =
    if number_ltb (number 0) count
    then fact transfer (
        if number_eqb count (number 1)
        then text "One transfer."
        else show count ++ text " transfers.")
      ∷ []
    else []

unfoldable pub walk_facts : Number → List ExplanationFact
walk_facts seconds =
    let minutes = round_quotient seconds 60 in
    if number_ltb (number 0) seconds
    then record (fact FactType.walk (
        text "Includes "
        ++ (show minutes ++ (text " minute" ++ (plural minutes ++ text " of walking."))))) {
          seconds = some seconds;
        }
      ∷ []
    else []

unfoldable pub wait_facts : Number → List ExplanationFact
wait_facts seconds =
    if number_ltb (number 0) seconds
    then record (fact FactType.wait (text "Includes waiting time.")) { seconds = some seconds } ∷ []
    else []

unfoldable pub realtime_facts : RealtimeConfidence → List ExplanationFact
realtime_facts unrated =
    fact realtime (text "Realtime feeds unavailable or unused; schedule used.") ∷ []
realtime_facts RealtimeConfidence.low =
    fact realtime (text "Realtime confidence is low for this itinerary.") ∷ []
realtime_facts RealtimeConfidence.medium = []
realtime_facts RealtimeConfidence.high = []

unfoldable pub delta_message : Number → Text
delta_message delta =
    if number_eqb delta (number 0)
    then text "Arrives at the same time as the baseline."
    else if number_ltb (number 0) delta
    then text "Arrives "
      ++ (show (round_quotient delta 60) ++ text " minutes later than the baseline.")
    else text "Arrives "
      ++ (show (round_quotient (absolute delta) 60) ++ text " minutes earlier than the baseline.")

unfoldable pub delta_facts : Option Number → List ExplanationFact
unfolding delta_message
delta_facts none = []
delta_facts (some delta) =
    record (fact baseline_delta (delta_message delta)) { seconds = some delta } ∷ []

unfoldable pub alert_facts : Option Number → List ExplanationFact
alert_facts count =
    let n = or_else count (number 0) in
    if number_ltb (number 0) n
    then fact alert
        (show n ++ (text " service alert" ++ (plural n ++ text " may affect this trip.")))
      ∷ []
    else []

-- `t || "none"`
abbrev pub or_none : Text → Text
or_none [] = text "none"
or_none (c ∷ t) = c ∷ t

unfoldable pub summary_from_satisfaction : SatisfactionResult → Number → Text
summary_from_satisfaction s transfers = elim s.feasibility [
  | not_applicable ↦ text "Baseline itinerary without selected-line constraints."
  | complete ↦
      let lines = join (text " and ") s.satisfied_line_ids in
      if number_ltb (number 0) transfers
      then text "Uses all selected lines ("
        ++ (lines
            ++ (text ") with "
                ++ (show transfers ++ (text " transfer" ++ (plural transfers ++ text ".")))))
      else text "Uses all selected lines (" ++ (lines ++ text ").")
  | partial ↦
      text "Partial match: uses "
      ++ (or_none (join (text ", ") s.satisfied_line_ids)
          ++ (text "; omits " ++ (join (text ", ") s.omitted_line_ids ++ text ".")))
  | infeasible ↦ text "No selected lines appear on this itinerary."
]

unfoldable pub build_explanation : ExplanationInput → Explanation
unfolding transfer_facts walk_facts wait_facts realtime_facts delta_facts alert_facts
    summary_from_satisfaction
build_explanation input = record {
  summary = summary_from_satisfaction input.satisfaction input.transfer_count;
  facts =
      map used_fact input.satisfaction.satisfied_line_ids
      ++ (map omitted_fact input.satisfaction.omitted_line_ids
          ++ (transfer_facts input.transfer_count
              ++ (walk_facts input.walking_seconds
                  ++ (wait_facts input.waiting_seconds
                      ++ (realtime_facts input.realtime_confidence
                          ++ (delta_facts input.baseline_delta_seconds
                              ++ alert_facts input.alert_count))))));
  baseline_delta_seconds = input.baseline_delta_seconds;
}
