-- ===== src/Routing/Satisfaction/Tests.antt =====
-- The selection and the satisfaction of an itinerary, on small examples.
use better_mta.Prelude.{◌≡◌, ◌↔◌, ◌<◌, refl, List, [], ◌∷◌, length}
use better_mta.Prelude.Text.{Text, text, ◌===◌, trim}
use better_mta.Routing.Types.{
  ok, throw, Leg, SatisfactionResult, too_many_selected_lines, max_selected_lines,
}
use better_mta.Routing.Samples.{lines, selected, ride}
use better_mta.Routing.Satisfaction.{
  normalize_selected_line_ids, compute_satisfaction, satisfaction_of, uses_line, assess,
}
use better_mta.Routing.Satisfaction.Refusal.{AreDifferentIds, normalize_selected_line_ids-throw_iff}
use better_mta.Routing.Satisfaction.Selection.{
  IsSelectionOf, normalize_selected_line_ids-IsSelectionOf,
}
use better_mta.Routing.Satisfaction.Laws.{IsSatisfactionOf, compute_satisfaction-IsSatisfactionOf}

selection_test : normalize_selected_line_ids lines ≡ ok selected
unfolding normalize_selected_line_ids ◌===◌ trim
selection_test = refl

normalize_selected_line_ids-IsSelectionOf_example : IsSelectionOf lines selected
normalize_selected_line_ids-IsSelectionOf_example =
    normalize_selected_line_ids-IsSelectionOf lines selected selection_test

abbrev six_lines : List Text
six_lines = text "1" ∷ text "2" ∷ text "3" ∷ text "4" ∷ text "5" ∷ text "6" ∷ []

normalize_selected_line_ids-throw_iff_example :
    (normalize_selected_line_ids six_lines ≡ throw (too_many_selected_lines 6)) ↔ (
      (out : List Text) × AreDifferentIds six_lines out
      × (max_selected_lines < length out)
      × (too_many_selected_lines 6 ≡ too_many_selected_lines (length out)))
normalize_selected_line_ids-throw_iff_example =
    normalize_selected_line_ids-throw_iff six_lines (too_many_selected_lines 6)

-- Line 7 is used and line G is not.
abbrev one_ride : List Leg
one_ride = ride (text "7") (text "300") (text "600") ∷ []

abbrev half : SatisfactionResult
half = satisfaction_of selected one_ride

satisfaction_test : (compute_satisfaction lines one_ride ≡ ok half) × (half.satisfaction_count ≡ 1)
unfolding compute_satisfaction normalize_selected_line_ids satisfaction_of assess uses_line ◌===◌
    trim
satisfaction_test = (refl, refl)

compute_satisfaction-IsSatisfactionOf_example :
    (normalize_selected_line_ids lines ≡ ok half.requested_line_ids)
    × IsSatisfactionOf one_ride half
compute_satisfaction-IsSatisfactionOf_example =
    compute_satisfaction-IsSatisfactionOf lines one_ride half satisfaction_test.0
