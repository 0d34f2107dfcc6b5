-- ===== src/Routing/Validate/Tests.antt =====
-- The validity gate, on small examples.
use better_mta.Prelude.{◌≡◌, ◌↔◌, refl}
use better_mta.Routing.Samples.{host, slow, broken}
use better_mta.Routing.Validate.{
  valid, rejected, legs_non_chronological, validate_candidate_draft, is_non_negative, check_legs,
  overlaps,
}
use better_mta.Routing.Validate.Laws.{IsValidDraft, validate_candidate_draft_iff}

gate_tests :
    (validate_candidate_draft host slow ≡ valid)
    × (validate_candidate_draft host broken ≡ rejected legs_non_chronological)
unfolding validate_candidate_draft is_non_negative check_legs overlaps
gate_tests = (refl, refl)

validate_candidate_draft_iff_example :
    (validate_candidate_draft host slow ≡ valid) ↔ IsValidDraft host slow
validate_candidate_draft_iff_example = validate_candidate_draft_iff host slow
