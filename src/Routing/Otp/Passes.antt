-- ===== src/Routing/Otp/Passes.antt =====
-- services/routing/src/otp-provider/map.ts: the draft of an itinerary, at the gate of the search.
use better_mta.Prelude.{
  ◌≡◌, refl, ℕ, Bool, true, false, Option, none, some, List, [], ◌∷◌, All, all, arith, Bool-cases,
  Option-cases, inl, inr, is_empty,
}
use better_mta.Prelude.Int.{ℤ}
use better_mta.Prelude.Text.{Text}
use better_mta.Prelude.Number.{Number, number, finite, is_finite}
use better_mta.Routing.Types.{Host, Leg, transit, walk, Draft}
use better_mta.Routing.Satisfaction.{transit_legs_of}
use better_mta.Routing.Validate.{validate_candidate_draft, check_legs, valid, is_non_negative}
use better_mta.Routing.Otp.Types.{
  Engine, Attempt, returned, raised, OtpLeg, OtpItinerary, MapContext,
}
use better_mta.Routing.Otp.Times.{present_text, in_range, itinerary_start}
use better_mta.Routing.Otp.Legs.{duration_or, LegsResult, legs_mapped, legs_rejected, legs_raised}
use better_mta.Routing.Otp.Map.{
  legs_chronological, last_arrival, elapsed, is_falsy, elapsed_from, spent, MapResult, mapped,
  rejected, map_raised, draft_of, with_duration, with_arrival, with_end, map_rest, present_legs,
  map_present_legs, map_raw_legs, map_one_itinerary,
}
use better_mta.Routing.Otp.Readable.{is_readable_leg, are_readable_legs, is_readable}
use better_mta.Routing.Otp.Dates.{
  max_zero-is_non_negative, is_non_negative-is_finite, is_finite-sub, is_finite-max_zero,
  is_finite-floor_quotient, is_finite-duration_or, IsDate, HoldsDate, HoldsDate-present_text,
  HoldsDate-or_try, Dated, Dated-itinerary_start, Dated-itinerary_end,
}
use better_mta.Routing.Otp.Measured.{
  IsMeasured, LegsAre, map_legs-LegsAre, walking_of-is_non_negative, riding_of-is_finite,
}

some-injective : {x y : List OtpLeg} → some x ≡ some y → x ≡ y
some-injective h = cc

module _ (host : Host) where
  -- Both loops over the legs make the same checks.
  check_legs_of_chronological :
      (legs : List Leg) (previous : Option Number)
      → legs_chronological host legs previous ≡ true
      → check_legs host legs previous ≡ valid
  unfolding legs_chronological check_legs
  check_legs_of_chronological [] previous h = refl
  check_legs_of_chronological (walk w ∷ legs) previous h =
      check_legs_of_chronological legs previous h
  check_legs_of_chronological (transit t ∷ legs) previous h =
      ground (arith, check_legs_of_chronological legs (some (host.date_parse t.arrive_time)))

  HoldsDate-last_arrival :
      (legs : List Leg) (previous : Option Number)
      → legs_chronological host legs previous ≡ true
      → HoldsDate host (last_arrival (transit_legs_of legs))
  unfolding legs_chronological last_arrival transit_legs_of
  HoldsDate-last_arrival [] previous h = tt
  HoldsDate-last_arrival (walk w ∷ legs) previous h = HoldsDate-last_arrival legs previous h
  HoldsDate-last_arrival (transit t ∷ legs) previous h =
      HoldsDate-or_try host (last_arrival (transit_legs_of legs)) (some t.arrive_time)
        (HoldsDate-last_arrival legs (some (host.date_parse t.arrive_time)) (ground arith))
        (ground arith)

  is_finite-elapsed :
      (arrival : Text) (start : Option Text)
      → IsDate host arrival
      → HoldsDate host start
      → is_finite (elapsed host arrival start) ≡ true
  unfolding elapsed
  is_finite-elapsed arrival none h k = refl
  is_finite-elapsed arrival (some start) h k =
      is_finite-max_zero _ (is_finite-floor_quotient _ 1000 (is_finite-sub _ _ h k))

valid_of_checks :
    (host : Host) (d : Draft)
    → is_empty d.legs ≡ false
    → is_non_negative d.duration_seconds ≡ true
    → is_non_negative d.walking_seconds ≡ true
    → is_non_negative d.waiting_seconds ≡ true
    → is_non_negative d.transfer_count ≡ true
    → check_legs host d.legs none ≡ valid
    → validate_candidate_draft host d ≡ valid
unfolding validate_candidate_draft
valid_of_checks host d l s w v t c = rw (l, s, w, v, t) c

-- A result that, where it is a draft, passes the gate; `fine` excludes an error.
abbrev pub Passes : Host → Bool → MapResult → Type 0
Passes host fine (rejected r) = Unit
Passes host fine (mapped d) = validate_candidate_draft host d ≡ valid
Passes host fine (map_raised m) = fine ≡ false

-- A finite number, or an error, which `fine` excludes.
abbrev Timed : Bool → Attempt Number → Type 0
Timed fine (returned n) = is_finite n ≡ true
Timed fine (raised m) = fine ≡ false

module _ (host : Host) (engine : Engine)
    (parses : (n : ℤ) → in_range n ≡ true → host.date_parse (engine.to_iso n) ≡ finite n)
    (ctx : MapContext) where
  elapsed_from-Timed :
      (fine : Bool) (arrival : Text) (start : Attempt (Option Text))
      → IsDate host arrival
      → Dated host fine start
      → Timed fine (elapsed_from host arrival start)
  unfolding elapsed_from
  elapsed_from-Timed fine arrival (raised m) date h = h
  elapsed_from-Timed fine arrival (returned start) date h =
      is_finite-elapsed host arrival (present_text start) date (HoldsDate-present_text host start h)

  spent-Timed :
      (it : OtpItinerary) (arrival : Text)
      → IsDate host arrival
      → Timed (is_readable host engine (some it)) (spent host engine it arrival)
  unfolding spent
  spent-Timed it arrival date = elim (Bool-cases (is_falsy (duration_or it.duration (number 0)))) [
    | inl f ↦ rw f (
        elapsed_from-Timed _ arrival (itinerary_start host engine it) date
          (Dated-itinerary_start host engine parses it))
    | inr t ↦ rw t (is_finite-duration_or it.duration (number 0) refl)
  ]

  draft_of-valid :
      (index : ℕ) (it : OtpItinerary) (legs : List Leg) (arrival : Text) (seconds : Number)
      → is_empty legs ≡ false
      → legs_chronological host legs none ≡ true
      → All IsMeasured legs
      → is_finite seconds ≡ true
      → validate_candidate_draft host (draft_of ctx index it legs arrival seconds) ≡ valid
  unfolding draft_of validate_candidate_draft
  draft_of-valid index it legs arrival seconds some_legs chronological measured spent =
      let walking = walking_of-is_non_negative legs measured in
      let waiting =
        is_finite-sub _ _
          (is_finite-sub _ _ (is_finite-max_zero _ spent) (is_non_negative-is_finite _ walking))
          (riding_of-is_finite legs measured) in
      valid_of_checks host (draft_of ctx index it legs arrival seconds) some_legs
        (max_zero-is_non_negative _ spent) walking (max_zero-is_non_negative _ waiting)
        (max_zero-is_non_negative _ (is_finite-duration_or it.number_of_transfers _ refl))
        (check_legs_of_chronological host legs none chronological)

  with_duration-Passes :
      (fine : Bool) (index : ℕ) (it : OtpItinerary) (legs : List Leg) (arrival : Text)
      (seconds : Attempt Number)
      → is_empty legs ≡ false
      → legs_chronological host legs none ≡ true
      → All IsMeasured legs
      → Timed fine seconds
      → Passes host fine (with_duration ctx index it legs arrival seconds)
  unfolding with_duration
  with_duration-Passes fine index it legs arrival (raised m) l c m' h = h
  with_duration-Passes fine index it legs arrival (returned seconds) l c m h =
      draft_of-valid index it legs arrival seconds l c m h

  with_arrival-Passes :
      (index : ℕ) (it : OtpItinerary) (legs : List Leg) (arrival : Option Text)
      → is_empty legs ≡ false
      → legs_chronological host legs none ≡ true
      → All IsMeasured legs
      → HoldsDate host arrival
      → Passes host
          (is_readable host engine (some it))
          (with_arrival host engine ctx index it legs arrival)
  unfolding with_arrival
  with_arrival-Passes index it legs none l c m h = tt
  with_arrival-Passes index it legs (some arrival) l c m h =
      with_duration-Passes _ index it legs arrival _ l c m (spent-Timed it arrival h)

  with_end-Passes :
      (index : ℕ) (it : OtpItinerary) (legs : List Leg) (finish : Attempt (Option Text))
      → is_empty legs ≡ false
      → legs_chronological host legs none ≡ true
      → All IsMeasured legs
      → Dated host (is_readable host engine (some it)) finish
      → Passes host
          (is_readable host engine (some it))
          (with_end host engine ctx index it legs finish)
  unfolding with_end
  with_end-Passes index it legs (raised m) l c k h = h
  with_end-Passes index it legs (returned finish) l c k h =
      with_arrival-Passes index it legs _ l c k (
        HoldsDate-present_text host _
          (HoldsDate-or_try host finish _ h (HoldsDate-last_arrival host legs none c)))

  map_rest-Passes :
      (index : ℕ) (it : OtpItinerary) (r : LegsResult)
      → LegsAre (is_readable host engine (some it)) r
      → Passes host (is_readable host engine (some it)) (map_rest host engine ctx index it r)
  unfolding map_rest
  map_rest-Passes index it (legs_rejected r) h = tt
  map_rest-Passes index it (legs_raised m) h = h
  map_rest-Passes index it (legs_mapped legs) h = elim (Bool-cases (is_empty legs)) [
    | inl e ↦ rw e tt
    | inr l ↦ rw l (elim (Bool-cases (legs_chronological host legs none)) [
      | inr c ↦ rw c tt
      | inl c ↦
          rw c (with_end-Passes index it legs _ l c h (Dated-itinerary_end host engine parses it))
    ])
  ]

  LegsAre-narrow :
      (p q : Bool) (r : LegsResult) → (p ≡ false → q ≡ false) → LegsAre p r → LegsAre q r
  LegsAre-narrow p q (legs_mapped ls) f h = h
  LegsAre-narrow p q (legs_rejected r) f h = tt
  LegsAre-narrow p q (legs_raised m) f h = f h

  readable-present :
      (legs : List (Option OtpLeg)) (present : List OtpLeg)
      → present_legs legs ≡ some present
      → all (λ leg. is_readable_leg host engine (some leg)) present
        ≡ all (is_readable_leg host engine) legs
  unfolding present_legs
  readable-present [] present h = rw (← some-injective h) refl
  readable-present (none ∷ legs) present h = cc
  readable-present (some leg ∷ legs) present h = elim (Option-cases (present_legs legs)) [
    | inl n ↦ cc (rw n at h)
    | inr (ls, k) ↦
        let same = some-injective (rw k at h) in rw (← same) (rw (readable-present legs ls k) refl)
  ]

  unreadable-null :
      (legs : List (Option OtpLeg))
      → present_legs legs ≡ none
      → all (is_readable_leg host engine) legs ≡ false
  unfolding present_legs is_readable_leg
  unreadable-null [] h = cc
  unreadable-null (none ∷ legs) h = refl
  unreadable-null (some leg ∷ legs) h = elim (Option-cases (present_legs legs)) [
    | inl n ↦ let k = unreadable-null legs n in ground arith
    | inr (ls, k) ↦ cc (rw k at h)
  ]

  map_present_legs-Passes :
      (index : ℕ) (it : OtpItinerary) (legs : List (Option OtpLeg))
      → (all (is_readable_leg host engine) legs ≡ false → is_readable host engine (some it) ≡ false)
      → Passes host
          (is_readable host engine (some it))
          (map_present_legs host engine ctx index it (present_legs legs))
  unfolding map_present_legs
  map_present_legs-Passes index it legs f = elim (Option-cases (present_legs legs)) [
    | inl n ↦ rw n (f (unreadable-null legs n))
    | inr (ls, k) ↦ rw k (
        map_rest-Passes index it _ (
          LegsAre-narrow _ _ _ (λ e. f (rw (readable-present legs ls k) at e))
            (map_legs-LegsAre host engine parses ctx index _ 0 ls)))
  ]

  map_raw_legs-Passes :
      (index : ℕ) (it : OtpItinerary) (legs : Option (List (Option OtpLeg)))
      → (are_readable_legs host engine legs ≡ false → is_readable host engine (some it) ≡ false)
      → Passes host (is_readable host engine (some it)) (map_raw_legs host engine ctx index it legs)
  unfolding map_raw_legs are_readable_legs
  map_raw_legs-Passes index it none f = tt
  map_raw_legs-Passes index it (some []) f = tt
  map_raw_legs-Passes index it (some (leg ∷ legs)) f =
      map_present_legs-Passes index it (leg ∷ legs) f

  readable-legs :
      (it : OtpItinerary)
      → are_readable_legs host engine it.legs ≡ false
      → is_readable host engine (some it) ≡ false
  unfolding is_readable
  readable-legs it h = ground arith

  pub map_one_itinerary-Passes :
      (index : ℕ) (it : Option OtpItinerary)
      → Passes host (is_readable host engine it) (map_one_itinerary host engine it index ctx)
  unfolding map_one_itinerary is_readable
  map_one_itinerary-Passes index none = refl
  map_one_itinerary-Passes index (some it) = map_raw_legs-Passes index it it.legs (readable-legs it)
