-- ===== src/Routing/Otp/Measured.antt =====
-- services/routing/src/otp-provider/map.ts: the metrics of the legs that it makes.
use better_mta.Prelude.{
  ◌≡◌, refl, ℕ, suc, Bool, true, false, ◌&&◌, arith, all, Option, none, some, List, [], ◌∷◌, All,
  Bool-cases, inl, inr, or_else,
}
use better_mta.Prelude.Int.{ℤ, pos}
use better_mta.Prelude.Text.{Text}
use better_mta.Prelude.Number.{number, finite, is_finite, number_ltb, round_quotient, ◌-ₙ◌}
use better_mta.Routing.Types.{Host, Leg, transit, walk}
use better_mta.Routing.Satisfaction.{transit_legs_of}
use better_mta.Routing.Validate.{is_non_negative}
use better_mta.Routing.Otp.Types.{Engine, Attempt, returned, raised, OtpLeg, MapContext}
use better_mta.Routing.Otp.Times.{present_text, in_range, is_walk_mode, is_transit_mode}
use better_mta.Routing.Otp.Legs.{
  walk_seconds, map_walk_leg, duration_or, map_transit_leg, LegResult, leg_mapped, leg_rejected,
  leg_raised, map_timed, map_ride, map_leg, LegsResult, legs_mapped, legs_rejected, legs_raised,
  cons_leg, map_legs,
}
use better_mta.Routing.Otp.Dates.{
  max_zero-is_non_negative, is_finite-sub, is_finite-add, is_non_negative-add, is_finite-max_zero,
  is_finite-round_quotient, is_finite-duration_or, HoldsDate, HoldsDate-present_text, Dated,
  Dated-leg_start, Dated-leg_end,
}
use better_mta.Routing.Otp.Readable.{is_readable_leg}
use better_mta.Routing.Otp.Map.{walking_of, riding_of}

-- A mapped leg has metrics that are finite, and its walk does not last less than no time.
abbrev pub IsMeasured : Leg → Type 0
IsMeasured (walk w) = is_non_negative w.duration_seconds ≡ true
IsMeasured (transit t) = is_finite (or_else t.duration_seconds (number 0)) ≡ true

-- What `fine` excludes is an error.
abbrev pub LegIs : Bool → LegResult → Type 0
LegIs fine (leg_mapped l) = IsMeasured l
LegIs fine (leg_rejected r) = Unit
LegIs fine (leg_raised m) = fine ≡ false

abbrev pub LegsAre : Bool → LegsResult → Type 0
LegsAre fine (legs_mapped ls) = All IsMeasured ls
LegsAre fine (legs_rejected r) = Unit
LegsAre fine (legs_raised m) = fine ≡ false

map_timed-LegIs :
    (host : Host) (fine : Bool) (leg : OtpLeg) (id : Text) (identity : List (Text × Text))
    (line : Text) (depart arrive : Option Text)
    → HoldsDate host depart
    → HoldsDate host arrive
    → LegIs fine (map_timed host leg id identity line depart arrive)
unfolding map_timed map_transit_leg
map_timed-LegIs host fine leg id identity line none arrive h k = tt
map_timed-LegIs host fine leg id identity line (some depart) none h k = tt
map_timed-LegIs host fine leg id identity line (some depart) (some arrive) h k =
    elim (Bool-cases (
      number_ltb (number 0) (
        duration_or leg.duration
          (round_quotient (host.date_parse arrive -ₙ host.date_parse depart) 1000)))) [
            | inr short ↦ rw short tt
            | inl long ↦ rw long (
                is_finite-max_zero _ (
                  is_finite-duration_or leg.duration _ (
                    is_finite-max_zero _
                      (is_finite-round_quotient _ 1000 (is_finite-sub _ _ k h)))))
          ]

map_ride-LegIs :
    (host : Host) (fine : Bool) (leg : OtpLeg) (id : Text) (identity : List (Text × Text))
    (line : Option Text) (depart arrive : Attempt (Option Text))
    → Dated host fine depart
    → Dated host fine arrive
    → LegIs fine (map_ride host leg id identity line depart arrive)
unfolding map_ride
map_ride-LegIs host fine leg id identity none depart arrive h k = tt
map_ride-LegIs host fine leg id identity (some line) (raised m) arrive h k = h
map_ride-LegIs host fine leg id identity (some line) (returned depart) (raised m) h k = k
map_ride-LegIs host fine leg id identity (some line) (returned depart) (returned arrive) h k =
    map_timed-LegIs host fine leg id identity line (present_text depart) (present_text arrive)
      (HoldsDate-present_text host depart h) (HoldsDate-present_text host arrive k)

module _ (host : Host) (engine : Engine)
    (parses : (n : ℤ) → in_range n ≡ true → host.date_parse (engine.to_iso n) ≡ finite n)
    (ctx : MapContext) where
  map_leg-LegIs :
      (id : Text) (identity : List (Text × Text)) (leg : OtpLeg)
      → LegIs (is_readable_leg host engine (some leg)) (map_leg host engine ctx id identity leg)
  unfolding map_leg map_walk_leg walk_seconds
  map_leg-LegIs id identity leg = elim (Bool-cases (is_walk_mode host engine leg.mode)) [
    | inl w ↦ rw w (max_zero-is_non_negative (finite (or_else leg.duration (pos 0))) refl)
    | inr w ↦ rw w (elim (Bool-cases (is_transit_mode host engine leg.mode)) [
      | inr o ↦ rw o (max_zero-is_non_negative (finite (or_else leg.duration (pos 0))) refl)
      | inl t ↦ rw t (
          map_ride-LegIs host (is_readable_leg host engine (some leg)) leg id identity _ _ _
            (Dated-leg_start host engine parses leg) (Dated-leg_end host engine parses leg))
    ])
  ]

  cons_leg-LegsAre :
      (p q : Bool) (l : LegResult) (ls : LegsResult)
      → LegIs p l
      → LegsAre q ls
      → LegsAre (p && q) (cons_leg l ls)
  cons_leg-LegsAre p q (leg_rejected r) ls h k = tt
  cons_leg-LegsAre p q (leg_raised m) ls h k = ground arith
  cons_leg-LegsAre p q (leg_mapped l) (legs_rejected r) h k = tt
  cons_leg-LegsAre p q (leg_mapped l) (legs_raised m) h k = ground arith
  cons_leg-LegsAre p q (leg_mapped l) (legs_mapped ls) h k = (h, k)

  pub map_legs-LegsAre :
      (index : ℕ) (identity : List (Text × Text)) (i : ℕ) (legs : List OtpLeg)
      → LegsAre
          (all (λ leg. is_readable_leg host engine (some leg)) legs)
          (map_legs host engine ctx index identity i legs)
  unfolding map_legs
  map_legs-LegsAre index identity i [] = tt
  map_legs-LegsAre index identity i (leg ∷ legs) =
      cons_leg-LegsAre _ _ _ _ (map_leg-LegIs _ identity leg)
        (map_legs-LegsAre index identity (suc i) legs)

pub walking_of-is_non_negative :
    (legs : List Leg) → All IsMeasured legs → is_non_negative (walking_of legs) ≡ true
unfolding walking_of
walking_of-is_non_negative [] h = max_zero-is_non_negative (number 0) refl
walking_of-is_non_negative (walk w ∷ legs) (h, hs) =
    is_non_negative-add _ _ h (walking_of-is_non_negative legs hs)
walking_of-is_non_negative (transit t ∷ legs) (h, hs) = walking_of-is_non_negative legs hs

pub riding_of-is_finite :
    (legs : List Leg) → All IsMeasured legs → is_finite (riding_of (transit_legs_of legs)) ≡ true
unfolding riding_of transit_legs_of
riding_of-is_finite [] h = refl
riding_of-is_finite (walk w ∷ legs) (h, hs) = riding_of-is_finite legs hs
riding_of-is_finite (transit t ∷ legs) (h, hs) = is_finite-add _ _ h (riding_of-is_finite legs hs)
