-- ===== src/Routing/Otp/Dates.antt =====
-- services/routing/src/otp-provider/map.ts: the instants that it makes, and finite numbers.
use better_mta.Prelude.{
  ◌≡◌, refl, ap, ℕ, Bool, true, false, ◌&&◌, Option, none, some, [], ◌∷◌, arith, Bool-cases, inl,
  inr, or_try,
}
use better_mta.Prelude.Int.{ℤ, pos, negsuc, ◌+ℤ◌}
use better_mta.Prelude.Text.{Text}
use better_mta.Prelude.Number.{
  Number, nan, neg_inf, inf, finite, is_finite, max_zero, round_quotient, floor_quotient, ◌+ₙ◌,
  ◌-ₙ◌,
}
use better_mta.Routing.Types.{Host}
use better_mta.Routing.Validate.{is_non_negative}
use better_mta.Routing.Otp.Types.{
  Engine, Attempt, returned, raised, OtpInstant, OtpTime, at, leg_time, OtpLeg, OtpItinerary,
}
use better_mta.Routing.Otp.Times.{
  present_text, in_range, iso_of, epoch_ms, instant_to_iso, optional_to_iso, or_scheduled,
  estimated_or, otp_time_to_iso_utc, leg_start, leg_end, itinerary_start, itinerary_end,
}
use better_mta.Routing.Otp.Readable.{
  number_in_range, is_datable, is_datable_time, is_readable_leg, is_readable,
}
use better_mta.Routing.Otp.Legs.{duration_or}

pub max_zero-is_non_negative :
    (n : Number) → is_finite n ≡ true → is_non_negative (max_zero n) ≡ true
unfolding is_non_negative
max_zero-is_non_negative (finite a) h = ground arith
max_zero-is_non_negative n h = ground arith

pub is_non_negative-is_finite : (n : Number) → is_non_negative n ≡ true → is_finite n ≡ true
unfolding is_non_negative
is_non_negative-is_finite n h = ground arith

pub is_finite-sub :
    (a b : Number) → is_finite a ≡ true → is_finite b ≡ true → is_finite (a -ₙ b) ≡ true
unfolding ◌-ₙ◌
is_finite-sub (finite a) (finite b) h k = refl
is_finite-sub (finite a) b h k = ground arith
is_finite-sub a b h k = ground arith

pub is_finite-add :
    (a b : Number) → is_finite a ≡ true → is_finite b ≡ true → is_finite (a +ₙ b) ≡ true
unfolding ◌+ₙ◌
is_finite-add (finite a) (finite b) h k = refl
is_finite-add (finite a) b h k = ground arith
is_finite-add a b h k = ground arith

pub is_non_negative-add :
    (a b : Number)
    → is_non_negative a ≡ true
    → is_non_negative b ≡ true
    → is_non_negative (a +ₙ b) ≡ true
unfolding ◌+ₙ◌ ◌+ℤ◌ is_non_negative
is_non_negative-add (finite (pos a)) (finite (pos b)) h k = ground arith
is_non_negative-add (finite (negsuc a)) (finite b) h k = ground arith
is_non_negative-add (finite (pos a)) (finite (negsuc b)) h k = ground arith
is_non_negative-add (finite a) b h k = ground arith
is_non_negative-add a b h k = ground arith

pub is_finite-max_zero : (n : Number) → is_finite n ≡ true → is_finite (max_zero n) ≡ true
is_finite-max_zero n h = ground arith

pub is_finite-round_quotient :
    (n : Number) (d : ℕ) → is_finite n ≡ true → is_finite (round_quotient n d) ≡ true
is_finite-round_quotient (finite a) d h = refl
is_finite-round_quotient n d h = ground arith

pub is_finite-floor_quotient :
    (n : Number) (d : ℕ) → is_finite n ≡ true → is_finite (floor_quotient n d) ≡ true
is_finite-floor_quotient (finite a) d h = refl
is_finite-floor_quotient n d h = ground arith

pub is_finite-duration_or :
    (d : Option ℤ) (s : Number) → is_finite s ≡ true → is_finite (duration_or d s) ≡ true
unfolding duration_or
is_finite-duration_or none s h = h
is_finite-duration_or (some d) s h = refl

-- A text that the engine reads as an instant.
abbrev pub IsDate : Host → Text → Type 0
IsDate host t = is_finite (host.date_parse t) ≡ true

abbrev pub HoldsDate : Host → Option Text → Type 0
HoldsDate host none = Unit
HoldsDate host (some t) = IsDate host t

module _ (host : Host) where
  pub HoldsDate-present_text :
      (o : Option Text) → HoldsDate host o → HoldsDate host (present_text o)
  HoldsDate-present_text none h = tt
  HoldsDate-present_text (some []) h = tt
  HoldsDate-present_text (some (c ∷ s)) h = h

  pub HoldsDate-or_try :
      (o p : Option Text) → HoldsDate host o → HoldsDate host p → HoldsDate host (or_try o p)
  HoldsDate-or_try none p h k = k
  HoldsDate-or_try (some t) p h k = h

  -- A time that is an instant where it is there, or an error, which `fine` excludes.
  abbrev pub Dated : Bool → Attempt (Option Text) → Type 0
  Dated fine (returned o) = HoldsDate host o
  Dated fine (raised m) = fine ≡ false

  Dated-narrow :
      (p q : Bool) (a : Attempt (Option Text)) → (p ≡ false → q ≡ false) → Dated p a → Dated q a
  Dated-narrow p q (returned o) f h = h
  Dated-narrow p q (raised m) f h = f h

  module _ (engine : Engine)
      (parses : (n : ℤ) → in_range n ≡ true → host.date_parse (engine.to_iso n) ≡ finite n) where
    Dated-iso_of : (n : Number) → Dated (number_in_range n) (iso_of host engine n)
    Dated-iso_of (finite ms) = elim (Bool-cases (in_range ms)) [
      | inl t ↦ rw t (ap is_finite (parses ms t))
      | inr f ↦ rw f refl
    ]
    Dated-iso_of nan = tt
    Dated-iso_of neg_inf = tt
    Dated-iso_of inf = tt

    Dated-instant_to_iso :
        (i : OtpInstant) → Dated (is_datable host engine (some i)) (instant_to_iso host engine i)
    unfolding instant_to_iso
    Dated-instant_to_iso i = Dated-iso_of (epoch_ms host engine i)

    Dated-optional :
        (o : Option OtpInstant) → Dated (is_datable host engine o) (optional_to_iso host engine o)
    unfolding optional_to_iso
    Dated-optional none = tt
    Dated-optional (some i) = Dated-instant_to_iso i

    Dated-or_scheduled :
        (p q : Bool) (o : Option Text) (b : Attempt (Option Text))
        → HoldsDate host o
        → Dated q b
        → Dated (p && q) (or_scheduled o b)
    Dated-or_scheduled p q none b h k = Dated-narrow q (p && q) b (λ e. ground arith) k
    Dated-or_scheduled p q (some t) b h k = h

    Dated-estimated_or :
        (p q : Bool) (a b : Attempt (Option Text))
        → Dated p a
        → Dated q b
        → Dated (p && q) (estimated_or host engine a b)
    unfolding estimated_or
    Dated-estimated_or p q (raised m) b h k = ground arith
    Dated-estimated_or p q (returned o) b h k =
        Dated-or_scheduled p q (present_text o) b (HoldsDate-present_text o h) k

    Dated-otp_time_to_iso_utc :
        (o : Option OtpTime)
        → Dated (is_datable_time host engine o) (otp_time_to_iso_utc host engine o)
    unfolding otp_time_to_iso_utc
    Dated-otp_time_to_iso_utc none = tt
    Dated-otp_time_to_iso_utc (some (at i)) = Dated-instant_to_iso i
    Dated-otp_time_to_iso_utc (some (leg_time scheduled estimated)) =
        Dated-estimated_or (is_datable host engine estimated) (is_datable host engine scheduled)
          (optional_to_iso host engine estimated) (optional_to_iso host engine scheduled)
          (Dated-optional estimated) (Dated-optional scheduled)

    time-or_try :
        (a b : Option OtpTime)
        → is_datable_time host engine (or_try a b) ≡ false
        → (is_datable_time host engine a && is_datable_time host engine b) ≡ false
    time-or_try none b h = h
    time-or_try (some t) b h = ground arith

    instant-or_try :
        (a b : Option OtpInstant)
        → is_datable host engine (or_try a b) ≡ false
        → (is_datable host engine a && is_datable host engine b) ≡ false
    instant-or_try none b h = h
    instant-or_try (some t) b h = ground arith

    pub Dated-leg_start :
        (leg : OtpLeg) → Dated (is_readable_leg host engine (some leg)) (leg_start host engine leg)
    unfolding leg_start is_readable_leg
    Dated-leg_start leg =
        Dated-narrow _ _ (otp_time_to_iso_utc host engine (or_try leg.start_time leg.start))
          (λ e. let f = time-or_try leg.start_time leg.start e in ground arith)
          (Dated-otp_time_to_iso_utc _)

    pub Dated-leg_end :
        (leg : OtpLeg) → Dated (is_readable_leg host engine (some leg)) (leg_end host engine leg)
    unfolding leg_end is_readable_leg
    Dated-leg_end leg =
        Dated-narrow _ _ (otp_time_to_iso_utc host engine (or_try leg.end_time leg.finish))
          (λ e. let f = time-or_try leg.end_time leg.finish e in ground arith)
          (Dated-otp_time_to_iso_utc _)

    pub Dated-itinerary_start :
        (it : OtpItinerary)
        → Dated (is_readable host engine (some it)) (itinerary_start host engine it)
    unfolding itinerary_start is_readable
    Dated-itinerary_start it =
        Dated-narrow _ _ (optional_to_iso host engine (or_try it.start_time it.start))
          (λ e. let f = instant-or_try it.start_time it.start e in ground arith) (Dated-optional _)

    pub Dated-itinerary_end :
        (it : OtpItinerary)
        → Dated (is_readable host engine (some it)) (itinerary_end host engine it)
    unfolding itinerary_end is_readable
    Dated-itinerary_end it =
        Dated-narrow _ _ (optional_to_iso host engine (or_try it.end_time it.finish))
          (λ e. let f = instant-or_try it.end_time it.finish e in ground arith) (Dated-optional _)
