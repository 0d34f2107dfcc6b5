-- ===== src/Routing/Otp/Laws.antt =====
-- services/routing/src/otp-provider/map.ts: the drafts that it makes, at the gate of the search.
use better_mta.Prelude.{
  ◌≡◌, refl, ℕ, suc, ◌+◌, Bool, true, false, Option, List, [], ◌∷◌, ◌++◌, All, arith, ◌⊎◌, inl, inr,
  length, length-append,
}
use mathlib.Core.Path.{subst}
use better_mta.Prelude.Int.{ℤ}
use better_mta.Prelude.Text.{Text}
use better_mta.Prelude.Number.{finite}
use better_mta.Routing.Types.{Host, Draft}
use better_mta.Routing.Validate.{validate_candidate_draft, valid}
use better_mta.Routing.Otp.Types.{
  Engine, Attempt, returned, raised, OtpItinerary, MapContext, empty_legs, non_chronological,
  zero_duration_transit, unmappable_route, missing_times,
}
use better_mta.Routing.Otp.Times.{in_range}
use better_mta.Routing.Otp.Map.{
  MapResult, mapped, rejected, map_raised, map_one_itinerary, total, bump, MapItinerariesResult,
  map_step, map_from, map_otp_itineraries,
}
use better_mta.Routing.Otp.Readable.{is_readable, are_readable}
use better_mta.Routing.Otp.Passes.{Passes, map_one_itinerary-Passes}

All-snoc :
    (P : Draft → Type 0) (xs : List Draft) (x : Draft) → All P xs → P x → All P (xs ++ (x ∷ []))
All-snoc P [] x h p = (p, tt)
All-snoc P (y ∷ ys) x (h, hs) p = (h, All-snoc P ys x hs p)

module _ (host : Host) (engine : Engine) (ctx : MapContext) (i : ℕ) where
  pub map_from-nil : (out : MapItinerariesResult) → map_from host engine ctx i [] out ≡ returned out
  unfolding map_from
  map_from-nil out = refl

  module _ (it : Option OtpItinerary) (its : List (Option OtpItinerary))
      (out : MapItinerariesResult) where
    pub map_from-raised :
        (m : Text)
        → map_step (map_one_itinerary host engine it i ctx) out ≡ raised m
        → map_from host engine ctx i (it ∷ its) out ≡ raised m
    unfolding map_from
    map_from-raised m e = rw (map_from, e) refl

    pub map_from-returned :
        (next : MapItinerariesResult)
        → map_step (map_one_itinerary host engine it i ctx) out ≡ returned next
        → map_from host engine ctx i (it ∷ its) out ≡ map_from host engine ctx (suc i) its next
    unfolding map_from
    map_from-returned next e = rw (map_from, e) refl

pub Attempt-cases :
    (a : Attempt MapItinerariesResult)
    → ((m : Text) × (a ≡ raised m)) ⊎ ((out : MapItinerariesResult) × (a ≡ returned out))
Attempt-cases (raised m) = inl (m, refl)
Attempt-cases (returned out) = inr (out, refl)

module _ (host : Host) (engine : Engine)
    (parses : (n : ℤ) → in_range n ≡ true → host.date_parse (engine.to_iso n) ≡ finite n)
    (ctx : MapContext) where
  -- All the drafts pass, and each itinerary is a draft or is counted; or there is an error, which
  -- `fine` excludes.
  IsComplete : Bool → ℕ → Attempt MapItinerariesResult → Type 0
  IsComplete fine n (raised m) = fine ≡ false
  IsComplete fine n (returned out) =
      All (λ d. validate_candidate_draft host d ≡ valid) out.drafts
      × (length out.drafts + total out.rejection_counts ≡ n)

  map_step-IsComplete :
      (fine : Bool) (n : ℕ) (r : MapResult) (out : MapItinerariesResult)
      → Passes host fine r
      → IsComplete fine n (returned out)
      → IsComplete fine (suc n) (map_step r out)
  unfolding IsComplete map_step bump
  map_step-IsComplete fine n (map_raised m) out p (h, k) = p
  map_step-IsComplete fine n (mapped d) out p (h, k) = (
    All-snoc (λ d. validate_candidate_draft host d ≡ valid) out.drafts d h p,
    omega (arith, k, length-append out.drafts (d ∷ [])),
  )
  map_step-IsComplete fine n (rejected empty_legs) out p (h, k) = (h, omega (arith, k))
  map_step-IsComplete fine n (rejected non_chronological) out p (h, k) = (h, omega (arith, k))
  map_step-IsComplete fine n (rejected zero_duration_transit) out p (h, k) = (h, omega (arith, k))
  map_step-IsComplete fine n (rejected unmappable_route) out p (h, k) = (h, omega (arith, k))
  map_step-IsComplete fine n (rejected missing_times) out p (h, k) = (h, omega (arith, k))

  IsComplete-narrow :
      (p q : Bool) (n : ℕ) (a : Attempt MapItinerariesResult)
      → (p ≡ false → q ≡ false)
      → IsComplete p n a
      → IsComplete q n a
  unfolding IsComplete
  IsComplete-narrow p q n (raised m) f h = f h
  IsComplete-narrow p q n (returned out) f h = h

  map_from-IsComplete :
      (i n : ℕ) (its : List (Option OtpItinerary)) (out : MapItinerariesResult)
      → All (λ d. validate_candidate_draft host d ≡ valid) out.drafts
      → length out.drafts + total out.rejection_counts ≡ n
      → IsComplete
          (are_readable host engine its)
          (n + length its)
          (map_from host engine ctx i its out)
  unfolding are_readable IsComplete
  map_from-IsComplete i n [] out h k = rw (map_from-nil host engine ctx i out) (h, omega (arith, k))
  map_from-IsComplete i n (it ∷ its) out h k =
      let one =
        map_step-IsComplete (is_readable host engine it) n (map_one_itinerary host engine it i ctx)
          out (map_one_itinerary-Passes host engine parses ctx i it) (h, k) in
      elim (Attempt-cases (map_step (map_one_itinerary host engine it i ctx) out)) [
        | inl (m, e) ↦
            rw (map_from-raised host engine ctx i it its out m e)
              (let bad = rw e at one in ground arith)
        | inr (next, e) ↦ rw (map_from-returned host engine ctx i it its out next e) (
            let (h', k') = rw e at one in
            subst
              (λ s.
                IsComplete (are_readable host engine (it ∷ its)) s
                  (map_from host engine ctx (suc i) its next))
              (omega arith)
              (IsComplete-narrow (are_readable host engine its)
                (are_readable host engine (it ∷ its)) _ _ (λ e. ground arith)
                (map_from-IsComplete (suc i) (suc n) its next h' k')))
      ]

-- What mapping an answer comes to.
abbrev pub IsMapped :
    Host → Engine → List (Option OtpItinerary) → Attempt MapItinerariesResult → Type 0
IsMapped host engine its (raised m) = are_readable host engine its ≡ false
IsMapped host engine its (returned out) =
    All (λ d. validate_candidate_draft host d ≡ valid) out.drafts
    × (length out.drafts + total out.rejection_counts ≡ length its)

IsMapped-of_IsComplete :
    (host : Host) (engine : Engine)
    (parses : (n : ℤ) → in_range n ≡ true → host.date_parse (engine.to_iso n) ≡ finite n)
    (ctx : MapContext) (its : List (Option OtpItinerary)) (a : Attempt MapItinerariesResult)
    → IsComplete host engine parses ctx (are_readable host engine its) (0 + length its) a
    → IsMapped host engine its a
unfolding IsComplete
IsMapped-of_IsComplete host engine parses ctx its (raised m) h = h
IsMapped-of_IsComplete host engine parses ctx its (returned out) (h, k) = (h, omega (arith, k))

-- Where the engine reads each instant that it prints in the range of Date as what it was, mapping an
-- answer of OpenTripPlanner throws an error only if a leg or an itinerary of it is null or an
-- instant of it lies out of that range. Otherwise it returns, every draft passes the validity gate
-- of the search, and the drafts and the rejections that are counted are as many as the itineraries.
pub map_otp_itineraries-valid :
    (host : Host) (engine : Engine)
    → ((n : ℤ) → in_range n ≡ true → host.date_parse (engine.to_iso n) ≡ finite n)
    → (its : List (Option OtpItinerary)) (ctx : MapContext)
    → IsMapped host engine its (map_otp_itineraries host engine its ctx)
unfolding map_otp_itineraries
map_otp_itineraries-valid host engine parses its ctx =
    IsMapped-of_IsComplete host engine parses ctx its _
      (map_from-IsComplete host engine parses ctx 0 0 its _ tt refl)
