-- ===== src/Data/Gtfs/Validate/Clean.antt =====
-- When a step of `validateGtfs` reports nothing: the predicate for a row that it checks.
use better_mta.Prelude.{
  ◌≡◌, ◌↔◌, refl, ap, Bool, true, false, not, ◌&&◌, List, [], ◌∷◌, ◌++◌, map, Option, none, some,
  any, All, All-of_Memᴰ, Memᴰ, arith, Bool-cases, inl, inr, is_empty, or_else,
}
use better_mta.Prelude.Text.{Text, ===_sound, ===_refl}
use better_mta.Data.Types.{GtfsStop, GtfsRoute, GtfsTrip, GtfsStopTime, GtfsTransfer, GtfsCalendar}
use better_mta.Routing.Satisfaction.{contains}
use better_mta.Routing.Satisfaction.Sets.{IsDistinct, contains-of_Memᴰ, Memᴰ-of_contains}
use better_mta.Data.Gtfs.Parse.{ParsedGtfs}
use better_mta.Data.Gtfs.Validate.{
  ValidationIssue, is_error, report, fault, named, stop_issues, parent_issues, is_orphan,
  route_issues, is_bad_calendar, calendar_issues, trip_issues, stop_time_issues, transfer_issues,
  gather, issues_with, is_gtfs_date, is_gtfs_time,
}

abbrev pub IsFilled : Text → Type 0
IsFilled id = is_empty id ≡ false

-- A parent station, where there is one, is a stop.
abbrev pub HasParent : List Text → Option Text → Type 0
HasParent stops none = Unit
HasParent stops (some []) = Unit
HasParent stops (some (c ∷ s)) = Memᴰ (c ∷ s) stops

abbrev pub IsTrip : List Text → List Text → GtfsTrip → Type 0
IsTrip routes services t = IsFilled t.trip_id × Memᴰ t.route_id routes × Memᴰ t.service_id services

abbrev pub IsCalendar : GtfsCalendar → Type 0
IsCalendar c =
    IsFilled c.service_id × (is_gtfs_date c.start_date ≡ true) × (is_gtfs_date c.end_date ≡ true)

abbrev pub IsStopTime : List Text → List Text → GtfsStopTime → Type 0
IsStopTime trips stops st =
    Memᴰ st.trip_id trips
    × Memᴰ st.stop_id stops
    × (is_gtfs_time st.arrival_time ≡ true)
    × (is_gtfs_time st.departure_time ≡ true)

abbrev pub IsTransfer : List Text → GtfsTransfer → Type 0
IsTransfer stops tr = Memᴰ tr.from_stop_id stops × Memᴰ tr.to_stop_id stops

abbrev pub Clean : List ValidationIssue → Type 0
Clean issues = any is_error issues ≡ false

pub Clean-append : (xs ys : List ValidationIssue) → Clean (xs ++ ys) ↔ (Clean xs × Clean ys)
Clean-append [] ys = (λ h. (refl, h), λ h. h.1)
Clean-append (x ∷ xs) ys = elim (Bool-cases (is_error x)) [
  | inl bad ↦ rw bad (λ h. cc h, λ h. cc h.0)
  | inr fine ↦ rw fine (Clean-append xs ys)
]

pub Clean-report :
    (wrong : Bool) (code message : Text) → Clean (report wrong code message) ↔ (wrong ≡ false)
unfolding report fault
Clean-report true code message = (λ h. h, λ h. h)
Clean-report false code message = (λ h. h, λ h. h)

pub Clean-gather {ℓ} :
    {A : Type ℓ} (f : A → List ValidationIssue) (P : A → Type 0)
    → ((x : A) → Clean (f x) ↔ P x)
    → (xs : List A) → Clean (gather f xs) ↔ All P xs
unfolding gather
Clean-gather f P each [] = (λ h. tt, λ h. refl)
Clean-gather f P each (x ∷ xs) = (
  λ h.
      let (a, b) = (Clean-append (f x) (gather f xs)).0 h in
      ((each x).0 a, (Clean-gather f P each xs).0 b),
  λ h. (Clean-append (f x) (gather f xs)).1 ((each x).1 h.0, (Clean-gather f P each xs).1 h.1),
)

contains-Memᴰ : (ids : List Text) (id : Text) → (contains ids id ≡ true) ↔ Memᴰ id ids
contains-Memᴰ ids id = (Memᴰ-of_contains ids id, λ m. contains-of_Memᴰ ids m)

HasParent-or_else :
    (stops : List Text) (p : Option Text)
    → ((not (is_empty (or_else p [])) && not (contains stops (or_else p []))) ≡ false)
      ↔ HasParent stops p
HasParent-or_else stops none = (λ h. tt, λ h. refl)
HasParent-or_else stops (some []) = (λ h. tt, λ h. refl)
HasParent-or_else stops (some (c ∷ s)) = ground (arith, contains-Memᴰ stops (c ∷ s))

pub Clean-HasParent :
    (stops : List Text) (s : GtfsStop)
    → Clean (parent_issues stops s) ↔ HasParent stops s.parent_station
unfolding parent_issues is_orphan
Clean-HasParent stops s =
    let c = Clean-report (is_orphan stops s) _ _ in
    let p = HasParent-or_else stops s.parent_station in (λ h. p.0 (c.0 h), λ h. c.1 (p.1 h))

pub Clean-IsCalendar : (c : GtfsCalendar) → Clean (calendar_issues c) ↔ IsCalendar c
unfolding calendar_issues is_bad_calendar
Clean-IsCalendar c = grind (arith, Clean-report)

pub Clean-IsTrip :
    (routes services : List Text) (t : GtfsTrip)
    → Clean (trip_issues routes services t) ↔ IsTrip routes services t
unfolding trip_issues
Clean-IsTrip routes services t = grind (arith, Clean-append, Clean-report, contains-Memᴰ)

pub Clean-IsStopTime :
    (trips stops : List Text) (st : GtfsStopTime)
    → Clean (stop_time_issues trips stops st) ↔ IsStopTime trips stops st
unfolding stop_time_issues
Clean-IsStopTime trips stops st = grind (arith, Clean-append, Clean-report, contains-Memᴰ)

pub Clean-IsTransfer :
    (stops : List Text) (tr : GtfsTransfer) → Clean (transfer_issues stops tr) ↔ IsTransfer stops tr
unfolding transfer_issues
Clean-IsTransfer stops tr = grind (arith, Clean-report, contains-Memᴰ)

pub Clean-route_issues : (r : GtfsRoute) → Clean (route_issues r) ↔ IsFilled r.route_id
unfolding route_issues
Clean-route_issues r = grind (arith, Clean-report)

-- The ids of stops that none of the ids seen repeats.
abbrev IsFresh : List Text → List GtfsStop → Type 0
IsFresh ids stops = All (λ s. contains ids s.stop_id ≡ false) stops

IsFresh-cons :
    (id : Text) (ids : List Text) (stops : List GtfsStop)
    → IsFresh (id ∷ ids) stops
      ↔ (IsFresh ids stops × (contains (map (λ s. s.stop_id) stops) id ≡ false))
unfolding contains
IsFresh-cons id ids [] = (λ h. (tt, refl), λ h. tt)
IsFresh-cons id ids (s ∷ stops) =
    grind (
      arith,
      IsFresh-cons id ids stops,
      ===_sound id s.stop_id,
      ===_sound s.stop_id id,
      ===_refl id,
    )

pub Clean-stop_issues :
    (ids : List Text) (stops : List GtfsStop)
    → Clean (stop_issues ids stops) ↔ (
        All (λ s. IsFilled s.stop_id) stops
        × IsDistinct (map (λ s. s.stop_id) stops)
        × IsFresh ids stops)
unfolding stop_issues
Clean-stop_issues ids [] = (λ h. (tt, tt, tt), λ h. refl)
Clean-stop_issues ids (s ∷ stops) = grind (
  arith,
  Clean-append,
  Clean-report,
  IsFresh-cons s.stop_id ids stops,
  Clean-stop_issues ids stops,
  Clean-stop_issues (s.stop_id ∷ ids) stops,
)

pub named-map {ℓ} :
    {A : Type ℓ} (f : A → Text) (xs : List A)
    → All (λ x. IsFilled (f x)) xs
    → named (map f xs) ≡ map f xs
named-map f [] p = refl
named-map f (x ∷ xs) (p, ps) = rw p (ap (λ ids. f x ∷ ids) (named-map f xs ps))

pub All-weaken {ℓ} :
    {A : Type ℓ} {P Q : A → Type 0} → ((x : A) → P x → Q x) → (xs : List A) → All P xs → All Q xs
All-weaken f [] p = tt
All-weaken f (x ∷ xs) (p, ps) = (f x p, All-weaken f xs ps)

pub Clean-not : (issues : List ValidationIssue) → (not (any is_error issues) ≡ true) ↔ Clean issues
Clean-not issues = ground arith

-- What each loop checks, with any sets of ids.
pub record IsClean (stops routes services trips : List Text) (g : ParsedGtfs) : Type 0 where
  pub named_stops : All (λ s. IsFilled s.stop_id) g.stops
  pub distinct_stops : IsDistinct (map (λ s. s.stop_id) g.stops)
  pub with_parents : All (λ s. HasParent stops s.parent_station) g.stops
  pub named_routes : All (λ r. IsFilled r.route_id) g.routes
  pub good_calendars : All IsCalendar g.calendar
  pub good_trips : All (IsTrip routes services) g.trips
  pub good_stop_times : All (IsStopTime trips stops) g.stop_times
  pub good_transfers : All (IsTransfer stops) g.transfers
  pub some_stops : is_empty g.stops ≡ false
  pub some_routes : is_empty g.routes ≡ false

pub IsClean-issues_with :
    (stops routes services trips : List Text) (g : ParsedGtfs)
    → Clean (issues_with stops routes services trips g) ↔ IsClean stops routes services trips g
unfolding issues_with
IsClean-issues_with stops routes services trips g = grind (
  arith,
  Clean-append,
  Clean-report,
  Clean-stop_issues [] g.stops,
  All-of_Memᴰ (λ s. contains [] s.stop_id ≡ false) g.stops (λ x m. refl),
  Clean-gather (parent_issues stops) (λ s. HasParent stops s.parent_station) (Clean-HasParent stops)
      g.stops,
  Clean-gather route_issues (λ r. IsFilled r.route_id) Clean-route_issues g.routes,
  Clean-gather calendar_issues IsCalendar Clean-IsCalendar g.calendar,
  Clean-gather (trip_issues routes services) (IsTrip routes services) (Clean-IsTrip routes services)
      g.trips,
  Clean-gather (stop_time_issues trips stops) (IsStopTime trips stops)
      (Clean-IsStopTime trips stops) g.stop_times,
  Clean-gather (transfer_issues stops) (IsTransfer stops) (Clean-IsTransfer stops) g.transfers,
)
