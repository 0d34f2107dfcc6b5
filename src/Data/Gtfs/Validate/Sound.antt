-- ===== src/Data/Gtfs/Validate/Sound.antt =====
-- What the tables must satisfy for `validateGtfs` to pass them.
use better_mta.Prelude.{◌≡◌, ◌↔◌, true, false, List, map, All, is_empty}
use better_mta.Prelude.Text.{Text}
use better_mta.Routing.Satisfaction.Sets.{IsDistinct}
use better_mta.Data.Gtfs.Parse.{ParsedGtfs}
use better_mta.Data.Gtfs.Validate.{named, gtfs_issues, validate_gtfs}
use better_mta.Data.Gtfs.Validate.Clean.{
  IsFilled, HasParent, IsTrip, IsCalendar, IsStopTime, IsTransfer, IsClean, IsClean-issues_with,
  Clean-not, named-map, All-weaken,
}

abbrev stop_ids : ParsedGtfs → List Text
stop_ids g = map (λ s. s.stop_id) g.stops

abbrev route_ids : ParsedGtfs → List Text
route_ids g = map (λ r. r.route_id) g.routes

abbrev service_ids : ParsedGtfs → List Text
service_ids g = map (λ c. c.service_id) g.calendar

abbrev trip_ids : ParsedGtfs → List Text
trip_ids g = map (λ t. t.trip_id) g.trips

-- The tables refer to each other as they should.
pub record IsSound (g : ParsedGtfs) : Type 0 where
  pub stops_named : All (λ s. IsFilled s.stop_id) g.stops
  pub stops_distinct : IsDistinct (stop_ids g)
  pub parents : All (λ s. HasParent (stop_ids g) s.parent_station) g.stops
  pub routes_named : All (λ r. IsFilled r.route_id) g.routes
  pub calendars : All IsCalendar g.calendar
  pub trips : All (IsTrip (route_ids g) (service_ids g)) g.trips
  pub stop_times : All (IsStopTime (trip_ids g) (stop_ids g)) g.stop_times
  pub transfers : All (IsTransfer (stop_ids g)) g.transfers
  pub has_stops : is_empty g.stops ≡ false
  pub has_routes : is_empty g.routes ≡ false

IsSound-of_IsClean :
    (stops routes trips : List Text) (g : ParsedGtfs)
    → stops ≡ stop_ids g
    → routes ≡ route_ids g
    → trips ≡ trip_ids g
    → IsClean stops routes (service_ids g) trips g ↔ IsSound g
IsSound-of_IsClean stops routes trips g es er et = (
  λ h. record {
    stops_named = h.named_stops;
    stops_distinct = h.distinct_stops;
    parents = rw (← es) h.with_parents;
    routes_named = h.named_routes;
    calendars = h.good_calendars;
    trips = rw (← er) h.good_trips;
    stop_times = rw (← et, ← es) h.good_stop_times;
    transfers = rw (← es) h.good_transfers;
    has_stops = h.some_stops;
    has_routes = h.some_routes;
  },
  λ h. record {
    named_stops = h.stops_named;
    distinct_stops = h.stops_distinct;
    with_parents = rw es h.parents;
    named_routes = h.routes_named;
    good_calendars = h.calendars;
    good_trips = rw er h.trips;
    good_stop_times = rw (et, es) h.stop_times;
    good_transfers = rw es h.transfers;
    some_stops = h.has_stops;
    some_routes = h.has_routes;
  },
)

-- Where all ids are filled, the sets of the loops are the ids of the tables.
filled :
    (g : ParsedGtfs)
    → All (λ s. IsFilled s.stop_id) g.stops
    → All (λ r. IsFilled r.route_id) g.routes
    → All (λ t. IsFilled t.trip_id) g.trips
    → IsClean (named (stop_ids g)) (named (route_ids g)) (service_ids g) (named (trip_ids g)) g
      ↔ IsSound g
filled g s r t =
    IsSound-of_IsClean _ _ _ g (named-map (λ s. s.stop_id) g.stops s)
      (named-map (λ r. r.route_id) g.routes r) (named-map (λ t. t.trip_id) g.trips t)

-- `validateGtfs` answers ok on tables exactly when they are sound: stops, routes and trips have ids, no stop id
-- stands twice, a parent station is a stop, a row of the calendar has a service id and two dates
-- of eight digits, a trip has a known route and a service of the calendar, a stop time a known trip, a
-- known stop and two times of the form H:MM:SS or HH:MM:SS, a transfer two known stops, and there is a stop and a route.
pub validate_gtfs-IsSound : (g : ParsedGtfs) → ((validate_gtfs g).ok ≡ true) ↔ IsSound g
unfolding validate_gtfs gtfs_issues
validate_gtfs-IsSound g = (
  λ h.
      let c =
        (IsClean-issues_with (named (stop_ids g)) (named (route_ids g)) (service_ids g)
            (named (trip_ids g)) g).0
          ((Clean-not (gtfs_issues g)).0 h) in
      (filled g c.named_stops c.named_routes (All-weaken (λ t p. p.0) g.trips c.good_trips)).0 c,
  λ h.
      let c =
        (filled g h.stops_named h.routes_named (All-weaken (λ t p. p.0) g.trips h.trips)).1 h in
      (Clean-not (gtfs_issues g)).1 (
        (IsClean-issues_with (named (stop_ids g)) (named (route_ids g)) (service_ids g)
            (named (trip_ids g)) g).1
          c),
)
