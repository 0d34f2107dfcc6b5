-- ===== src/Data/Lines/Laws.antt =====
-- The lines that `mapRoutesToLineIds` gives to routes.
use better_mta.Prelude.{
  ◌≡◌, refl, ap, sym, ◌∙◌, Option, none, some, List, [], ◌∷◌, ◌++◌, Bool-cases, Option-cases, inl,
  inr, or_try, find, if◌then◌else◌,
}
use better_mta.Prelude.Text.{Text, text, ◌===◌}
use better_mta.Data.Types.{GtfsRoute, LineMappingEntry, QuarantinedRoute}
use better_mta.Data.Lines.{
  line_of, entry_of, LineMappingResult, map_routes_from, map_routes_to_line_ids, line_found,
  resolve_line_id,
}
use mathlib.Core.List.{append_assoc, append-nil}

-- The line of the first route with this id that has one.
unfoldable pub line_in : Text → List GtfsRoute → Option Text
line_in id [] = none
line_in id (route ∷ routes) =
    let rest = line_in id routes in
    if route.route_id === id then or_try (line_of route) rest else rest

-- The entries of the routes that have a line, and the others.
abbrev entries : List GtfsRoute → List LineMappingEntry
entries [] = []
entries (route ∷ routes) = elim (line_of route) [
  | none ↦ entries routes
  | some id ↦ entry_of route id ∷ entries routes
]

abbrev strangers : List GtfsRoute → List QuarantinedRoute
strangers [] = []
strangers (route ∷ routes) = elim (line_of route) [
  | none ↦
      record { gtfs_route_id = route.route_id; reason = text "unknown_route_id" } ∷ strangers routes
  | some id ↦ strangers routes
]

record-ext :
    {a b : List LineMappingEntry} {c d : List QuarantinedRoute}
    → a ≡ b
    → c ≡ d
    → ◌≡◌ {A = LineMappingResult}
        (record { mappings = a; quarantined = c })
        (record { mappings = b; quarantined = d })
record-ext e f = cc

map_routes_from_lem :
    (routes : List GtfsRoute) (m : List LineMappingEntry) (q : List QuarantinedRoute)
    → map_routes_from routes (record { mappings = m; quarantined = q })
      ≡ record { mappings = m ++ entries routes; quarantined = q ++ strangers routes }
unfolding map_routes_from
map_routes_from_lem [] m q = record-ext (sym (append-nil m)) (sym (append-nil q))
map_routes_from_lem (route ∷ routes) m q = elim (Option-cases (line_of route)) [
  | inl n ↦
      rw (map_routes_from, entries, strangers, n)
        (map_routes_from_lem routes m _
          ∙ record-ext refl (append_assoc q (_ ∷ []) (strangers routes)))
  | inr (id, k) ↦
      rw (map_routes_from, entries, strangers, k)
        (map_routes_from_lem routes _ q
          ∙ record-ext (append_assoc m (_ ∷ []) (entries routes)) refl)
]

line_found-entries :
    (id : Text) (routes : List GtfsRoute)
    → line_found (find (λ m. m.gtfs_route_id === id) (entries routes)) ≡ line_in id routes
unfolding line_found line_in entry_of
line_found-entries id [] = refl
line_found-entries id (route ∷ routes) = elim (Option-cases (line_of route)) [
  | inl n ↦
      rw (entries, n)
        (elim (Bool-cases (route.route_id === id)) [
          | inl t ↦ rw t (line_found-entries id routes)
          | inr f ↦ rw f (line_found-entries id routes)
        ])
  | inr (known, k) ↦
      rw (entries, k)
        (elim (Bool-cases (route.route_id === id)) [
          | inl t ↦ rw t refl
          | inr f ↦ rw f (line_found-entries id routes)
        ])
]

-- With the mapping of a list of routes, a GTFS route id resolves to the line of the first route with this id that has a line, and to no line where no such route has one.
pub resolve_line_id-map_routes_to_line_ids :
    (id : Text) (routes : List GtfsRoute)
    → resolve_line_id id (map_routes_to_line_ids routes).mappings ≡ line_in id routes
unfolding resolve_line_id map_routes_to_line_ids
resolve_line_id-map_routes_to_line_ids id routes =
    ap (λ (r : LineMappingResult). line_found (find (λ m. m.gtfs_route_id === id) r.mappings))
      (map_routes_from_lem routes [] [])
    ∙ line_found-entries id routes
