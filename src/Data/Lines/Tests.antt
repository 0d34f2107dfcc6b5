-- ===== src/Data/Lines/Tests.antt =====
-- The lines of some routes.
use better_mta.Prelude.{◌≡◌, refl, some, [], ◌∷◌, List, map}
use better_mta.Prelude.Text.{Text, text, ◌===◌}
use better_mta.Data.Types.{GtfsRoute}
use better_mta.Data.Lines.{
  member, is_known, line_of, entry_style, entry_of, map_routes_from, map_routes_to_line_ids,
  resolve_line_id,
}
use better_mta.Data.Lines.Laws.{line_in, resolve_line_id-map_routes_to_line_ids}

abbrev route : Text → Text → GtfsRoute
route id name = record {
  route_id = id;
  route_short_name = name;
  route_long_name = [];
  route_color = [];
  route_text_color = [];
}

-- An override, a line under its short name, and a route that is not of the subway.
abbrev routes : List GtfsRoute
routes =
    route (text "6X") (text "6")
    ∷ route (text "r7") (text "7")
    ∷ route (text "M15") (text "M15")
    ∷ []

line_tests :
    (map (λ m. m.line_id) (map_routes_to_line_ids routes).mappings ≡ text "6" ∷ text "7" ∷ [])
    × (map (λ q. q.gtfs_route_id) (map_routes_to_line_ids routes).quarantined ≡ text "M15" ∷ [])
    × (map (λ m. m.display_name) (map_routes_to_line_ids routes).mappings
        ≡ text "6 train" ∷ text "7 train" ∷ [])
unfolding member is_known line_of entry_style entry_of map_routes_from map_routes_to_line_ids ◌===◌
line_tests = (refl, refl, refl)

resolve_line_id-map_routes_to_line_ids_example :
    resolve_line_id (text "r7") (map_routes_to_line_ids routes).mappings ≡ some (text "7")
unfolding line_in line_of member is_known ◌===◌
resolve_line_id-map_routes_to_line_ids_example =
    resolve_line_id-map_routes_to_line_ids (text "r7") routes
