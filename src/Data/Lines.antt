-- ===== src/Data/Lines.antt =====
-- services/data/src/line-mapping.ts: the line of each route. An object literal is the list of its own
-- members; route ids named like a member that every object inherits are left out.
pub mod Laws
mod Tests
use Prim.Native.String.{String}
use better_mta.Prelude.{
  Bool, true, false, ◌||◌, Option, none, some, List, [], ◌∷◌, ◌++◌, or_else, or_try, is_some,
  is_empty, if◌then◌else◌, find,
}
use better_mta.Prelude.Text.{Text, text, ◌===◌}
use better_mta.Data.Types.{GtfsRoute, LineMappingEntry, QuarantinedRoute}

pub record LineStyle : Type 0 where
  pub line_color : Text
  pub line_text_color : Text
  pub line_name : Text

-- `object[key]`
unfoldable pub member {ℓ} : {A : Type ℓ} → List (Text × A) → Text → Option A
unfolding ◌===◌
member [] key = none
member ((k, a) ∷ rest) key = if k === key then some a else member rest key

abbrev line : String → String → String → String → Text × LineStyle
line id color text_color name = (
  text id,
  record { line_color = text color; line_text_color = text text_color; line_name = text name },
)

abbrev pub canonical_line_colors : List (Text × LineStyle)
canonical_line_colors =
    line "1" "#EE352E" "#FFFFFF" "1 train"
    ∷ line "2" "#EE352E" "#FFFFFF" "2 train"
    ∷ line "3" "#EE352E" "#FFFFFF" "3 train"
    ∷ line "4" "#00933C" "#FFFFFF" "4 train"
    ∷ line "5" "#00933C" "#FFFFFF" "5 train"
    ∷ line "6" "#00933C" "#FFFFFF" "6 train"
    ∷ line "7" "#B933AD" "#FFFFFF" "7 train"
    ∷ line "A" "#0039A6" "#FFFFFF" "A train"
    ∷ line "B" "#FF6319" "#FFFFFF" "B train"
    ∷ line "C" "#0039A6" "#FFFFFF" "C train"
    ∷ line "D" "#FF6319" "#FFFFFF" "D train"
    ∷ line "E" "#0039A6" "#FFFFFF" "E train"
    ∷ line "F" "#FF6319" "#FFFFFF" "F train"
    ∷ line "G" "#6CBE45" "#FFFFFF" "G train"
    ∷ line "J" "#996633" "#FFFFFF" "J train"
    ∷ line "L" "#A7A9AC" "#000000" "L train"
    ∷ line "M" "#FF6319" "#FFFFFF" "M train"
    ∷ line "N" "#FCCC0A" "#000000" "N train"
    ∷ line "Q" "#FCCC0A" "#000000" "Q train"
    ∷ line "R" "#FCCC0A" "#000000" "R train"
    ∷ line "W" "#FCCC0A" "#000000" "W train"
    ∷ line "Z" "#996633" "#FFFFFF" "Z train"
    ∷ line "GS" "#6D6E71" "#FFFFFF" "42nd Street Shuttle"
    ∷ line "FS" "#6D6E71" "#FFFFFF" "Franklin Avenue Shuttle"
    ∷ line "H" "#6D6E71" "#FFFFFF" "Rockaway Park Shuttle"
    ∷ line "SIR" "#0039A6" "#FFFFFF" "Staten Island Railway"
    ∷ []

-- The ids that GTFS has for a line beside its own.
abbrev pub route_id_overrides : List (Text × Text)
route_id_overrides =
    (text "GS", text "GS")
    ∷ (text "FS", text "FS")
    ∷ (text "H", text "H")
    ∷ (text "SI", text "SIR")
    ∷ (text "SIR", text "SIR")
    ∷ (text "6X", text "6")
    ∷ (text "7X", text "7")
    ∷ (text "FX", text "F")
    ∷ []

-- `KNOWN_LINE_IDS.has(id)`
unfoldable pub is_known : Text → Bool
unfolding member
is_known id = is_some (member canonical_line_colors id)

-- The line of a route, if it has one.
unfoldable pub line_of : GtfsRoute → Option Text
unfolding is_known member
line_of route = or_try (member route_id_overrides route.route_id) (
    if is_known route.route_id
    then some route.route_id
    else if is_known route.route_short_name
    then some route.route_short_name
    else none)

-- `a || b`
abbrev text_or : Text → Text → Text
text_or [] b = b
text_or (c ∷ a) b = c ∷ a

unfoldable pub entry_style : Option LineStyle → GtfsRoute → Text → LineStyle
entry_style (some style) route id = style
entry_style none route id = record {
  line_color = text "#" ++ text_or route.route_color (text "000000");
  line_text_color = text "#" ++ text_or route.route_text_color (text "FFFFFF");
  line_name = text_or route.route_long_name id;
}

unfoldable pub entry_of : GtfsRoute → Text → LineMappingEntry
unfolding member entry_style ◌===◌
entry_of route id =
    let style = entry_style (member canonical_line_colors id) route id in
    record {
      gtfs_route_id = route.route_id;
      line_id = id;
      label = if id === text "SIR" then text "SIR" else id;
      display_name = style.line_name;
      color = style.line_color;
      text_color = style.line_text_color;
      is_shuttle = (id === text "GS") || ((id === text "FS") || (id === text "H"));
    }

pub record LineMappingResult : Type 0 where
  pub mappings : List LineMappingEntry
  pub quarantined : List QuarantinedRoute

-- The loop, from what it has mapped and quarantined. `!lineId` holds for no line id, since none is
-- empty.
unfoldable pub map_routes_from : List GtfsRoute → LineMappingResult → LineMappingResult
map_routes_from [] out = out
map_routes_from (route ∷ routes) out = elim (line_of route) [
  | none ↦ map_routes_from routes (record out {
    quarantined =
        out.quarantined
        ++ record { gtfs_route_id = route.route_id; reason = text "unknown_route_id" } ∷ [];
  })
  | some id ↦
      map_routes_from routes (record out { mappings = out.mappings ++ entry_of route id ∷ [] })
]

unfoldable pub map_routes_to_line_ids : List GtfsRoute → LineMappingResult
unfolding map_routes_from
map_routes_to_line_ids routes = map_routes_from routes (record { mappings = []; quarantined = [] })

-- `mapping.find(...)?.lineId ?? null`
unfoldable pub line_found : Option LineMappingEntry → Option Text
line_found none = none
line_found (some hit) = some hit.line_id

unfoldable pub resolve_line_id : Text → List LineMappingEntry → Option Text
unfolding line_found ◌===◌
resolve_line_id id mapping = line_found (find (λ m. m.gtfs_route_id === id) mapping)
