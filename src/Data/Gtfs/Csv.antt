-- ===== src/Data/Gtfs/Csv.antt =====
-- `parseCsv` and `splitCsvLine` of services/data/src/static/gtfs-parser.ts.
pub mod Laws
pub mod Table
mod Tests
use better_mta.Prelude.{
  ℕ, Bool, true, false, not, List, [], ◌∷◌, ◌++◌, map, Option, none, some, nat_eqb, if◌then◌else◌,
  filter, is_empty,
}
use better_mta.Prelude.Text.{Text, ◌===◌, trim}

abbrev pub quote_mark : ℕ
quote_mark = 0x22

abbrev pub comma : ℕ
comma = 0x2c

-- The loop over the rest of the line, with `out`, `cur` and `inQuotes`; a quotation mark inside
-- quotes reads the next unit too.
unfoldable pub split_from : Text → List Text → Text → Bool → List Text
split_from [] out cur in_quotes = out ++ (cur ∷ [])
split_from (c ∷ []) out cur true = elim (nat_eqb c quote_mark) [
  | true ↦ split_from [] out cur false
  | false ↦ split_from [] out (cur ++ (c ∷ [])) true
]
split_from (c ∷ d ∷ s) out cur true = elim (nat_eqb c quote_mark) [
  | true ↦ elim (nat_eqb d quote_mark) [
    | true ↦ split_from s out (cur ++ (quote_mark ∷ [])) true
    | false ↦ split_from (d ∷ s) out cur false
  ]
  | false ↦ split_from (d ∷ s) out (cur ++ (c ∷ [])) true
]
split_from (c ∷ s) out cur false = elim (nat_eqb c quote_mark) [
  | true ↦ split_from s out cur true
  | false ↦ elim (nat_eqb c comma) [
    | true ↦ split_from s (out ++ (cur ∷ [])) [] false
    | false ↦ split_from s out (cur ++ (c ∷ [])) false
  ]
]

unfoldable pub split_csv_line : Text → List Text
unfolding split_from
split_csv_line line = split_from line [] [] false

-- `content.replace(/^\uFEFF/, "")`
abbrev pub drop_mark : Text → Text
drop_mark [] = []
drop_mark (c ∷ s) = if nat_eqb c 0xfeff then s else c ∷ s

-- `split(/\r?\n/)` of the rest, behind the units of the line so far.
unfoldable pub lines_from : Text → Text → List Text
lines_from [] cur = cur ∷ []
lines_from (c ∷ []) cur = elim (nat_eqb c 0x0a) [
  | true ↦ cur ∷ [] ∷ []
  | false ↦ (cur ++ (c ∷ [])) ∷ []
]
lines_from (c ∷ d ∷ s) cur = elim (nat_eqb c 0x0a) [
  | true ↦ cur ∷ lines_from (d ∷ s) []
  | false ↦ elim (nat_eqb c 0x0d) [
    | true ↦ elim (nat_eqb d 0x0a) [
      | true ↦ cur ∷ lines_from s []
      | false ↦ lines_from (d ∷ s) (cur ++ (c ∷ []))
    ]
    | false ↦ lines_from (d ∷ s) (cur ++ (c ∷ []))
  ]
]

-- `Record<string, string>`
abbrev pub Row : Type 0
Row = List (Text × Text)

-- `row[name] = value`
unfoldable pub set_field : Text → Text → Row → Row
set_field name value [] = (name, value) ∷ []
set_field name value ((key, old) ∷ row) =
    let rest = set_field name value row in
    if key === name then (key, value) ∷ row else (key, old) ∷ rest

-- `row[name]`
unfoldable pub field : Text → Row → Option Text
field name [] = none
field name ((key, value) ∷ row) = if key === name then some value else field name row

-- The loop over the headers; a column that is missing is empty.
unfoldable pub fill_row : List Text → List Text → Row → Row
unfolding set_field
fill_row [] cols row = row
fill_row (header ∷ headers) [] row = fill_row headers [] (set_field header [] row)
fill_row (header ∷ headers) (col ∷ cols) row = fill_row headers cols (set_field header col row)

-- The rows of the lines that are not blank, under the first of them.
unfoldable pub table_of : List Text → List Row
unfolding split_csv_line fill_row
table_of [] = []
table_of (head ∷ lines) =
    map (λ line. fill_row (split_csv_line head) (split_csv_line line) []) lines

abbrev pub is_written : Text → Bool
is_written line = not (is_empty (trim line))

unfoldable pub parse_csv : Text → List Row
unfolding lines_from table_of
parse_csv content = table_of (filter is_written (lines_from (drop_mark content) []))
