-- ===== src/Data/Gtfs/Csv/Tests.antt =====
-- Lines and tables of CSV, on small examples.
use better_mta.Prelude.{◌≡◌, refl, List, [], ◌∷◌, arith}
use better_mta.Prelude.Text.{Text, text, ◌===◌, trim}
use better_mta.Routing.Satisfaction.{contains}
use better_mta.Routing.Satisfaction.Sets.{IsDistinct}
use better_mta.Data.Gtfs.Csv.{
  split_csv_line, split_from, fill_row, parse_csv, lines_from, table_of, set_field,
}
use better_mta.Data.Gtfs.Csv.Laws.{IsWrittenLine, plain, quoted, one, more, doubled}
use better_mta.Data.Gtfs.Csv.Table.{done, next, ended, parse_csv-AreRecords}

abbrev names : List Text
names = text "id" ∷ text "name" ∷ []

abbrev cells : List Text
cells = text "A1" ∷ text "5 Av, E" ∷ []

abbrev head : Text
head = text "id,name"

-- The second field is in quotation marks, since it holds a comma.
abbrev row : Text
row = text "A1,\"5 Av, E\""

csv_tests :
    (split_csv_line row ≡ cells)
    × (split_csv_line (text "\"a\"\"b\",,c") ≡ text "a\"b" ∷ [] ∷ text "c" ∷ [])
    × (split_csv_line [] ≡ [] ∷ [])
    × (parse_csv (text "a,b\n1,2\r\n\n3\n")
        ≡ ((text "a", text "1") ∷ (text "b", text "2") ∷ [])
          ∷ ((text "a", text "3") ∷ (text "b", []) ∷ [])
          ∷ [])
unfolding split_csv_line split_from parse_csv lines_from table_of fill_row set_field ◌===◌ trim
csv_tests = (refl, refl, refl, refl)

head-IsWrittenLine : IsWrittenLine names head
head-IsWrittenLine = more (plain (ground arith)) (one (plain (ground arith)))

row-IsWrittenLine : IsWrittenLine cells row
unfolding doubled
row-IsWrittenLine = more (plain (ground arith)) (one quoted)

names-IsDistinct : IsDistinct names
unfolding contains ◌===◌
names-IsDistinct = (refl, (refl, tt))

parse_csv-AreRecords_example :
    parse_csv (0xfeff ∷ ended (head ∷ row ∷ []))
    ≡ ((text "id", text "A1") ∷ (text "name", text "5 Av, E") ∷ []) ∷ []
unfolding trim
parse_csv-AreRecords_example =
    parse_csv-AreRecords {names = names} {head = head} {rows = cells ∷ []} {lines = row ∷ []}
      names-IsDistinct (head-IsWrittenLine, ground arith, refl)
      (next (row-IsWrittenLine, ground arith, refl) done)
