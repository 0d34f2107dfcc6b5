-- ===== src/Data/Gtfs/Csv/Table.antt =====
-- The rows that `parseCsv` reads from a table of lines.
use better_mta.Prelude.{
  ℕ, ◌≡◌, refl, sym, ap, ◌∙◌, true, false, List, [], ◌∷◌, ◌++◌, map, nat_eqb, All, filter,
  Bool-cases, inl, inr,
}
use better_mta.Prelude.Text.{Text, trim, ◌===◌}
use better_mta.Data.Gtfs.Csv.{
  Row, set_field, split_csv_line, lines_from, fill_row, table_of, is_written, parse_csv,
}
use better_mta.Routing.Satisfaction.{contains}
use better_mta.Routing.Satisfaction.Sets.{IsDistinct, IsDistinct-middle}
use better_mta.Data.Gtfs.Csv.Laws.{IsWrittenLine, split_csv_line-IsWrittenLine}
use mathlib.Core.List.{append_assoc, append-nil, map-append}

-- The line holds no end of a line.
abbrev pub IsSingle : Text → Type 0
IsSingle = All (λ c. (nat_eqb c 0x0a ≡ false) × (nat_eqb c 0x0d ≡ false))

-- Lines with an end of the line behind each.
unfoldable pub ended : List Text → Text
ended [] = []
ended (line ∷ lines) = line ++ (0x0a ∷ ended lines)

lines_from-inside :
    (c : ℕ) (s cur : Text)
    → (nat_eqb c 0x0a ≡ false) × (nat_eqb c 0x0d ≡ false)
    → lines_from (c ∷ s) cur ≡ lines_from s (cur ++ (c ∷ []))
unfolding lines_from
lines_from-inside c [] cur (h, k) = rw (lines_from, h)
lines_from-inside c (d ∷ s) cur (h, k) = rw (lines_from, h, k)

lines_from-end : (s cur : Text) → lines_from (0x0a ∷ s) cur ≡ cur ∷ lines_from s []
unfolding lines_from
lines_from-end [] cur = refl
lines_from-end (c ∷ s) cur = refl

lines_from-line :
    (line s cur : Text)
    → IsSingle line
    → lines_from (line ++ (0x0a ∷ s)) cur ≡ (cur ++ line) ∷ lines_from s []
lines_from-line [] s cur p =
    lines_from-end s cur ∙ ap (λ t. t ∷ lines_from s []) (sym (append-nil cur))
lines_from-line (c ∷ line) s cur (p, ps) =
    lines_from-inside c (line ++ (0x0a ∷ s)) cur p
    ∙ lines_from-line line s (cur ++ (c ∷ [])) ps
    ∙ ap (λ t. t ∷ lines_from s []) (append_assoc cur (c ∷ []) line)

lines_from-ended :
    (lines : List Text) → All IsSingle lines → lines_from (ended lines) [] ≡ lines ++ ([] ∷ [])
unfolding lines_from ended
lines_from-ended [] p = refl
lines_from-ended (line ∷ lines) (p, ps) =
    lines_from-line line (ended lines) [] p ∙ ap (λ t. line ∷ t) (lines_from-ended lines ps)

filter-All :
    (lines : List Text)
    → All (λ l. is_written l ≡ true) lines
    → filter is_written (lines ++ ([] ∷ [])) ≡ lines
unfolding trim
filter-All [] p = refl
filter-All (line ∷ lines) (p, ps) = rw p (ap (λ t. line ∷ t) (filter-All lines ps))

-- A line of the file with these fields: not blank, and without an end of the line in it.
abbrev pub IsRecord : List Text → Text → Type 0
IsRecord cols line = IsWrittenLine cols line × IsSingle line × (is_written line ≡ true)

pub data AreRecords : List (List Text) → List Text → Type 0 where
  done : AreRecords [] []
  next :
      {cols : List Text} {line : Text} {rows : List (List Text)} {lines : List Text}
      → IsRecord cols line
      → AreRecords rows lines
      → AreRecords (cols ∷ rows) (line ∷ lines)

All-IsSingle :
    {rows : List (List Text)} {lines : List Text} → AreRecords rows lines → All IsSingle lines
All-IsSingle done = tt
All-IsSingle (next h t) = (h.1, All-IsSingle t)

All-is_written :
    {rows : List (List Text)} {lines : List Text}
    → AreRecords rows lines
    → All (λ l. is_written l ≡ true) lines
All-is_written done = tt
All-is_written (next h t) = (h.2, All-is_written t)

rows_of :
    {rows : List (List Text)} {lines : List Text} (names : List Text)
    → AreRecords rows lines
    → map (λ line. fill_row names (split_csv_line line) []) lines
      ≡ map (λ cols. fill_row names cols []) rows
rows_of names done = refl
rows_of names (next {cols} {line} {rows} {lines} h t) =
    rw (split_csv_line-IsWrittenLine h.0) (ap (λ r. fill_row names cols [] ∷ r) (rows_of names t))

table_of-AreRecords :
    {names : List Text} {head : Text} {rows : List (List Text)} {lines : List Text}
    → IsRecord names head
    → AreRecords rows lines
    → table_of (head ∷ lines) ≡ map (λ cols. fill_row names cols []) rows
unfolding table_of
table_of-AreRecords {names} h t = rw (split_csv_line-IsWrittenLine h.0) (rows_of names t)

-- The fields of a line under the headers, in order: a field that is missing is empty, and what
-- exceeds the headers is not read.
abbrev pub labelled : List Text → List Text → Row
labelled [] cols = []
labelled (header ∷ headers) [] = (header, []) ∷ labelled headers []
labelled (header ∷ headers) (col ∷ cols) = (header, col) ∷ labelled headers cols

set_field-new :
    (name value : Text) (row : Row)
    → contains (map (λ (f : Text × Text). f.0) row) name ≡ false
    → set_field name value row ≡ row ++ ((name, value) ∷ [])
unfolding set_field contains
set_field-new name value [] h = refl
set_field-new name value ((key, old) ∷ row) h = elim (Bool-cases (key === name)) [
  | inl t ↦ cc (rw t at h)
  | inr f ↦ rw f (ap (λ r. (key, old) ∷ r) (set_field-new name value row (rw f at h)))
]

-- The headers are different, and none is a key of the row.
IsFresh : List Text → Row → Type 0
IsFresh headers row = IsDistinct (map (λ (f : Text × Text). f.0) row ++ headers)

IsFresh-set :
    (header value : Text) (headers : List Text) (row : Row)
    → IsFresh (header ∷ headers) row
    → IsFresh headers (row ++ ((header, value) ∷ []))
unfolding IsFresh
IsFresh-set header value headers row d =
    rw (map-append (λ (f : Text × Text). f.0) row ((header, value) ∷ []))
      (rw (append_assoc (map (λ (f : Text × Text). f.0) row) (header ∷ []) headers) d)

fill_row-labelled :
    (headers cols : List Text) (row : Row)
    → IsFresh headers row
    → fill_row headers cols row ≡ row ++ labelled headers cols
unfolding fill_row IsFresh
fill_row-labelled [] cols row d = sym (append-nil row)
fill_row-labelled (header ∷ headers) [] row d =
    rw (set_field-new header [] row (IsDistinct-middle _ headers header d)) (
      fill_row-labelled headers [] (row ++ ((header, []) ∷ []))
        (IsFresh-set header [] headers row d)
      ∙ append_assoc row ((header, []) ∷ []) (labelled headers []))
fill_row-labelled (header ∷ headers) (col ∷ cols) row d =
    rw (set_field-new header col row (IsDistinct-middle _ headers header d)) (
      fill_row-labelled headers cols (row ++ ((header, col) ∷ []))
        (IsFresh-set header col headers row d)
      ∙ append_assoc row ((header, col) ∷ []) (labelled headers cols))

map-labelled :
    (names : List Text) (rows : List (List Text))
    → IsDistinct names
    → map (λ cols. fill_row names cols []) rows ≡ map (labelled names) rows
unfolding IsFresh
map-labelled names [] d = refl
map-labelled names (cols ∷ rows) d =
    rw (fill_row-labelled names cols [] d)
      (ap (λ r. labelled names cols ∷ r) (map-labelled names rows d))

-- A file made of a line of headers, all different, and lines of fields, each ended by a line feed,
-- is read as one row for each line: the pairs of a header and the field in its place, in order,
-- empty where the line has no field there. Each field is written plainly or in quotation marks, no
-- line is blank or has a line feed or a carriage return in it, and the file begins with a byte
-- order mark.
pub parse_csv-AreRecords :
    {names : List Text} {head : Text} {rows : List (List Text)} {lines : List Text}
    → IsDistinct names
    → IsRecord names head
    → AreRecords rows lines
    → parse_csv (0xfeff ∷ ended (head ∷ lines)) ≡ map (labelled names) rows
unfolding parse_csv
parse_csv-AreRecords {names} {head} {rows} {lines} d h t =
    ap (λ l. table_of (filter is_written l)) (lines_from-ended (head ∷ lines) (h.1, All-IsSingle t))
    ∙ ap table_of (filter-All (head ∷ lines) (h.2, All-is_written t))
    ∙ table_of-AreRecords h t
    ∙ map-labelled names rows d
