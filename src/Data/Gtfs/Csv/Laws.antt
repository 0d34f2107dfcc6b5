-- ===== src/Data/Gtfs/Csv/Laws.antt =====
-- What `splitCsvLine` and `parseCsv` read back.
use better_mta.Prelude.{
  ℕ, ◌≡◌, refl, sym, ap, ◌∙◌, true, false, List, [], ◌∷◌, ◌++◌, nat_eqb, nat_eqb_iff, All,
  Bool-cases, inl, inr,
}
use better_mta.Prelude.Text.{Text}
use better_mta.Data.Gtfs.Csv.{quote_mark, comma, split_from, split_csv_line}
use mathlib.Core.List.{append_assoc, append-nil}

-- A unit that a field may hold without quotation marks.
abbrev pub IsPlainUnit : ℕ → Type 0
IsPlainUnit c = (nat_eqb c quote_mark ≡ false) × (nat_eqb c comma ≡ false)

-- The text with each quotation mark written twice.
unfoldable pub doubled : Text → Text
doubled [] = []
doubled (c ∷ s) = elim (nat_eqb c quote_mark) [
  | true ↦ quote_mark ∷ quote_mark ∷ doubled s
  | false ↦ c ∷ doubled s
]

-- The ways to write a field: as it is, or in quotation marks.
pub data IsWrittenField : Text → Text → Type 0 where
  plain : {f : Text} → All IsPlainUnit f → IsWrittenField f f
  quoted : {f : Text} → IsWrittenField f (quote_mark ∷ (doubled f ++ (quote_mark ∷ [])))

-- Fields written behind each other, with commas between them.
pub data IsWrittenLine : List Text → Text → Type 0 where
  one : {f w : Text} → IsWrittenField f w → IsWrittenLine (f ∷ []) w
  more :
      {f w line : Text} {fs : List Text}
      → IsWrittenField f w
      → IsWrittenLine fs line
      → IsWrittenLine (f ∷ fs) (w ++ (comma ∷ line))

-- What may stand behind a field in quotation marks: the end or a comma.
abbrev Ends : Text → Type 0
Ends [] = Unit
Ends (c ∷ s) = nat_eqb c quote_mark ≡ false

-- The steps of the loop: a quotation mark that closes, and a unit inside quotes or outside.
split_from-closed :
    (rest : Text) (out : List Text) (cur : Text)
    → Ends rest
    → split_from (quote_mark ∷ rest) out cur true ≡ split_from rest out cur false
unfolding split_from
split_from-closed [] out cur e = refl
split_from-closed (c ∷ s) out cur e =
    ap
      (λ b. elim b [
        | true ↦ split_from s out (cur ++ (quote_mark ∷ [])) true
        | false ↦ split_from (c ∷ s) out cur false
      ])
      e

split_from-inside :
    (c : ℕ) (s : Text) (out : List Text) (cur : Text)
    → nat_eqb c quote_mark ≡ false
    → split_from (c ∷ s) out cur true ≡ split_from s out (cur ++ (c ∷ [])) true
unfolding split_from
split_from-inside c [] out cur h = rw (split_from, h)
split_from-inside c (d ∷ s) out cur h = rw (split_from, h)

split_from-outside :
    (c : ℕ) (s : Text) (out : List Text) (cur : Text)
    → IsPlainUnit c
    → split_from (c ∷ s) out cur false ≡ split_from s out (cur ++ (c ∷ [])) false
unfolding split_from
split_from-outside c [] out cur (h, k) = rw (split_from, h, k)
split_from-outside c (d ∷ s) out cur (h, k) = rw (split_from, h, k)

-- A field in quotation marks up to its end.
split_from-doubled :
    (f rest : Text) (out : List Text) (cur : Text)
    → Ends rest
    → split_from (doubled f ++ (quote_mark ∷ rest)) out cur true
      ≡ split_from rest out (cur ++ f) false
unfolding split_from doubled
split_from-doubled [] rest out cur e =
    split_from-closed rest out cur e ∙ ap (λ t. split_from rest out t false) (sym (append-nil cur))
split_from-doubled (c ∷ s) rest out cur e = elim (Bool-cases (nat_eqb c quote_mark)) [
  | inl mark ↦
      rw (doubled, mark)
        (split_from-doubled s rest out (cur ++ (quote_mark ∷ [])) e
          ∙ ap (λ t. split_from rest out t false)
              (append_assoc cur (quote_mark ∷ []) s
                ∙ ap (λ d. cur ++ (d ∷ s)) (sym ((nat_eqb_iff c quote_mark).0 mark))))
  | inr other ↦
      rw (doubled, other)
        (split_from-inside c (doubled s ++ (quote_mark ∷ rest)) out cur other
          ∙ split_from-doubled s rest out (cur ++ (c ∷ [])) e
          ∙ ap (λ t. split_from rest out t false) (append_assoc cur (c ∷ []) s))
]

split_from-plain :
    (f rest : Text) (out : List Text) (cur : Text)
    → All IsPlainUnit f
    → split_from (f ++ rest) out cur false ≡ split_from rest out (cur ++ f) false
split_from-plain [] rest out cur p = ap (λ t. split_from rest out t false) (sym (append-nil cur))
split_from-plain (c ∷ s) rest out cur (p, ps) =
    split_from-outside c (s ++ rest) out cur p
    ∙ split_from-plain s rest out (cur ++ (c ∷ [])) ps
    ∙ ap (λ t. split_from rest out t false) (append_assoc cur (c ∷ []) s)

split_from-opened :
    (s : Text) (out : List Text) (cur : Text)
    → split_from (quote_mark ∷ s) out cur false ≡ split_from s out cur true
unfolding split_from
split_from-opened [] out cur = refl
split_from-opened (c ∷ s) out cur = refl

-- A written field is read up to the end of the line or to the comma behind it.
split_from-field :
    {f w : Text} (rest : Text) (out : List Text)
    → IsWrittenField f w
    → Ends rest
    → split_from (w ++ rest) out [] false ≡ split_from rest out f false
split_from-field {f} rest out (plain p) e = split_from-plain f rest out [] p
split_from-field {f} rest out (quoted) e =
    split_from-opened ((doubled f ++ (quote_mark ∷ [])) ++ rest) out []
    ∙ ap (λ t. split_from t out [] true) (append_assoc (doubled f) (quote_mark ∷ []) rest)
    ∙ split_from-doubled f rest out [] e

split_from-comma :
    (s : Text) (out : List Text) (cur : Text)
    → split_from (comma ∷ s) out cur false ≡ split_from s (out ++ (cur ∷ [])) [] false
unfolding split_from
split_from-comma [] out cur = refl
split_from-comma (c ∷ s) out cur = refl

split_from-line :
    {fs : List Text} {line : Text} (out : List Text)
    → IsWrittenLine fs line
    → split_from line out [] false ≡ out ++ fs
unfolding split_from
split_from-line out (one {f = f} {w = w} h) =
    ap (λ t. split_from t out [] false) (sym (append-nil w)) ∙ split_from-field [] out h tt
split_from-line out (more {f = f} {w = w} {line = line} {fs = fs} h k) =
    split_from-field (comma ∷ line) out h refl
    ∙ split_from-comma line out f
    ∙ split_from-line (out ++ (f ∷ [])) k
    ∙ append_assoc out (f ∷ []) fs

-- A line made of fields, each written plainly, without quotation marks and commas, or in quotation marks, with those in it doubled, splits into these fields.
pub split_csv_line-IsWrittenLine :
    {fs : List Text} {line : Text} → IsWrittenLine fs line → split_csv_line line ≡ fs
unfolding split_csv_line
split_csv_line-IsWrittenLine h = split_from-line [] h
