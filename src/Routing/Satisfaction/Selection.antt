-- ===== src/Routing/Satisfaction/Selection.antt =====
-- What `normalizeSelectedLineIds` returns.
use mathlib.Core.List.{append_assoc, append-nil}
use better_mta.Prelude.{
  ◌≤◌, ◌≡◌, refl, ap, sym, ◌∙◌, ◌⊎◌, inl, inr, false, ◌||◌, List, [], ◌∷◌, ◌++◌, Memᴰ, arith,
  Bool-cases, if◌then◌else◌, length, Memᴰ-append_left, Memᴰ-append_right, Memᴰ-append_cases,
}
use better_mta.Prelude.Text.{Text, trim, ◌===◌}
use better_mta.Prelude.Text.Trim.{trim_idempotent}
use better_mta.Routing.Types.{ok, max_selected_lines}
use better_mta.Routing.Satisfaction.{contains, collect, normalize_selected_line_ids}
use better_mta.Routing.Satisfaction.Sets.{
  IsDistinct, IsDistinct-snoc, IsDistinct-middle, Memᴰ-of_contains,
}

-- Each id is trimmed and not empty.
abbrev pub AreTrimmed : List Text → Type 0
AreTrimmed [] = Unit
AreTrimmed (x ∷ xs) = (trim x ≡ x) × ((x === []) ≡ false) × AreTrimmed xs

AreTrimmed-snoc :
    (xs : List Text) (x : Text)
    → AreTrimmed xs
    → trim x ≡ x
    → (x === []) ≡ false
    → AreTrimmed (xs ++ x ∷ [])
AreTrimmed-snoc [] x t h k = (h, k, tt)
AreTrimmed-snoc (y ∷ ys) x t h k = (t.0, t.1, AreTrimmed-snoc ys x t.2 h k)

-- What one round of the loop does to the list.
abbrev step : Text → List Text → List Text
step id out = if (id === []) || contains out id then out else out ++ id ∷ []

step-keeps :
    (raw : Text) (out : List Text)
    → IsDistinct out
    → AreTrimmed out
    → IsDistinct (step (trim raw) out) × AreTrimmed (step (trim raw) out)
step-keeps raw out d t = elim (Bool-cases ((trim raw === []) || contains out (trim raw))) [
  | inl skip ↦ rw skip (d, t)
  | inr new ↦ rw new (
    IsDistinct-snoc out (trim raw) d (ground arith),
    AreTrimmed-snoc out (trim raw) t (trim_idempotent raw) (ground arith),
  )
]

pub collect-keeps :
    (ids out : List Text)
    → IsDistinct out
    → AreTrimmed out
    → IsDistinct (collect ids out) × AreTrimmed (collect ids out)
unfolding collect
collect-keeps [] out d t = (d, t)
collect-keeps (raw ∷ ids) out d t =
    let (d', t') = step-keeps raw out d t in collect-keeps ids (step (trim raw) out) d' t'

step-Memᴰ :
    (raw : Text) (out : List Text) {id : Text}
    → Memᴰ id (step (trim raw) out)
    → Memᴰ id out ⊎ (id ≡ trim raw)
step-Memᴰ raw out m = elim (Bool-cases ((trim raw === []) || contains out (trim raw))) [
  | inl skip ↦ inl (rw skip at m)
  | inr new ↦ elim (Memᴰ-append_cases out (trim raw ∷ []) (rw new at m)) [
    | inl old ↦ inl old
    | inr last ↦ inr (only last)
  ]
]
  where
    only : {a b : Text} → Memᴰ a (b ∷ []) → a ≡ b
    only (Memᴰ.head e) = e
    only (Memᴰ.tail k) = elim k [ ]

-- Nothing is made up.
collect_sound :
    (ids out : List Text) {id : Text}
    → Memᴰ id (collect ids out)
    → Memᴰ id out ⊎ ((raw : Text) × Memᴰ raw ids × (id ≡ trim raw))
unfolding collect
collect_sound [] out m = inl m
collect_sound (raw ∷ ids) out m = elim (collect_sound ids (step (trim raw) out) m) [
  | inr (other, k, e) ↦ inr (other, Memᴰ.tail k, e)
  | inl k ↦ elim (step-Memᴰ raw out k) [ inl old ↦ inl old | inr e ↦ inr (raw, Memᴰ.head refl, e) ]
]

step-grows :
    (raw : Text) (out : List Text) {id : Text} → Memᴰ id out → Memᴰ id (step (trim raw) out)
step-grows raw out m = elim (Bool-cases ((trim raw === []) || contains out (trim raw))) [
  | inl skip ↦ rw skip m
  | inr new ↦ rw new (Memᴰ-append_left out (trim raw ∷ []) m)
]

step-takes :
    (raw : Text) (out : List Text)
    → (trim raw === []) ≡ false
    → Memᴰ (trim raw) (step (trim raw) out)
step-takes raw out h = elim (Bool-cases (contains out (trim raw))) [
  | inl old ↦ rw (h, old) (Memᴰ-of_contains out (trim raw) old)
  | inr new ↦ rw (h, new) (Memᴰ-append_right out (trim raw ∷ []) (Memᴰ.head refl))
]

collect-grows : (ids out : List Text) {id : Text} → Memᴰ id out → Memᴰ id (collect ids out)
unfolding collect
collect-grows [] out m = m
collect-grows (raw ∷ ids) out m = collect-grows ids (step (trim raw) out) (step-grows raw out m)

-- Nothing but empty ids is lost.
pub collect_complete :
    (ids out : List Text) {raw : Text}
    → Memᴰ raw ids
    → (trim raw === []) ≡ false
    → Memᴰ (trim raw) (collect ids out)
unfolding collect
collect_complete [] out m h = elim m [ ]
collect_complete (x ∷ ids) out {raw} (Memᴰ.head e) h =
    collect-grows ids (step (trim x) out) (rw e (step-takes x out (rw e at h)))
collect_complete (x ∷ ids) out (Memᴰ.tail m) h = collect_complete ids (step (trim x) out) m h

collect_of_normal :
    (ids out : List Text) → IsDistinct (out ++ ids) → AreTrimmed ids → collect ids out ≡ out ++ ids
unfolding collect
collect_of_normal [] out d t = sym (append-nil out)
collect_of_normal (id ∷ ids) out d t =
    rw (t.0, t.1, IsDistinct-middle out ids id d)
      (collect_of_normal ids (out ++ id ∷ []) (rw append_assoc d) t.2
        ∙ append_assoc out (id ∷ []) ids)

normalize-ok :
    (ids : List Text)
    → length (collect ids []) ≤ max_selected_lines
    → normalize_selected_line_ids ids ≡ ok (collect ids [])
unfolding normalize_selected_line_ids
normalize-ok ids h = ground arith

collected :
    (ids : List Text) {out : List Text}
    → normalize_selected_line_ids ids ≡ ok out
    → (collect ids [] ≡ out) × (length (collect ids []) ≤ max_selected_lines)
unfolding normalize_selected_line_ids
collected ids h = (ground arith, ground arith)

pub record IsSelectionOf (ids out : List Text) : Type 0 where
  pub distinct : IsDistinct out
  pub trimmed : AreTrimmed out
  pub within : length out ≤ max_selected_lines
  pub sound : (id : Text) → Memᴰ id out → (raw : Text) × Memᴰ raw ids × (id ≡ trim raw)
  pub complete : (raw : Text) → Memᴰ raw ids → (trim raw === []) ≡ false → Memᴰ (trim raw) out

pub collect_sound_nil :
    (ids : List Text) (id : Text)
    → Memᴰ id (collect ids [])
    → (raw : Text) × Memᴰ raw ids × (id ≡ trim raw)
collect_sound_nil ids id m = elim (collect_sound ids [] m) [ inl k ↦ elim k [ ] | inr r ↦ r ]

-- A selection that is returned has no id twice and at most five of them, each trimmed and not empty;
-- every id of it is an id of the input, trimmed, and every id of the input that is not blank is in
-- it, trimmed.
pub normalize_selected_line_ids-IsSelectionOf :
    (ids out : List Text) → normalize_selected_line_ids ids ≡ ok out → IsSelectionOf ids out
normalize_selected_line_ids-IsSelectionOf ids out h =
    let (same, fits) = collected ids h in
    let (distinct, trimmed) = collect-keeps ids [] tt tt in
    rw (← same) (record {
      distinct = distinct;
      trimmed = trimmed;
      within = fits;
      sound = collect_sound_nil ids;
      complete = λ raw m k. collect_complete ids [] m k;
    })

-- Normalizing a selection that was returned returns it again.
pub normalize_selected_line_ids_idempotent :
    (ids out : List Text)
    → normalize_selected_line_ids ids ≡ ok out
    → normalize_selected_line_ids out ≡ ok out
normalize_selected_line_ids_idempotent ids out h =
    let s = normalize_selected_line_ids-IsSelectionOf ids out h in
    let same : collect out [] ≡ out = collect_of_normal out [] s.distinct s.trimmed in
    normalize-ok out (rw same s.within) ∙ ap ok same
