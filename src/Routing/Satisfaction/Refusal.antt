-- ===== src/Routing/Satisfaction/Refusal.antt =====
-- When `normalizeSelectedLineIds` of services/routing/src/satisfaction.ts throws.
use better_mta.Prelude.{
  ◌≤◌, ◌<◌, ◌≡◌, refl, sym, ◌∙◌, ap, ◌↔◌, inl, inr, true, false, not, List, [], ◌∷◌, Memᴰ, arith,
  Bool-cases, length, filter, length-filter, Memᴰ-filter,
}
use better_mta.Prelude.Text.{Text, trim, ◌===◌, ===_sound, ===_refl}
use better_mta.Routing.Types.{throw, too_many_selected_lines, SearchError, max_selected_lines}
use better_mta.Routing.Satisfaction.{contains, collect, normalize_selected_line_ids}
use better_mta.Routing.Satisfaction.Sets.{IsDistinct, contains-of_Memᴰ}
use better_mta.Routing.Satisfaction.Selection.{
  AreTrimmed, collect-keeps, collect_sound_nil, collect_complete,
}

-- The different ids of a selection: each once, trimmed and not empty, all from the input, and all
-- of the input but the blank ones.
pub record AreDifferentIds (ids out : List Text) : Type 0 where
  pub distinct : IsDistinct out
  pub trimmed : AreTrimmed out
  pub sound : (id : Text) → Memᴰ id out → (raw : Text) × Memᴰ raw ids × (id ≡ trim raw)
  pub complete : (raw : Text) → Memᴰ raw ids → (trim raw === []) ≡ false → Memᴰ (trim raw) out

collect-AreDifferentIds : (ids : List Text) → AreDifferentIds ids (collect ids [])
collect-AreDifferentIds ids =
    let (distinct, trimmed) = collect-keeps ids [] tt tt in
    record {
      distinct = distinct;
      trimmed = trimmed;
      sound = collect_sound_nil ids;
      complete = λ raw m k. collect_complete ids [] m k;
    }

others : Text → List Text → List Text
others x ys = filter (λ y. not (y === x)) ys

length-others : (x : Text) (ys : List Text) → Memᴰ x ys → length (others x ys) < length ys
unfolding others
length-others x [] m = elim m [ ]
length-others x (y ∷ ys) (Memᴰ.head e) =
    let same : (y === x) ≡ true = rw e (===_refl y) in
    let fewer = length-filter (λ y. not (y === x)) ys in rw same (omega arith)
length-others x (y ∷ ys) (Memᴰ.tail m) = ground (arith, length-others x ys m)

-- A list without repetition is no longer than one that has all its items.
length-covered :
    (xs ys : List Text)
    → IsDistinct xs
    → ((id : Text) → Memᴰ id xs → Memᴰ id ys)
    → length xs ≤ length ys
unfolding others
length-covered [] ys d c = omega arith
length-covered (x ∷ xs) ys d c =
    let fewer = length-others x ys (c x (Memᴰ.head refl)) in
    let rest =
      length-covered xs (others x ys) d.1
        (λ id m. Memᴰ-filter (λ y. not (y === x)) ys (c id (Memᴰ.tail m)) (apart xs x id d.0 m)) in
    omega arith
  where
    apart :
        (xs : List Text) (x id : Text) → contains xs x ≡ false → Memᴰ id xs → not (id === x) ≡ true
    apart xs x id h m = elim (Bool-cases (id === x)) [
      | inr f ↦ rw f refl
      | inl t ↦ cc (h, contains-of_Memᴰ xs m, ===_sound id x t)
    ]

AreTrimmed-written :
    (out : List Text) {id : Text} → AreTrimmed out → Memᴰ id out → (id === []) ≡ false
AreTrimmed-written [] t m = elim m [ ]
AreTrimmed-written (x ∷ xs) t (Memᴰ.head e) = rw e t.1
AreTrimmed-written (x ∷ xs) t (Memᴰ.tail m) = AreTrimmed-written xs t.2 m

covered :
    {ids xs ys : List Text}
    → AreDifferentIds ids xs
    → AreDifferentIds ids ys
    → (id : Text) → Memᴰ id xs
    → Memᴰ id ys
covered {ids} {xs} {ys} a b id m =
    let (raw, k, e) = a.sound id m in
    rw e (b.complete raw k (rw (← e) (AreTrimmed-written xs a.trimmed m)))

-- All lists of the different ids are equally long.
length-AreDifferentIds :
    {ids xs ys : List Text}
    → AreDifferentIds ids xs
    → AreDifferentIds ids ys
    → length xs ≡ length ys
length-AreDifferentIds {ids} {xs} {ys} a b =
    let le = length-covered xs ys a.distinct (covered a b) in
    let ge = length-covered ys xs b.distinct (covered b a) in omega arith

throw-collect :
    (ids : List Text) (e : SearchError)
    → (normalize_selected_line_ids ids ≡ throw e) ↔ (
        (max_selected_lines < length (collect ids []))
        × (e ≡ too_many_selected_lines (length (collect ids []))))
unfolding normalize_selected_line_ids
throw-collect ids e = ground arith

-- Normalizing throws exactly when the selection has more than five different ids, which are
-- counted once each, trimmed, and without the blank ones; the error then reports how many.
pub normalize_selected_line_ids-throw_iff :
    (ids : List Text) (e : SearchError)
    → (normalize_selected_line_ids ids ≡ throw e) ↔ (
        (out : List Text) × AreDifferentIds ids out
        × (max_selected_lines < length out)
        × (e ≡ too_many_selected_lines (length out)))
normalize_selected_line_ids-throw_iff ids e = (
  λ h.
      let (many, same) = (throw-collect ids e).0 h in
      (collect ids [], collect-AreDifferentIds ids, many, same),
  λ (out, a, many, same).
      let n = length-AreDifferentIds (collect-AreDifferentIds ids) a in
      (throw-collect ids e).1 (rw n many, same ∙ ap too_many_selected_lines (sym n)),
)
