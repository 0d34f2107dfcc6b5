-- ===== src/Routing/Satisfaction.antt =====
-- services/routing/src/satisfaction.ts
pub mod Sets
pub mod Selection
pub mod Refusal
pub mod Laws
mod Tests
use better_mta.Prelude.{
  ℕ, Bool, true, false, not, ◌&&◌, ◌||◌, Option, none, some, List, [], ◌∷◌, ◌++◌, map,
  if◌then◌else◌, ltb, nat_eqb, length, filter, any, or_else,
}
use better_mta.Prelude.Text.{Text, ◌===◌, trim}
use better_mta.Prelude.Number.{Number, number, is_finite, ◌+ₙ◌, ◌-ₙ◌, max_zero, round_quotient}
use better_mta.Routing.Types.{
  Host, Leg, transit, walk, TransitLeg, SatisfactionResult, Feasibility, complete, partial,
  infeasible, not_applicable, Tally, max_selected_lines, Result, ok, throw, too_many_selected_lines,
  ◌>>=◌,
}

-- `seen.has(id)`, for a set kept as the list of its members
unfoldable pub contains : List Text → Text → Bool
contains [] id = false
contains (x ∷ xs) id = (x === id) || contains xs id

-- The loop of `normalizeSelectedLineIds`; `seen` and `out` hold the same ids.
unfoldable pub collect : List Text → List Text → List Text
unfolding contains
collect [] out = out
collect (raw ∷ rest) out =
    let id = trim raw in
    collect rest (if (id === []) || contains out id then out else out ++ id ∷ [])

unfoldable pub normalize_selected_line_ids : List Text → Result (List Text)
unfolding collect
normalize_selected_line_ids ids =
    let out = collect ids [] in
    if ltb max_selected_lines (length out)
    then throw (too_many_selected_lines (length out))
    else ok out

unfoldable pub transit_legs_of : List Leg → List TransitLeg
transit_legs_of [] = []
transit_legs_of (transit t ∷ legs) = t ∷ transit_legs_of legs
transit_legs_of (walk w ∷ legs) = transit_legs_of legs

-- The loop of `lineSequenceFromLegs`.
unfoldable pub sequence_from : List TransitLeg → List Text → List Text
unfolding contains
sequence_from [] seq = seq
sequence_from (leg ∷ legs) seq =
    sequence_from legs (if contains seq leg.line_id then seq else seq ++ leg.line_id ∷ [])

unfoldable pub line_sequence_from_legs : List Leg → List Text
unfolding sequence_from transit_legs_of
line_sequence_from_legs legs = sequence_from (transit_legs_of legs) []

-- `out[key] = (out[key] ?? 0) + n`
unfoldable pub add_to : Text → Number → Tally → Tally
add_to key n [] = (key, number 0 +ₙ n) ∷ []
add_to key n ((k, m) ∷ rest) = if k === key then (k, m +ₙ n) ∷ rest else (k, m) ∷ add_to key n rest

-- The ride seconds of one leg: its own duration if it has a finite one, else arrival less departure.
unfoldable pub ride_seconds : Host → TransitLeg → Number
ride_seconds host leg = elim leg.duration_seconds [
  | some n ↦ if is_finite n then max_zero n else by_times
  | none ↦ by_times
]
  where
    by_times : Number
    by_times =
        max_zero
          (round_quotient (host.date_parse leg.arrive_time -ₙ host.date_parse leg.depart_time) 1000)

tally_rides : Host → List TransitLeg → Tally → Tally
tally_rides host [] out = out
tally_rides host (leg ∷ legs) out =
    tally_rides host legs (add_to leg.line_id (ride_seconds host leg) out)

unfoldable pub compute_per_line_ride_seconds : Host → List Leg → Tally
unfolding tally_rides add_to ride_seconds transit_legs_of
compute_per_line_ride_seconds host legs = tally_rides host (transit_legs_of legs) []

-- `usedLineIds.has(id)`
unfoldable pub uses_line : List Leg → Text → Bool
unfolding transit_legs_of contains
uses_line legs id = contains (map (λ leg. leg.line_id) (transit_legs_of legs)) id

-- The result when no line is requested.
abbrev pub nothing_requested : SatisfactionResult
nothing_requested = record {
  requested_line_ids = [];
  satisfied_line_ids = [];
  omitted_line_ids = [];
  satisfaction_count = 0;
  requested_count = 0;
  is_complete = true;
  feasibility = not_applicable;
}

-- The result when some are.
unfoldable pub assess : List Text → List Leg → SatisfactionResult
unfolding uses_line
assess requested legs =
    let satisfied = filter (uses_line legs) requested in
    let done = nat_eqb (length satisfied) (length requested) in
    record {
      requested_line_ids = requested;
      satisfied_line_ids = satisfied;
      omitted_line_ids = filter (λ id. not (uses_line legs id)) requested;
      satisfaction_count = length satisfied;
      requested_count = length requested;
      is_complete = done;
      feasibility =
          if done then complete else if ltb 0 (length satisfied) then partial else infeasible;
    }

-- The result for requested ids that are normalized.
unfoldable pub satisfaction_of : List Text → List Leg → SatisfactionResult
satisfaction_of requested legs =
    if nat_eqb (length requested) 0 then nothing_requested else assess requested legs

unfoldable pub compute_satisfaction : List Text → List Leg → Result SatisfactionResult
compute_satisfaction input legs = do
  requested ← normalize_selected_line_ids input
  ok (satisfaction_of requested legs)
