-- ===== src/Routing/Validate/Laws.antt =====
-- The drafts that the validity gate lets through.
use better_mta.Prelude.{
  ◌≡◌, ◌↔◌, refl, true, false, Option, none, some, List, [], ◌∷◌, arith, All, is_empty,
}
use better_mta.Prelude.Number.{
  number_leb_trans, Number, nan, inf, neg_inf, finite, is_finite, number_ltb, number_leb,
}
use better_mta.Routing.Types.{Host, Leg, transit, walk, TransitLeg, WalkingLeg, Draft}
use better_mta.Routing.Satisfaction.{transit_legs_of}
use better_mta.Routing.Validate.{
  valid, is_non_negative, overlaps, check_legs, validate_candidate_draft,
}

ltb-false_iff :
    (a b : Number)
    → is_finite a ≡ true
    → is_finite b ≡ true
    → (number_ltb b a ≡ false) ↔ (number_leb a b ≡ true)
ltb-false_iff (finite a) (finite b) p q = ground arith
ltb-false_iff nan b p q = cc
ltb-false_iff inf b p q = cc
ltb-false_iff neg_inf b p q = cc
ltb-false_iff (finite a) nan p q = cc
ltb-false_iff (finite a) inf p q = cc
ltb-false_iff (finite a) neg_inf p q = cc

module _ (host : Host) where
  abbrev pub depart_ms : TransitLeg → Number
  depart_ms t = host.date_parse t.depart_time

  abbrev pub arrive_ms : TransitLeg → Number
  arrive_ms t = host.date_parse t.arrive_time

  -- Both times are dates, and the train does not arrive before it departs.
  abbrev pub RunsForward : TransitLeg → Type 0
  RunsForward t =
      (is_finite (depart_ms t) ≡ true)
      × (is_finite (arrive_ms t) ≡ true)
      × (number_leb (depart_ms t) (arrive_ms t) ≡ true)

  -- `u` departs no earlier than `m`.
  abbrev pub Follows : Number → TransitLeg → Type 0
  Follows m u = number_leb m (depart_ms u) ≡ true

  -- Each train runs forward, and no later one departs before it has arrived.
  abbrev pub IsChronological : List TransitLeg → Type 0
  IsChronological [] = Unit
  IsChronological (t ∷ ts) = RunsForward t × All (Follows (arrive_ms t)) ts × IsChronological ts

  abbrev FollowsLast : Option Number → TransitLeg → Type 0
  FollowsLast none u = Unit
  FollowsLast (some m) u = Follows m u

  abbrev IsDated : Option Number → Type 0
  IsDated none = Unit
  IsDated (some m) = is_finite m ≡ true

  All-Follows :
      (p : Option Number) (t : TransitLeg) (ts : List TransitLeg)
      → FollowsLast p t
      → RunsForward t
      → All (Follows (arrive_ms t)) ts
      → All (FollowsLast p) ts
  All-Follows p t [] h r a = tt
  All-Follows none t (u ∷ ts) h r a = (tt, All-Follows none t ts h r a.1)
  All-Follows (some m) t (u ∷ ts) h r a = (
    number_leb_trans m (depart_ms t) (depart_ms u) h
        (number_leb_trans (depart_ms t) (arrive_ms t) (depart_ms u) r.2 a.0),
    All-Follows (some m) t ts h r a.1,
  )

  overlaps-false_iff :
      (p : Option Number) (t : TransitLeg)
      → IsDated p
      → is_finite (depart_ms t) ≡ true
      → (overlaps p (depart_ms t) ≡ false) ↔ FollowsLast p t
  unfolding overlaps
  overlaps-false_iff none t d f = ((λ _. tt), λ _. refl)
  overlaps-false_iff (some m) t d f = ltb-false_iff m (depart_ms t) d f

  -- One round of the loop.
  check_legs-transit_iff :
      (t : TransitLeg) (legs : List Leg) (p : Option Number)
      → IsDated p
      → (check_legs host (transit t ∷ legs) p ≡ valid)
        ↔ (RunsForward t × FollowsLast p t × (check_legs host legs (some (arrive_ms t)) ≡ valid))
  unfolding check_legs
  check_legs-transit_iff t legs p d = (to, from)
    where
      to :
          check_legs host (transit t ∷ legs) p ≡ valid
          → RunsForward t × FollowsLast p t × (check_legs host legs (some (arrive_ms t)) ≡ valid)
      to h =
          let departs : is_finite (depart_ms t) ≡ true = ground arith in
          let arrives : is_finite (arrive_ms t) ≡ true = ground arith in
          let forward : number_ltb (arrive_ms t) (depart_ms t) ≡ false = ground arith in
          let apart : overlaps p (depart_ms t) ≡ false = ground arith in
          (
            (departs, arrives, (ltb-false_iff _ _ departs arrives).0 forward),
            (overlaps-false_iff p t d departs).0 apart,
            ground arith,
          )

      from :
          RunsForward t × FollowsLast p t × (check_legs host legs (some (arrive_ms t)) ≡ valid)
          → check_legs host (transit t ∷ legs) p ≡ valid
      from (r, f, h) =
          let forward = (ltb-false_iff _ _ r.0 r.1).1 r.2 in
          let apart = (overlaps-false_iff p t d r.0).1 f in rw (r.0, r.1, forward, apart) h

  abbrev Checks : List Leg → Option Number → Type 0
  Checks legs p =
      (check_legs host legs p ≡ valid)
      ↔ (All (FollowsLast p) (transit_legs_of legs) × IsChronological (transit_legs_of legs))

  check_legs-walk :
      (w : WalkingLeg) (legs : List Leg) (p : Option Number)
      → Checks legs p
      → Checks (walk w ∷ legs) p
  unfolding check_legs transit_legs_of
  check_legs-walk w legs p c = c

  check_legs-transit :
      (t : TransitLeg) (legs : List Leg) (p : Option Number)
      → IsDated p
      → (IsDated (some (arrive_ms t)) → Checks legs (some (arrive_ms t)))
      → Checks (transit t ∷ legs) p
  unfolding transit_legs_of
  check_legs-transit t legs p d rest = (
    (λ h.
        let (r, f, valid_rest) = (check_legs-transit_iff t legs p d).0 h in
        let (a, c) = (rest r.1).0 valid_rest in
        ((f, All-Follows p t (transit_legs_of legs) f r a), (r, a, c))),
    λ (a, c). (check_legs-transit_iff t legs p d).1 (c.0, a.0, (rest c.0.1).1 (c.1, c.2)),
  )

  check_legs_iff : (legs : List Leg) (p : Option Number) → IsDated p → Checks legs p
  check_legs_iff [] p d = unfold check_legs transit_legs_of in ((λ _. (tt, tt)), λ _. refl)
  check_legs_iff (walk w ∷ legs) p d = check_legs-walk w legs p (check_legs_iff legs p d)
  check_legs_iff (transit t ∷ legs) p d =
      check_legs-transit t legs p d (check_legs_iff legs (some (arrive_ms t)))

  All-Anything : (ts : List TransitLeg) → All (FollowsLast none) ts
  All-Anything [] = tt
  All-Anything (t ∷ ts) = (tt, All-Anything ts)

  -- A draft that may be ranked: it has legs, its metrics are finite and not negative, its trains run
  -- forward, and no train departs before an earlier one of the draft has arrived.
  pub record IsValidDraft (draft : Draft) : Type 0 where
    pub has_legs : is_empty draft.legs ≡ false
    pub duration : is_non_negative draft.duration_seconds ≡ true
    pub walking : is_non_negative draft.walking_seconds ≡ true
    pub waiting : is_non_negative draft.waiting_seconds ≡ true
    pub transfers : is_non_negative draft.transfer_count ≡ true
    pub chronological : IsChronological (transit_legs_of draft.legs)

  -- The gate lets a draft through exactly when it has legs, its metrics are finite and not negative,
  -- its trains run forward between dates, and no train departs before an earlier one has arrived.
  pub validate_candidate_draft_iff :
      (draft : Draft) → (validate_candidate_draft host draft ≡ valid) ↔ IsValidDraft draft
  unfolding validate_candidate_draft
  validate_candidate_draft_iff draft = (
    (λ h. record {
      has_legs = ground arith;
      duration = ground arith;
      walking = ground arith;
      waiting = ground arith;
      transfers = ground arith;
      chronological = ((check_legs_iff draft.legs none tt).0 (ground arith)).1;
    }),
    λ v.
        rw (v.has_legs, v.duration, v.walking, v.waiting, v.transfers)
          ((check_legs_iff draft.legs none tt).1 (All-Anything _, v.chronological)),
  )
