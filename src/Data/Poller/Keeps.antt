-- ===== src/Data/Poller/Keeps.antt =====
-- services/data/src/realtime-live/poller.ts: the raw feeds that are kept.
use better_mta.Prelude.{
  ◌≡◌, refl, ap, sym, ◌∙◌, Bool, true, false, Option, none, some, [], ◌∷◌, Bool-cases, inl, inr,
  if◌then◌else◌,
}
use mathlib.Core.Path.{subst}
use better_mta.Prelude.Text.{Text, ◌===◌, ===_sound, ===_refl}
use better_mta.Prelude.Number.{Number}
use better_mta.Data.Merge.{ParsedRealtimeFeed}
use better_mta.Data.Poller.{
  Bytes, FetchResult, fetched, fetch_failed, RawFeedLkg, RawStore, get_raw, set_raw, DecodedFeed,
  DecodeResult, decoded, undecodable, FeedPollState, is_hollow, poll_failed, poll_decoded, poll_one,
  replaces, capture,
}

get_raw-set_raw :
    (id : Text) (entry : RawFeedLkg) (store : RawStore)
    → get_raw id (set_raw id entry store) ≡ some entry
unfolding get_raw set_raw
get_raw-set_raw id entry [] = rw (===_refl id) refl
get_raw-set_raw id entry ((k, e) ∷ rest) = elim (Bool-cases (k === id)) [
  | inl same ↦ rw same (rw same refl)
  | inr other ↦ rw other (rw other (get_raw-set_raw id entry rest))
]

get_raw-set_raw_other :
    (id other : Text) (entry : RawFeedLkg) (store : RawStore)
    → (id === other) ≡ false
    → get_raw other (set_raw id entry store) ≡ get_raw other store
unfolding get_raw set_raw
get_raw-set_raw_other id other entry [] h = rw h refl
get_raw-set_raw_other id other entry ((k, e) ∷ rest) h = elim (Bool-cases (k === id)) [
  | inl same ↦
      let apart : (k === other) ≡ false = ap (λ t. t === other) (===_sound k id same) ∙ h in
      rw same (rw apart refl)
  | inr differs ↦ rw differs (elim (Bool-cases (k === other)) [
    | inl found ↦ rw found refl
    | inr not_found ↦ rw not_found (get_raw-set_raw_other id other entry rest h)
  ])
]

module _ {M : Type 0} (decode : Number → Bytes → DecodeResult M)
    (normalize : Text → DecodedFeed M → ParsedRealtimeFeed) where
  -- The bytes kept decoded, at some time, to a message with an entity that can be used.
  abbrev pub IsSolid : Option RawFeedLkg → Type 0
  IsSolid none = ⊥
  IsSolid (some e) =
      (now : Number) × (d : DecodedFeed M) × (decode now e.bytes ≡ decoded d)
      × (is_hollow d ≡ false)

  -- One poll of a feed, from a store to the store after it.
  pub data Poll : RawStore → RawStore → Type 0 where
    poll :
        {store : RawStore} (now : Number) (id at : Text) (r : FetchResult) (st : FeedPollState)
        → Poll store (poll_one decode normalize now id at r st store).raw_store

  pub data Polls : RawStore → RawStore → Type 0 where
    done : {store : RawStore} → Polls store store
    next : {a b c : RawStore} → Polls a b → Poll b c → Polls a c

  kept-IsSolid :
      (now : Number) (id : Text) (e : RawFeedLkg) (d : DecodedFeed M) (store : RawStore)
      (prior : Option RawFeedLkg)
      → decode now e.bytes ≡ decoded d
      → get_raw id store ≡ prior
      → IsSolid prior
      → IsSolid
          (get_raw id (if replaces decode normalize d prior then set_raw id e store else store))
  kept-IsSolid now id e d store none f k h = elim h [ ]
  kept-IsSolid now id e d store (some p) f k h = elim (Bool-cases (is_hollow d)) [
    | inl hollow ↦ rw hollow (subst IsSolid (sym k) h)
    | inr solid ↦ rw solid (subst IsSolid (sym (get_raw-set_raw id e store)) (now, d, f, solid))
  ]

  apart-IsSolid :
      (b : Bool) (id other : Text) (e : RawFeedLkg) (store : RawStore)
      → (id === other) ≡ false
      → IsSolid (get_raw other store)
      → IsSolid (get_raw other (if b then set_raw id e store else store))
  apart-IsSolid true id other e store apart h =
      subst IsSolid (sym (get_raw-set_raw_other id other e store apart)) h
  apart-IsSolid false id other e store apart h = h

  poll_decoded-IsSolid :
      (now : Number) (id other at : Text) (bytes : Bytes) (st : FeedPollState) (store : RawStore)
      (r : DecodeResult M)
      → decode now bytes ≡ r
      → IsSolid (get_raw other store)
      → IsSolid (get_raw other (poll_decoded decode normalize now id at bytes st store r).raw_store)
  unfolding poll_decoded poll_failed
  poll_decoded-IsSolid now id other at bytes st store (undecodable code) e h = h
  poll_decoded-IsSolid now id other at bytes st store (decoded d) e h =
      elim (Bool-cases (id === other)) [
        | inr apart ↦ apart-IsSolid _ id other _ store apart h
        | inl same ↦
            let eq = ===_sound id other same in
            subst
              (λ o. IsSolid (
                get_raw o
                  (poll_decoded decode normalize now id at bytes st store (decoded d)).raw_store))
              eq
              (kept-IsSolid now id (capture decode normalize id at bytes d) d store
                (get_raw id store) e refl (subst (λ o. IsSolid (get_raw o store)) (sym eq) h))
      ]

  poll_one-IsSolid :
      (now : Number) (id other at : Text) (r : FetchResult) (st : FeedPollState) (store : RawStore)
      → IsSolid (get_raw other store)
      → IsSolid (get_raw other (poll_one decode normalize now id at r st store).raw_store)
  unfolding poll_one poll_failed
  poll_one-IsSolid now id other at (fetch_failed message) st store h = h
  poll_one-IsSolid now id other at (fetched bytes) st store h =
      poll_decoded-IsSolid now id other at bytes st store (decode now bytes) refl h

  Poll-IsSolid :
      {a b : RawStore} (other : Text)
      → Poll a b
      → IsSolid (get_raw other a)
      → IsSolid (get_raw other b)
  Poll-IsSolid {a} other (poll now id at r st) h = poll_one-IsSolid now id other at r st a h

-- Once the bytes kept of a feed hold an entity that can be used, they do so after any polls of any feeds: a
-- poll that fails, or that brings a message without such an entity, does not displace them.
pub Polls-IsSolid :
    {M : Type 0} (decode : Number → Bytes → DecodeResult M)
    (normalize : Text → DecodedFeed M → ParsedRealtimeFeed) (id : Text) {before after : RawStore}
    → Polls decode normalize before after
    → IsSolid decode normalize (get_raw id before)
    → IsSolid decode normalize (get_raw id after)
Polls-IsSolid decode normalize id done h = h
Polls-IsSolid decode normalize id (next ps p) h =
    Poll-IsSolid decode normalize id p (Polls-IsSolid decode normalize id ps h)
