-- ===== src/Data/Poller/Tests.antt =====
-- A poller whose first attempt fails, and polls of a feed.
use better_mta.Prelude.{ℕ, zero, suc, ◌≡◌, ◌↔◌, refl, true, false, none, some, [], ◌∷◌}
use better_mta.Prelude.Text.{Text, text, ◌===◌, show_ℕ}
use better_mta.Prelude.Number.{Number, number}
use better_mta.Data.Merge.{ParsedRealtimeFeed}
use better_mta.Data.Poller.{
  Bytes, fetched, fetch_failed, read_chunks, Response, answered, fetch_once, Network, after_attempt,
  fetch_from, fetch_with_retries, RawStore, get_raw, set_raw, DecodedFeed, DecodeResult, decoded,
  undecodable, FeedPollState, is_hollow, failure_input, poll_failed, poll_decoded, poll_one, Polled,
}
use better_mta.Data.Poller.Fetch.{FirstSuccess, fetch_with_retries-FirstSuccess}
use better_mta.Data.Poller.Keeps.{IsSolid, poll, done, next, Polls-IsSolid}

abbrev responses : ℕ → Response
responses zero = answered false 503 []
responses (suc n) = answered true 200 ((1 ∷ []) ∷ (2 ∷ 3 ∷ []) ∷ [])

abbrev network : Network
network = record { respond = responses; is_stopped = λ n. false; wakes = λ n. false }

fetch_tests :
    (fetch_with_retries 10 2 network ≡ fetched (1 ∷ 2 ∷ 3 ∷ []))
    × (fetch_with_retries 2 2 network ≡ fetch_failed (text "response_too_large:3"))
    × (fetch_with_retries 10 0 network ≡ fetch_failed (text "HTTP 503"))
unfolding fetch_from after_attempt fetch_once read_chunks show_ℕ
fetch_tests = (refl, refl, refl)

fetch_with_retries-FirstSuccess_example :
    (fetch_with_retries 10 2 network ≡ fetched (1 ∷ 2 ∷ 3 ∷ []))
    ↔ FirstSuccess 10 network 0 2 (1 ∷ 2 ∷ 3 ∷ [])
fetch_with_retries-FirstSuccess_example =
    fetch_with_retries-FirstSuccess 10 2 network (1 ∷ 2 ∷ 3 ∷ [])

-- A message has an alert where there is a first byte.
abbrev decode : Number → Bytes → DecodeResult Unit
decode now [] = undecodable (text "empty")
decode now (zero ∷ bytes) = decoded (record { timestamp = number 5; entities = []; message = tt })
decode now (suc n ∷ bytes) = decoded (record {
  timestamp = number 5;
  entities = record { has_trip_update = false; has_alert = true; has_vehicle = false } ∷ [];
  message = tt;
})

abbrev normalize : Text → DecodedFeed Unit → ParsedRealtimeFeed
normalize id d = record {
  feed_id = id;
  feed_timestamp_iso = none;
  trip_updates = [];
  alerts = [];
  quarantined = [];
  parse_errors = 0;
  vehicle_count = 0;
  simulated_failure = none;
  has_wire_entities = true;
}

abbrev idle : FeedPollState
idle = record {
  last_error = none;
  last_success_at = none;
  is_running = true;
  consecutive_failures = 0;
}

abbrev poll_ace : Bytes → RawStore → Polled decode normalize
poll_ace bytes store =
    poll_one decode normalize (number 10) (text "ace") (text "10") (fetched bytes) idle store

abbrev first : Polled decode normalize
first = poll_ace (7 ∷ []) []

-- A hollow message, and one that cannot be decoded.
abbrev hollow : Polled decode normalize
hollow = poll_ace (0 ∷ []) first.raw_store

abbrev failing : Polled decode normalize
failing = poll_ace [] first.raw_store

poll_tests :
    (hollow.raw_store ≡ first.raw_store)
    × (failing.raw_store ≡ first.raw_store)
    × (failing.feed_state.consecutive_failures ≡ 1)
    × (failing.input.from_lkg ≡ true)
    × (failing.input.error ≡ some (text "empty"))
unfolding poll_one poll_decoded poll_failed failure_input get_raw set_raw is_hollow ◌===◌
poll_tests = (refl, refl, refl, refl, refl)

first-IsSolid : IsSolid decode normalize (get_raw (text "ace") first.raw_store)
unfolding poll_one poll_decoded get_raw set_raw is_hollow ◌===◌
first-IsSolid = (number 10, _, refl, refl)

Polls-IsSolid_example : IsSolid decode normalize (get_raw (text "ace") hollow.raw_store)
Polls-IsSolid_example =
    Polls-IsSolid decode normalize (text "ace")
      (next done (poll (number 10) (text "ace") (text "10") (fetched (0 ∷ [])) idle)) first-IsSolid
