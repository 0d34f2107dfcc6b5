-- ===== src/Data/Poller.antt =====
-- services/data/src/realtime-live/poller.ts for one feed, with raw-store.ts in memory and hollow.ts. The
-- decoder and the normalizer are arguments, and so is what the network and the clock come to.
pub mod Fetch
pub mod Keeps
mod Tests
use better_mta.Prelude.{
  ℕ, zero, suc, ◌+◌, Bool, true, false, not, ◌||◌, Option, none, some, List, [], ◌∷◌, ◌++◌, any,
  length, ltb, is_empty, if◌then◌else◌,
}
use better_mta.Prelude.Text.{Text, text, ◌===◌, show_ℕ}
use better_mta.Prelude.Number.{Number}
use better_mta.Data.Merge.{ParsedRealtimeFeed}

abbrev pub Bytes : Type 0
Bytes = List ℕ

pub data FetchResult : Type 0 where
  fetched : Bytes → FetchResult
  fetch_failed : Text → FetchResult

-- The loop over the chunks of a body, with the bytes so far; `reader.read` is done at the end.
unfoldable pub read_chunks : ℕ → List Bytes → Bytes → FetchResult
unfolding show_ℕ
read_chunks max [] out = fetched out
read_chunks max (chunk ∷ chunks) out =
    let total = length out + length chunk in
    let rest = read_chunks max chunks (out ++ chunk) in
    if ltb max total then fetch_failed (text "response_too_large:" ++ show_ℕ total) else rest

-- What a request comes to: `fetch` or a read is aborted or fails with a message, or there is a response with
-- its status and the chunks of its body; a body without a reader is one chunk.
pub data Response : Type 0 where
  timed_out : Response
  broken : Text → Response
  answered : (is_ok : Bool) (status : ℕ) (chunks : List Bytes) → Response

unfoldable pub fetch_once : ℕ → Response → FetchResult
unfolding read_chunks show_ℕ
fetch_once max timed_out = fetch_failed (text "timeout")
fetch_once max (broken message) = fetch_failed message
fetch_once max (answered false status chunks) = fetch_failed (text "HTTP " ++ show_ℕ status)
fetch_once max (answered true status chunks) = read_chunks max chunks []

-- What happens around the attempts: the response to each, whether the poller is stopped in front of
-- it, and whether the sleep behind it is aborted.
pub record Network : Type 0 where
  pub respond : ℕ → Response
  pub is_stopped : ℕ → Bool
  pub wakes : ℕ → Bool

-- The end of an attempt: a failure ends the loop at the last attempt and if the sleep is aborted.
unfoldable pub after_attempt : Bool → FetchResult → FetchResult → FetchResult
after_attempt ends (fetched bytes) later = fetched bytes
after_attempt ends (fetch_failed message) later = if ends then fetch_failed message else later

-- `fetchWithRetries` from an attempt on, with the attempts that are left behind it.
unfoldable pub fetch_from : ℕ → Network → ℕ → ℕ → FetchResult
unfolding fetch_once after_attempt
fetch_from max network attempt zero =
    if network.is_stopped attempt
    then fetch_failed (text "aborted")
    else after_attempt true (fetch_once max (network.respond attempt)) (fetch_failed [])
fetch_from max network attempt (suc left) =
    let later = fetch_from max network (suc attempt) left in
    if network.is_stopped attempt
    then fetch_failed (text "aborted")
    else after_attempt (network.wakes attempt) (fetch_once max (network.respond attempt)) later

abbrev pub fetch_with_retries : (max_bytes max_retries : ℕ) → Network → FetchResult
fetch_with_retries max retries network = fetch_from max network 0 retries

pub record RawFeedLkg : Type 0 where
  pub feed_id : Text
  pub bytes : Bytes
  pub fetched_at : Text
  pub header_timestamp : Number
  pub byte_size : ℕ

-- `RawFeedStore.memory`
abbrev pub RawStore : Type 0
RawStore = List (Text × RawFeedLkg)

unfoldable pub get_raw : Text → RawStore → Option RawFeedLkg
get_raw id [] = none
get_raw id ((k, e) ∷ rest) = if k === id then some e else get_raw id rest

unfoldable pub set_raw : Text → RawFeedLkg → RawStore → RawStore
set_raw id entry [] = (id, entry) ∷ []
set_raw id entry ((k, e) ∷ rest) =
    let others = set_raw id entry rest in if k === id then (k, entry) ∷ rest else (k, e) ∷ others

-- `RawFeedStore.put`, in memory
abbrev pub put_raw : RawFeedLkg → RawStore → RawStore
put_raw entry store = set_raw entry.feed_id entry store

-- Which parts an entity has.
pub record WireEntity : Type 0 where
  pub has_trip_update : Bool
  pub has_alert : Bool
  pub has_vehicle : Bool

-- A decoded message, with what is only handed to the normalizer.
pub record DecodedFeed (M : Type 0) : Type 0 where
  pub timestamp : Number
  pub entities : List WireEntity
  pub message : M

pub data DecodeResult (M : Type 0) : Type 0 where
  decoded : DecodedFeed M → DecodeResult M
  undecodable : Text → DecodeResult M

pub record FeedPollState : Type 0 where
  pub last_error : Option Text
  pub last_success_at : Option Text
  pub is_running : Bool
  pub consecutive_failures : ℕ

pub record AssembledFeedInput : Type 0 where
  pub feed_id : Text
  pub parsed : Option ParsedRealtimeFeed
  pub fetched_at : Option Text
  pub header_timestamp : Option Number
  pub error : Option Text
  pub from_lkg : Bool

-- `isHollowDecodedFeed`
unfoldable pub is_hollow : {M : Type 0} → DecodedFeed M → Bool
is_hollow d =
    is_empty d.entities
    || not (any (λ e. e.has_trip_update || (e.has_alert || e.has_vehicle)) d.entities)

-- `isHollowParsedFeed`
unfoldable pub is_hollow_parsed : Option ParsedRealtimeFeed → Bool
is_hollow_parsed none = true
is_hollow_parsed (some p) = not p.has_wire_entities

module _ {M : Type 0} (decode : Number → Bytes → DecodeResult M)
    (normalize : Text → DecodedFeed M → ParsedRealtimeFeed) where
  -- The feed of the bytes kept, unless they cannot be decoded now.
  unfoldable pub reparsed : Text → DecodeResult M → Option ParsedRealtimeFeed
  reparsed id (decoded d) = some (normalize id d)
  reparsed id (undecodable code) = none

  -- What a poll that failed returns.
  unfoldable pub failure_input : Number → Text → Text → Option RawFeedLkg → AssembledFeedInput
  unfolding reparsed
  failure_input now id reason none = record {
    feed_id = id;
    parsed = none;
    fetched_at = none;
    header_timestamp = none;
    error = some reason;
    from_lkg = false;
  }
  failure_input now id reason (some prior) = record {
    feed_id = id;
    parsed = reparsed id (decode now prior.bytes);
    fetched_at = some prior.fetched_at;
    header_timestamp = some prior.header_timestamp;
    error = some reason;
    from_lkg = true;
  }

  -- The feed's state, what is kept, and what the poll returns.
  pub record Polled : Type 0 where
    pub feed_state : FeedPollState
    pub raw_store : RawStore
    pub input : AssembledFeedInput

  unfoldable pub poll_failed : Number → Text → Text → FeedPollState → RawStore → Polled
  unfolding failure_input get_raw
  poll_failed now id reason st store = record {
    feed_state = record st {
      last_error = some reason;
      is_running = false;
      consecutive_failures = suc st.consecutive_failures;
    };
    raw_store = store;
    input = failure_input now id reason (get_raw id store);
  }

  -- Whether the bytes of a poll replace what is kept.
  abbrev pub replaces : DecodedFeed M → Option RawFeedLkg → Bool
  replaces d none = true
  replaces d (some prior) = not (is_hollow d)

  -- What a poll that succeeds may keep.
  abbrev pub capture : Text → Text → Bytes → DecodedFeed M → RawFeedLkg
  capture id at bytes d = record {
    feed_id = id;
    bytes = bytes;
    fetched_at = at;
    header_timestamp = d.timestamp;
    byte_size = length bytes;
  }

  unfoldable pub poll_decoded :
      Number → Text → Text → Bytes → FeedPollState → RawStore → DecodeResult M → Polled
  unfolding poll_failed set_raw is_hollow get_raw
  poll_decoded now id at bytes st store (undecodable code) = poll_failed now id code st store
  poll_decoded now id at bytes st store (decoded d) = record {
    feed_state = record {
      last_error = none;
      last_success_at = some at;
      is_running = false;
      consecutive_failures = 0;
    };
    raw_store =
        if replaces d (get_raw id store) then put_raw (capture id at bytes d) store else store;
    input = record {
      feed_id = id;
      parsed = some (normalize id d);
      fetched_at = some at;
      header_timestamp = some d.timestamp;
      error = none;
      from_lkg = false;
    };
  }

  -- `pollOne` of a feed, from what the fetch comes to, at the instant `now`, printed as `at`.
  unfoldable pub poll_one : Number → Text → Text → FetchResult → FeedPollState → RawStore → Polled
  unfolding poll_decoded
  poll_one now id at (fetch_failed message) st store = poll_failed now id message st store
  poll_one now id at (fetched bytes) st store =
      poll_decoded now id at bytes st store (decode now bytes)
