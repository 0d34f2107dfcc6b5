-- ===== src/Lib.antt =====
-- BetterMTA: subway itineraries that use the lines a rider selects.
--
-- The program. A candidate provider (OpenTripPlanner or fixtures) proposes drafts of itineraries
-- for a request that is pinned to a snapshot of the schedule and of the realtime feeds. The routing
-- package (services/routing/src) gates, enriches, ranks and summarizes them: `runRouteSearch`
-- normalizes the selected lines, asks the provider, drops invalid drafts, and returns at most three
-- itineraries by time alone (`baseline`) and at most three by the selected lines (`constrained`),
-- with a summary, or an outcome that says why there are none. The data service (services/data/src)
-- imports the schedule (GTFS tables are parsed, validated, and stored if they are valid, and the
-- routes are mapped to lines), keeps versions of it on disk, polls the realtime feeds, keeps the
-- datasets and the realtime snapshots, decides how fresh they are, and builds from the active
-- dataset and the resolved snapshot the handle that a search is pinned to.
-- The API keeps answers in caches and measures latencies; these are modelled on their own.
--
-- Files and sources:
--   Prelude             shared names: Tests and Lists over the native numbers, Int, Text (strings),
--                       Number (JavaScript numbers), Compare (lexicographic orders) and Sort
--   Routing/Types       services/routing/src/contract-types.ts, types.ts and the error classes
--   Routing/Satisfaction  services/routing/src/satisfaction.ts: `normalizeSelectedLineIds`,
--                       `lineSequenceFromLegs`, `computePerLineRideSeconds`, `computeSatisfaction`
--   Routing/Validate    services/routing/src/validate.ts: `validateCandidateDraft`, `countRejection`
--   Routing/Ranking     services/routing/src/ranking.ts: the comparators, the sorts, `truncateTop`
--   Routing/Fingerprint services/routing/src/fingerprint.ts: `fingerprintItinerary`
--   Routing/Explanation services/routing/src/explanation.ts: `buildExplanation`
--   Routing/Search      services/routing/src/search.ts: `enrichCandidate` and the functions on
--                       candidates in Enrich, `runRouteSearch` and `rankOnly` in Search itself, whose
--                       parts (settle, judge, search_drafts, conclude) are its stretches between
--                       returns; the modules below it prove what a search returns and throws
--   Routing/Otp         services/routing/src/otp-provider: types.ts in Types; of map.ts the times in
--                       Times, the legs in Legs, itineraries and their rejection in Map; provider.ts
--                       and the departure of query.ts in Provider. Readable says which answers are
--                       mapped without an error; the lemmas are in Dates (times), Measured (the loop
--                       over legs), Passes (one itinerary), Laws (an answer), Counts (its
--                       rejections), Answers (one query) and Search (the search over this
--                       provider)
--   Data/Types          services/data/src/types.ts
--   Data/Freshness      services/data/src/freshness.ts: `computeDataMode`, `buildFreshness` and ages
--   Data/Realtime       services/data/src/realtime/store.ts, and of realtime/ingest.ts the usability
--                       test, `resolveForRouting` and `commitAssembledSnapshot`
--   Data/Merge          services/data/src/realtime/ingest.ts: `mergeFeeds`
--   Data/Static         services/data/src/static/store.ts: pending, failed and active datasets
--   Data/Gtfs           services/data/src/static/gtfs-parser.ts in Csv (text to records) and Parse
--                       (records to tables), static/validator.ts in Validate
--   Data/Lines          services/data/src/line-mapping.ts
--   Data/Import         services/data/src/static/importer.ts, into the store of Data/Static
--   Data/Versions       services/data/src/static-pipeline/version-store.ts
--   Data/Poller         services/data/src/realtime-live: of poller.ts `fetchOnce`, `fetchWithRetries`
--                       and `pollOne`, raw-store.ts in memory, and hollow.ts
--   Data/Handle         services/data/src/snapshot/handle.ts: `buildRoutingSnapshotHandle`
--   Api/MemoryCache     apps/api/src/cache/memoryCache.ts: the cache with expiry
--   Api/Latency         apps/api/src/metrics/latency.ts: the histogram; Tally counts what was
--                       observed, Percentile bounds the percentiles
--   Api/SwrCache        apps/api/src/adapters/live/swrCache.ts: the cache that serves an old value
--                       while it fetches a new one
--   Routing/Samples, Data/Samples  test data; each Tests module has the tests and the examples of its
--                       parent
--
-- How values stand. A string is the list of its UTF-16 code units. A number is an integer, NaN or an
-- infinity: fractions and the negative zero do not occur in the metrics that are compared.
-- `undefined` and `null` are `none`. A promise is its result, and what a function throws is a `throw`
-- of the type Result. A `Record<string, number>` is an association list in the order of first use.
-- `Date.parse` and the hexadecimal SHA-256 digest are the fields of Host, a parameter of what uses
-- them, and a provider is any function from requests to answers. In the same way Numerals gives
-- `Number(v)` of a cell, Engine the printing of instants, QueryEngine `JSON.parse` and the date and
-- time in New York, and `localeCompare` is a parameter of the list of versions. The decoder and the
-- normalizer of feeds are arguments of a poll. JSON numbers are integers, those
-- of durations are finite, and instants are whole milliseconds; where an itinerary of OpenTripPlanner
-- states no duration, the time from its start to its arrival drops a fraction of a second, which the
-- source keeps. Errors that the mapping of an answer throws, for a null or an instant out of the
-- range of Date, are values of the type Attempt. An object that is used as a table holds only its own members.
-- `Array.prototype.sort` is a stable insertion sort: the language fixes its result for a comparator
-- that is consistent.
-- The loop of `pruneVersions` runs on the fuel `enough`, which is proved to be enough, the attempts of
-- a fetch count down the retries, and all other loops are structural recursions on the lists that
-- they run over.
--
-- Bounds. MAX_SELECTED_LINES is five and MAX_RETURNED_ITINERARIES three, as in the source; inputs are
-- of any length.
--
-- Not modelled: the fixture provider, the protobuf decoder, the normalizer and the assembly of
-- snapshots, the JSON feed parser, the refresh pipeline of the schedule, the timers, sleeps and
-- backoff of the poller and its mirror on disk, HTTP, files, logging, clocks, the metrics but for
-- the latencies, the cache key of a search, the adapters and shell of the API, the web client, and
-- the benchmark runner. Coordinates are only handed on.
pub mod Prelude
pub mod Routing
pub mod Data
pub mod Api
