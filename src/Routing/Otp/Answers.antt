-- ===== src/Routing/Otp/Answers.antt =====
-- services/routing/src/otp-provider/provider.ts: what a query answers and what it records.
use better_mta.Prelude.{◌≡◌, ◌+◌, true, false, Option, none, some, List, length}
use better_mta.Prelude.Text.{Text}
use better_mta.Prelude.Number.{Number, max_zero, ◌-ₙ◌}
use better_mta.Routing.Types.{Host}
use better_mta.Routing.Search.{ProviderAnswer, drafted, otp_failed, failed}
use better_mta.Routing.Otp.Types.{Engine, OtpItinerary, OtpRejectReason}
use better_mta.Routing.Otp.Provider.{
  OtpQueryStats, ProviderState, QueryEngine, OtpProviderOptions, Query, FetchOutcome, itineraries,
  refused, of_fetch, context_of,
}
use better_mta.Routing.Otp.Counts.{count_of, drafts_of, rejections_of, rejected_of}

module _ (host : Host) (engine : Engine) (queries : QueryEngine) (options : OtpProviderOptions)
    (query : Query) (fetched : FetchOutcome) where
  -- What the provider records of an answer.
  abbrev pub IsRecorded : ProviderState → ProviderAnswer → ProviderState → Type 0
  IsRecorded before (failed message) after = after ≡ before
  IsRecorded before (otp_failed kind message) after =
      (of_fetch engine queries fetched ≡ refused kind message)
      × (after.rejection_counts ≡ before.rejection_counts)
      × ((s : OtpQueryStats) × (after.last_query_stats ≡ some s)
          × (s.duration_ms ≡ max_zero (query.ended -ₙ query.started))
          × (s.is_ok ≡ false)
          × (s.error_kind ≡ some kind)
          × (s.itinerary_count ≡ 0)
          × (s.rejected_count ≡ 0))
  IsRecorded before (drafted drafts) after =
      (its : List (Option OtpItinerary)) × (of_fetch engine queries fetched ≡ itineraries its)
      × (drafts ≡ drafts_of host engine (context_of options query) 0 its)
      × ((r : OtpRejectReason)
          → count_of r after.rejection_counts
            ≡ count_of r before.rejection_counts
              + rejections_of host engine (context_of options query) r 0 its)
      × ((s : OtpQueryStats) × (after.last_query_stats ≡ some s)
          × (s.duration_ms ≡ max_zero (query.ended -ₙ query.started))
          × (s.is_ok ≡ true)
          × (s.error_kind ≡ none)
          × (s.itinerary_count ≡ length drafts)
          × (s.rejected_count ≡ rejected_of host engine (context_of options query) 0 its))

  module _ (state : ProviderState) where
    Records : ProviderAnswer × ProviderState → Type 0
    Records (answer, after) = IsRecorded state answer after
