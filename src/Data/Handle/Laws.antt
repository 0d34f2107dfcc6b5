-- ===== src/Data/Handle/Laws.antt =====
-- Laws of `buildRoutingSnapshotHandle` (services/data/src/snapshot/handle.ts), and of a search over
-- the handle.
use better_mta.Prelude.{
  ◌≡◌, refl, ap, ◌∙◌, true, false, Option, none, some, List, [], ◌∷◌, ◌++◌, map, arith,
  if◌then◌else◌, is_empty, length,
}
use better_mta.Prelude.Text.{Text, text}
use better_mta.Prelude.Number.{Number}
use better_mta.Routing.Types.{
  Host, DataMode, live, schedule_only, stale, synthetic, unavailable, CandidateSearchRequest,
  RoutingSnapshotHandle, ok,
}
use better_mta.Routing.Satisfaction.{normalize_selected_line_ids}
use better_mta.Routing.Search.{
  CandidateProvider, run_route_search, data_unavailable, is_unavailable,
}
use better_mta.Data.Types.{
  StaticDataset, RealtimeSnapshot, FreshnessWarning, FailedFeed, FreshnessPolicy,
}
use mathlib.Core.Path.{ap₂}
use better_mta.Data.Freshness.{
  ModeOptions, build_freshness, compute_data_mode, mode_warnings, feed_warnings, mode_of_age,
}
use better_mta.Data.Handle.{
  HandleOptions, active_of, unavailable_view, realtime_mode, available_view, view_of,
  build_routing_snapshot_handle,
}

-- The warning that a mode calls for.
abbrev pub code_of_mode : DataMode → List Text
code_of_mode live = []
code_of_mode stale = text "stale_realtime" ∷ []
code_of_mode schedule_only = text "schedule_only" ∷ []
code_of_mode synthetic = text "synthetic_data" ∷ []
code_of_mode unavailable = text "data_unavailable" ∷ []

-- The warning that failed feeds call for, with a dataset and a snapshot.
abbrev pub code_of_feeds : Option StaticDataset → Option RealtimeSnapshot → List Text
code_of_feeds none snapshot = []
code_of_feeds (some _) none = []
code_of_feeds (some _) (some s) =
    if is_empty s.failed_feeds then [] else text "partial_realtime" ∷ []

abbrev pub codes : List FreshnessWarning → List Text
codes warnings = map (λ w. w.code) warnings

codes-append : (xs ys : List FreshnessWarning) → codes (xs ++ ys) ≡ codes xs ++ codes ys
codes-append [] ys = refl
codes-append (x ∷ xs) ys = ap (λ l. x.code ∷ l) (codes-append xs ys)

codes-feed_warnings :
    (feeds : List FailedFeed)
    → codes (feed_warnings feeds) ≡ (if is_empty feeds then [] else text "partial_realtime" ∷ [])
codes-feed_warnings [] = refl
codes-feed_warnings (f ∷ feeds) = refl

mode_of_age-code : (m : DataMode) → (m ≡ unavailable → ⊥) → codes (mode_warnings m) ≡ code_of_mode m
mode_of_age-code live h = refl
mode_of_age-code stale h = refl
mode_of_age-code schedule_only h = refl
mode_of_age-code synthetic h = refl
mode_of_age-code unavailable h = absurd (h refl)

compute_data_mode-available :
    (age : Option Number) (options : ModeOptions)
    → options.is_unavailable ≡ false
    → compute_data_mode age options ≡ unavailable
    → ⊥
unfolding compute_data_mode mode_of_age
compute_data_mode-available none options f h = ground arith
compute_data_mode-available (some age) options f h = ground arith

-- With a snapshot, the mode of the handle is the one that `buildFreshness` computed for the warnings.
realtime_mode-same :
    (policy : FreshnessPolicy) (age : Option Number) (s : RealtimeSnapshot)
    → realtime_mode policy age (some s)
      ≡ compute_data_mode age (record {
        has_realtime_payload = true;
        is_synthetic = s.synthetic;
        is_unavailable = false;
        policy = policy;
      })
unfolding realtime_mode compute_data_mode
realtime_mode-same policy age s = ground arith

snapshot-codes :
    (host : Host) (r : Option RealtimeSnapshot) (d : StaticDataset) (at : Option Text)
    (now : Number) (policy : FreshnessPolicy)
    → codes (build_freshness host r at now policy).warnings
      ≡ code_of_mode
          (realtime_mode policy (build_freshness host r at now policy).realtime_age_seconds r)
        ++ code_of_feeds (some d) r
unfolding build_freshness
snapshot-codes host none d at now policy = unfold realtime_mode in refl
snapshot-codes host (some s) d at now policy = rw (realtime_mode-same policy _ s) (
    codes-append (mode_warnings _) (feed_warnings s.failed_feeds)
    ∙ ap₂ (λ a b. a ++ b) (mode_of_age-code _ (compute_data_mode-available _ _ refl))
        (codes-feed_warnings s.failed_feeds))

view-codes :
    (host : Host) (options : HandleOptions) (o : Option StaticDataset)
    → options.force_unavailable ≡ false
    → codes (view_of host options o).freshness.warnings
      ≡ code_of_mode (view_of host options o).handle.data_mode ++ code_of_feeds o options.realtime
unfolding unavailable_view available_view
view-codes host options none h = refl
view-codes host options (some d) h =
    rw h (snapshot-codes host options.realtime d d.activated_at options.now options.policy)

-- Unless it is forced to be unavailable, the handle's mode is the one that the warnings beside it tell
-- of: the codes of the warnings are that of the mode, none for a live one, and after it that of failed
-- feeds, if an active dataset and a snapshot with failed feeds are given.
pub build_routing_snapshot_handle-codes :
    (host : Host) (options : HandleOptions)
    → options.force_unavailable ≡ false
    → codes (build_routing_snapshot_handle host options).freshness.warnings
      ≡ code_of_mode (build_routing_snapshot_handle host options).handle.data_mode
        ++ code_of_feeds (active_of options.static_dataset) options.realtime
unfolding build_routing_snapshot_handle
build_routing_snapshot_handle-codes host options h =
    view-codes host options (active_of options.static_dataset) h

-- A search over a handle without an active dataset, whatever the realtime data and the provider,
-- returns that the data is unavailable, if the selection is not refused.
pub run_route_search-unavailable_view :
    (host : Host) (options : HandleOptions) (provider : CandidateProvider)
    (request : CandidateSearchRequest) (selected : List Text)
    → active_of options.static_dataset ≡ none
    → request.snapshot ≡ (build_routing_snapshot_handle host options).handle
    → normalize_selected_line_ids request.selected_line_ids ≡ ok selected
    → run_route_search host provider request
      ≡ ok (
          data_unavailable
            (length selected)
            (text "Routing snapshot dataMode is unavailable; no itineraries fabricated."))
unfolding run_route_search build_routing_snapshot_handle unavailable_view
run_route_search-unavailable_view host options provider request selected h same normalized =
    let down : is_unavailable request.snapshot.data_mode ≡ true =
      ap (λ (s : RoutingSnapshotHandle). is_unavailable s.data_mode) same
      ∙ ap (λ o. is_unavailable (view_of host options o).handle.data_mode) h in
    rw (normalized, down) refl
