-- ===== src/Data/Handle/Tests.antt =====
-- The handle, on small examples.
use better_mta.Prelude.{◌≡◌, refl, false, none, some, ◌++◌, length}
use better_mta.Prelude.Text.{text, trim, ◌===◌}
use better_mta.Routing.Types.{CandidateSearchRequest, ok}
use better_mta.Routing.Samples.{host, request, provider, lines, selected}
use better_mta.Routing.Satisfaction.{normalize_selected_line_ids}
use better_mta.Routing.Search.{run_route_search, data_unavailable}
use better_mta.Data.Types.{default_freshness_policy}
use better_mta.Data.Samples.{full, now, dataset}
use better_mta.Data.Static.{activated}
use better_mta.Data.Handle.{HandleOptions, active_of, build_routing_snapshot_handle}
use better_mta.Data.Handle.Laws.{
  codes, code_of_mode, code_of_feeds, build_routing_snapshot_handle-codes,
  run_route_search-unavailable_view,
}

abbrev served : HandleOptions
served = record {
  static_dataset = some (activated (dataset (text "v1")) (text "20"));
  realtime = some full;
  now = now;
  policy = default_freshness_policy;
  force_unavailable = false;
}

build_routing_snapshot_handle-codes_example :
    codes (build_routing_snapshot_handle host served).freshness.warnings
    ≡ code_of_mode (build_routing_snapshot_handle host served).handle.data_mode
      ++ code_of_feeds (active_of served.static_dataset) served.realtime
build_routing_snapshot_handle-codes_example = build_routing_snapshot_handle-codes host served refl

-- The dataset is still pending.
abbrev unserved : HandleOptions
unserved = record served { static_dataset = some (dataset (text "v1")) }

abbrev asked : CandidateSearchRequest
asked = record (request lines) { snapshot = (build_routing_snapshot_handle host unserved).handle }

inactive : active_of unserved.static_dataset ≡ none
unfolding active_of
inactive = refl

selection : normalize_selected_line_ids lines ≡ ok selected
unfolding normalize_selected_line_ids trim ◌===◌
selection = refl

run_route_search-unavailable_view_example :
    run_route_search host provider asked
    ≡ ok (
        data_unavailable
          (length selected)
          (text "Routing snapshot dataMode is unavailable; no itineraries fabricated."))
run_route_search-unavailable_view_example =
    run_route_search-unavailable_view host unserved provider asked selected inactive refl selection
