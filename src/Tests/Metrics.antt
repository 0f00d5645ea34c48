-- ===== src/Tests/Metrics.antt =====
-- A registry after five calls.
use mathlib.Core.List.{Permᴰ}
use dinapay_connector_binanc.Shared.{lit, [], ◌∷◌, List, ◌≡◌, refl, true, false, count_where}
use dinapay_connector_binanc.Effects.{Metric, provider, webhook, served}
use dinapay_connector_binanc.Metrics.{
  Registry, entry_or, same_name, same_pair, same_request, empty_histogram, registry_of,
  empty_registry,
}
use dinapay_connector_binanc.Metrics.Counts.{
  registry_of-counts, counts_operation, counts_provider, counts_request, histogram_of,
  provider_times, request_times,
}
use dinapay_connector_binanc.Metrics.Exposition.{exposition}
use dinapay_connector_binanc.Tests.Setup.{formats}
use dinapay_connector_binanc.Metrics.Order.{exposition-perm}

abbrev calls : List Metric
calls =
    served (lit "GET") (lit "GET /health") 200 1000
    ∷ provider (lit "create_order") false 7_000_000
    ∷ webhook (lit "accepted")
    ∷ provider (lit "create_order") true 3_000_000
    ∷ webhook (lit "accepted")
    ∷ []

registry_of-counts_example :
    (entry_or same_name 0 (lit "webhook:accepted") (registry_of calls).operations
      ≡ count_where (counts_operation (lit "webhook:accepted")) calls)
    × (entry_or same_pair 0 (lit "webhook:accepted", lit "2xx") (registry_of calls).provider
        ≡ count_where (counts_provider (lit "webhook:accepted", lit "2xx")) calls)
    × (entry_or same_request 0
          (lit "GET", lit "GET /health", lit "2xx")
          (registry_of calls).requests
        ≡ count_where (counts_request (lit "GET", lit "GET /health", lit "2xx")) calls)
    × (entry_or same_name empty_histogram
          (lit "webhook:accepted")
          (registry_of calls).provider_durations
        ≡ histogram_of (provider_times (lit "webhook:accepted") calls))
    × (entry_or same_pair empty_histogram
          (lit "GET", lit "GET /health")
          (registry_of calls).durations
        ≡ histogram_of (request_times (lit "GET", lit "GET /health") calls))
registry_of-counts_example =
    registry_of-counts calls (lit "webhook:accepted") (lit "GET") (lit "GET /health") (lit "2xx")
      (lit "2xx")

-- Two registries that differ in the order of a map.
abbrev this_order : Registry
this_order = record empty_registry {
  operations = (lit "webhook:accepted", 2) ∷ (lit "publish:success", 1) ∷ [];
}

abbrev other_order : Registry
other_order = record empty_registry {
  operations = (lit "publish:success", 1) ∷ (lit "webhook:accepted", 2) ∷ [];
}

exposition-perm_example : exposition formats this_order ≡ exposition formats other_order
exposition-perm_example =
    exposition-perm formats this_order other_order Permᴰ.nil Permᴰ.nil Permᴰ.nil Permᴰ.nil
      (Permᴰ.swap refl refl) Permᴰ.nil
