-- ===== src/Metrics/Exposition.antt =====
-- Handler of internal/observability/metrics.go: the registry as text, one line for each figure, sorted.
use dinapay_connector_binanc.Shared.{
  ℕ, Text, lit, [], ◌∷◌, ◌++◌, List, map, ◌==◌, nat_eq, text_eq, if◌then◌else◌,
}
use dinapay_connector_binanc.Shared.Int.{ℤ}
use dinapay_connector_binanc.Strings.{text_leb}
use dinapay_connector_binanc.Strings.Numbers.{decimal}
use dinapay_connector_binanc.Metrics.{Histogram, RequestKey, PairKey, Gauge, rows, age, Registry}

-- What fmt makes of values that are no plain texts or integers.
pub record Formats : Type 0 where
  -- %q
  pub quote : Text → Text
  -- %g of the sum of some durations in seconds, added from the last one of the list on
  pub sum_text : List ℕ → Text
  -- %g of a number of rows, and of an age
  pub rows_text : ℕ → Text
  pub age_text : ℤ → Text

unfoldable pub insert_text : Text → List Text → List Text
unfolding text_leb
insert_text s [] = s ∷ []
insert_text s (t ∷ ts) =
    let rest = insert_text s ts in if text_leb s t then s ∷ t ∷ ts else t ∷ rest

-- sort.Strings
unfoldable pub sort_texts : List Text → List Text
unfolding insert_text
sort_texts [] = []
sort_texts (t ∷ ts) = insert_text t (sort_texts ts)

-- strings.Join(lines, "\n")
unfoldable pub join_lines : List Text → Text
join_lines [] = []
join_lines (t ∷ []) = t
join_lines (t ∷ u ∷ ts) = t ++ 10 ∷ join_lines (u ∷ ts)

-- The concatenation of the lines that each entry gives.
unfoldable pub flat_map {ℓ} : {A : Type ℓ} → (A → List Text) → List A → List Text
flat_map f [] = []
flat_map f (a ∷ rest) = f a ++ flat_map f rest

abbrev pub service : Text
service = lit "dinapay-connector-binancepay-v2"

-- strconv.FormatFloat of the limits
abbrev pub limit_names : List Text
limit_names =
    lit "0.005"
    ∷ lit "0.01"
    ∷ lit "0.025"
    ∷ lit "0.05"
    ∷ lit "0.1"
    ∷ lit "0.25"
    ∷ lit "0.5"
    ∷ lit "1"
    ∷ lit "2.5"
    ∷ lit "5"
    ∷ lit "10"
    ∷ []

-- name{labels,le=…} value, for each limit
bucket_lines : (Text → Text) → Text → Text → List Text → List ℕ → List Text
bucket_lines quote name labels (l ∷ ls) (b ∷ bs) =
    (name ++ lit "_bucket{" ++ labels ++ lit ",le=" ++ quote l ++ lit "} " ++ decimal b)
    ∷ bucket_lines quote name labels ls bs
bucket_lines quote name labels _ _ = []

histogram_lines : Formats → Text → Text → Histogram → List Text
unfolding bucket_lines
histogram_lines f name labels h =
    bucket_lines f.quote name labels limit_names h.buckets
    ++ (name ++ lit "_bucket{" ++ labels ++ lit ",le=\"+Inf\"} " ++ decimal h.count)
      ∷ (name ++ lit "_sum{" ++ labels ++ lit "} " ++ f.sum_text h.sum)
      ∷ (name ++ lit "_count{" ++ labels ++ lit "} " ++ decimal h.count)
      ∷ []

unfoldable pub request_line : Formats → RequestKey × ℕ → Text
request_line f ((method, route, status), n) =
    lit "dinapay_http_requests_total{service="
    ++ f.quote service
    ++ lit ",method="
    ++ f.quote method
    ++ lit ",route="
    ++ f.quote route
    ++ lit ",status_class="
    ++ f.quote status
    ++ lit "} "
    ++ decimal n

unfoldable pub duration_lines : Formats → PairKey × Histogram → List Text
unfolding histogram_lines
duration_lines f ((method, route), h) =
    histogram_lines f (lit "dinapay_http_request_duration_seconds")
      (lit "service="
        ++ f.quote service
        ++ lit ",method="
        ++ f.quote method
        ++ lit ",route="
        ++ f.quote route)
      h

unfoldable pub provider_line : Formats → PairKey × ℕ → Text
provider_line f ((operation, result), n) =
    lit "dinapay_provider_requests_total{provider=\"binancepay\",operation="
    ++ f.quote operation
    ++ lit ",result="
    ++ f.quote result
    ++ lit "} "
    ++ decimal n

unfoldable pub provider_duration_lines : Formats → Text × Histogram → List Text
unfolding histogram_lines
provider_duration_lines f (operation, h) =
    histogram_lines f (lit "dinapay_provider_request_duration_seconds")
      (lit "provider=\"binancepay\",operation=" ++ f.quote operation) h

-- strings.SplitN(key, ":", 2), of a key that has a colon
unfoldable pub split_key : Text → Text × Text
split_key [] = ([], [])
split_key (c ∷ s) =
    let (head, rest) = split_key s in if c == b':' then ([], s) else (c ∷ head, rest)

-- The names of the three counters; a prefix that is none of them reads as "".
operation_name : Text → Text
operation_name prefix =
    if prefix == lit "webhook"
    then lit "dinapay_provider_webhooks_total"
    else if prefix == lit "publish"
    then lit "dinapay_connector_event_publications_total"
    else if prefix == lit "reconciliation"
    then lit "dinapay_reconciliation_attempts_total"
    else []

unfoldable pub operation_line : Formats → Text × ℕ → Text
unfolding split_key operation_name
operation_line f (key, n) =
    let (prefix, result) = split_key key in
    operation_name prefix
    ++ lit "{provider=\"binancepay\",result="
    ++ f.quote result
    ++ lit "} "
    ++ decimal n

gauge_text : Formats → Gauge → Text
gauge_text f (rows n) = f.rows_text n
gauge_text f (age a) = f.age_text a

unfoldable pub gauge_line : Formats → Text × Gauge → Text
unfolding gauge_text
gauge_line f (name, value) = name ++ lit "{provider=\"binancepay\"} " ++ gauge_text f value

-- The lines before they are sorted, the maps in the order of their entries.
unfoldable pub lines_of : Formats → Registry → List Text
lines_of f r =
    map (request_line f) r.requests
    ++ flat_map (duration_lines f) r.durations
    ++ map (provider_line f) r.provider
    ++ flat_map (provider_duration_lines f) r.provider_durations
    ++ map (operation_line f) r.operations
    ++ map (gauge_line f) r.gauges

unfoldable pub exposition : Formats → Registry → Text
exposition f r = join_lines (sort_texts (lines_of f r)) ++ 10 ∷ []
