-- ===== src/Metrics.antt =====
-- The registry of internal/observability/metrics.go: what a call of the package changes. The calls
-- that a run makes are in the metrics of its world, and the registry is what they add up to.
pub mod Counts
pub mod Exposition
pub mod Order
use dinapay_connector_binanc.Shared.{
  ℕ, suc, ◌+◌, ◌/◌, Text, lit, [], ◌∷◌, ◌++◌, List, map, Option, none, some, Bool, ◌&&◌, ◌==◌,
  text_eq, leb, if◌then◌else◌,
}
use dinapay_connector_binanc.Shared.Int.{ℤ, pos}
use dinapay_connector_binanc.Strings.Numbers.{decimal}
use dinapay_connector_binanc.Store.Schema.{OperationalStats}
use dinapay_connector_binanc.Effects.{
  Metric, provider, webhook, publish, reconciliation, persistent, served,
}

-- A map as a list of its entries, one for each key.
module _ {ℓ κ} {K : Type ℓ} {V : Type κ} (same : K → K → Bool) where
  unfoldable pub entry_or : V → K → List (K × V) → V
  entry_or zero key [] = zero
  entry_or zero key ((k, v) ∷ rest) =
      let later = entry_or zero key rest in if same k key then v else later

  -- m[key] = f(m[key]), where a missing entry reads as `zero`
  unfoldable pub change_entry : V → (V → V) → K → List (K × V) → List (K × V)
  change_entry zero f key [] = (key, f zero) ∷ []
  change_entry zero f key ((k, v) ∷ rest) =
      let later = change_entry zero f key rest in
      if same k key then (k, f v) ∷ rest else (k, v) ∷ later

-- The limits of the buckets, in nanoseconds.
abbrev pub limits : List ℕ
limits =
    5_000_000 ∷ 10_000_000 ∷ 25_000_000 ∷ 50_000_000 ∷ 100_000_000 ∷ 250_000_000 ∷ 500_000_000
    ∷ 1_000_000_000 ∷ 2_500_000_000 ∷ 5_000_000_000 ∷ 10_000_000_000 ∷ []

-- The counters are uint64 in the code, which no number of calls overflows. The float64 sum is kept as
-- the durations that are added, the last one first.
pub record Histogram : Type 0 where
  pub count : ℕ
  pub sum : List ℕ
  pub buckets : List ℕ

abbrev pub empty_histogram : Histogram
empty_histogram = record { count = 0; sum = []; buckets = map (λ _. 0) limits }

unfoldable pub count_buckets : ℕ → List ℕ → List ℕ → List ℕ
count_buckets elapsed (limit ∷ ls) (b ∷ bs) =
    (if leb elapsed limit then suc b else b) ∷ count_buckets elapsed ls bs
count_buckets elapsed _ _ = []

unfoldable pub add_duration : ℕ → Histogram → Histogram
add_duration elapsed h = record {
  count = suc h.count;
  sum = elapsed ∷ h.sum;
  buckets = count_buckets elapsed limits h.buckets;
}

-- requestKey, durationKey and providerKey
abbrev pub RequestKey : Type 0
RequestKey = Text × Text × Text

abbrev pub PairKey : Type 0
PairKey = Text × Text

abbrev pub same_request : RequestKey → RequestKey → Bool
same_request (a, b, c) (d, e, f) = a == d && b == e && c == f

abbrev pub same_pair : PairKey → PairKey → Bool
same_pair (a, b) (c, d) = a == c && b == d

abbrev pub same_name : Text → Text → Bool
same_name a b = a == b

-- A gauge is a number of rows, or an age in nanoseconds.
pub data Gauge : Type 0 where
  rows : ℕ → Gauge
  age : ℤ → Gauge

pub record Registry : Type 0 where
  pub requests : List (RequestKey × ℕ)
  pub durations : List (PairKey × Histogram)
  pub provider : List (PairKey × ℕ)
  pub provider_durations : List (Text × Histogram)
  pub operations : List (Text × ℕ)
  pub gauges : List (Text × Gauge)

abbrev pub empty_registry : Registry
empty_registry = record {
  requests = [];
  durations = [];
  provider = [];
  provider_durations = [];
  operations = [];
  gauges = [];
}

abbrev pub result_name : Bool → Text
result_name b = if b then lit "success" else lit "error"

-- ObserveProvider, of a call without or with an error
unfoldable pub observe_provider : Text → Bool → ℕ → Registry → Registry
observe_provider operation success elapsed r = record r {
  provider = change_entry same_pair 0 suc (operation, result_name success) r.provider;
  provider_durations =
      change_entry same_name empty_histogram (add_duration elapsed) operation r.provider_durations;
}

-- Webhook, Publish and Reconciliation, with the prefix of each
unfoldable pub count_operation : Text → Registry → Registry
count_operation key r = record r { operations = change_entry same_name 0 suc key r.operations }

unfoldable pub set_gauge : Text → Gauge → List (Text × Gauge) → List (Text × Gauge)
set_gauge name value = change_entry same_name (rows 0) (λ _. value) name

unfoldable pub set_persistent : OperationalStats → Registry → Registry
set_persistent s r =
    let gauges =
      set_gauge (lit "dinapay_connector_nonterminal_payments") (rows s.nonterminal) r.gauges in
    let gauges =
      set_gauge (lit "dinapay_connector_nonterminal_oldest_seconds") (age s.nonterminal_age)
        gauges in
    let gauges = set_gauge (lit "dinapay_reconciliation_pending") (rows s.reconciliation) gauges in
    let gauges =
      set_gauge (lit "dinapay_reconciliation_oldest_seconds") (age s.reconciliation_age) gauges in
    let gauges = set_gauge (lit "dinapay_connector_outbox_pending") (rows s.outbox) gauges in
    let gauges =
      set_gauge (lit "dinapay_connector_outbox_oldest_seconds") (age s.outbox_age) gauges in
    record r { gauges = gauges }

unfoldable pub route_name : Text → Text
route_name [] = lit "unmatched"
route_name (c ∷ s) = c ∷ s

-- strconv.Itoa(status/100) + "xx"
unfoldable pub status_class : ℕ → Text
unfolding decimal
status_class status = decimal (status / 100) ++ lit "xx"

unfoldable pub observe_http : Text → Text → ℕ → ℕ → Registry → Registry
observe_http method route status elapsed r = record r {
  requests =
      change_entry same_request 0 suc (method, route_name route, status_class status) r.requests;
  durations =
      change_entry same_pair empty_histogram (add_duration elapsed) (method, route_name route)
        r.durations;
}

unfoldable pub apply : Metric → Registry → Registry
unfolding observe_provider count_operation set_persistent observe_http
apply (provider operation success elapsed) r = observe_provider operation success elapsed r
apply (webhook result) r = count_operation (lit "webhook:" ++ result) r
apply (publish result) r = count_operation (lit "publish:" ++ result) r
apply (reconciliation result) r = count_operation (lit "reconciliation:" ++ result) r
apply (persistent stats) r = set_persistent stats r
apply (served method route status elapsed) r = observe_http method route status elapsed r

-- The registry after the calls, of which the newest stands first.
unfoldable pub registry_of : List Metric → Registry
unfolding apply
registry_of [] = empty_registry
registry_of (m ∷ ms) = apply m (registry_of ms)
