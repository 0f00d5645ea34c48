-- ===== src/Metrics/Counts.antt =====
-- What the registry holds after any sequence of calls.
use dinapay_connector_binanc.Shared.{
  ℕ, suc, ◌+◌, Text, lit, ◌≡◌, refl, ap, List, [], ◌∷◌, ◌++◌, map, length, Bool, true, false, ◌==◌,
  text_eq, text_beq_iff, text_beq_refl, arith, leb, if◌then◌else◌, count_where,
}
use dinapay_connector_binanc.Effects.{
  Metric, provider, webhook, publish, reconciliation, persistent, served,
}
use dinapay_connector_binanc.Metrics.{
  entry_or, change_entry, limits, Histogram, empty_histogram, count_buckets, add_duration,
  RequestKey, PairKey, same_request, same_pair, same_name, result_name, observe_provider,
  count_operation, set_persistent, route_name, status_class, observe_http, apply, registry_of,
}

module _ {ℓ κ} {K : Type ℓ} {V : Type κ} (same : K → K → Bool)
    (sound : (x y : K) → same x y ≡ true → x ≡ y) (reflexive : (x : K) → same x x ≡ true) where
  entry_or-change_entry :
      (zero : V) (f : V → V) (key k : K) (m : List (K × V))
      → entry_or same zero k (change_entry same zero f key m)
        ≡ (if same key k then f (entry_or same zero k m) else entry_or same zero k m)
  unfolding entry_or change_entry
  entry_or-change_entry zero f key k [] = refl
  entry_or-change_entry zero f key k ((j, v) ∷ rest) = ground (
    arith,
    sound j key,
    sound j k,
    sound key k,
    reflexive k,
    reflexive key,
    entry_or-change_entry zero f key k rest,
  )

-- A counter goes up at its own key, and stays elsewhere.
module _ {ℓ} {K : Type ℓ} (same : K → K → Bool) (sound : (x y : K) → same x y ≡ true → x ≡ y)
    (reflexive : (x : K) → same x x ≡ true) where
  counted :
      (k key : K) (m : List (K × ℕ))
      → entry_or same 0 key (change_entry same 0 suc k m)
        ≡ (if same k key then 1 else 0) + entry_or same 0 key m
  counted k key m = ground (arith, entry_or-change_entry same sound reflexive 0 suc k key m)

same_name_sound : (a b : Text) → same_name a b ≡ true → a ≡ b
same_name_sound a b = (text_beq_iff a b).0

same_pair_sound : (a b : PairKey) → same_pair a b ≡ true → a ≡ b
same_pair_sound (a, b) (c, d) h = ground (arith, text_beq_iff a c, text_beq_iff b d)

same_pair_refl : (a : PairKey) → same_pair a a ≡ true
same_pair_refl (a, b) = ground (arith, text_beq_refl a, text_beq_refl b)

same_request_sound : (a b : RequestKey) → same_request a b ≡ true → a ≡ b
same_request_sound (a, b, c) (d, e, f) h =
    ground (arith, text_beq_iff a d, text_beq_iff b e, text_beq_iff c f)

same_request_refl : (a : RequestKey) → same_request a a ≡ true
same_request_refl (a, b, c) = ground (arith, text_beq_refl a, text_beq_refl b, text_beq_refl c)

-- The histogram of some durations, the last one first: each bucket counts those up to its limit.
abbrev pub histogram_of : List ℕ → Histogram
histogram_of ds = record {
  count = length ds;
  sum = ds;
  buckets = map (λ l. count_where (λ d. leb d l) ds) limits;
}

count_buckets-cons :
    (d : ℕ) (ds ls : List ℕ)
    → count_buckets d ls (map (λ l. count_where (λ e. leb e l) ds) ls)
      ≡ map (λ l. count_where (λ e. leb e l) (d ∷ ds)) ls
unfolding count_buckets count_where
count_buckets-cons d ds [] = refl
count_buckets-cons d ds (l ∷ ls) = ground (arith, count_buckets-cons d ds ls)

add_duration-cons : (d : ℕ) (ds : List ℕ) → add_duration d (histogram_of ds) ≡ histogram_of (d ∷ ds)
unfolding add_duration
add_duration-cons d ds =
    ap (λ bs. record { count = suc (length ds); sum = d ∷ ds; buckets = bs })
      (count_buckets-cons d ds limits)

-- Which calls a counter counts, and which durations a histogram takes.
unfoldable pub counts_operation : Text → Metric → Bool
counts_operation key (webhook result) = lit "webhook:" ++ result == key
counts_operation key (publish result) = lit "publish:" ++ result == key
counts_operation key (reconciliation result) = lit "reconciliation:" ++ result == key
counts_operation key _ = false

unfoldable pub counts_provider : PairKey → Metric → Bool
counts_provider key (provider operation success elapsed) =
    same_pair (operation, result_name success) key
counts_provider key _ = false

unfoldable pub counts_request : RequestKey → Metric → Bool
counts_request key (served method route status elapsed) =
    same_request (method, route_name route, status_class status) key
counts_request key _ = false

unfoldable pub provider_times : Text → List Metric → List ℕ
provider_times key [] = []
provider_times key (m ∷ ms) = add m (provider_times key ms)
  where
    add : Metric → List ℕ → List ℕ
    add (provider operation success elapsed) rest =
        if operation == key then elapsed ∷ rest else rest
    add _ rest = rest

unfoldable pub request_times : PairKey → List Metric → List ℕ
request_times key [] = []
request_times key (m ∷ ms) = add m (request_times key ms)
  where
    add : Metric → List ℕ → List ℕ
    add (served method route status elapsed) rest =
        if same_pair (method, route_name route) key then elapsed ∷ rest else rest
    add _ rest = rest

module _ (key : Text) where
  operations-count :
      (ms : List Metric)
      → entry_or same_name 0 key (registry_of ms).operations ≡ count_where (counts_operation key) ms
  unfolding registry_of apply count_where counts_operation entry_or count_operation observe_provider
      set_persistent observe_http
  operations-count [] = refl
  operations-count (webhook result ∷ ms) = ground (
    arith,
    counted same_name same_name_sound text_beq_refl (lit "webhook:" ++ result) key
        (registry_of ms).operations,
    operations-count ms,
  )
  operations-count (publish result ∷ ms) = ground (
    arith,
    counted same_name same_name_sound text_beq_refl (lit "publish:" ++ result) key
        (registry_of ms).operations,
    operations-count ms,
  )
  operations-count (reconciliation result ∷ ms) = ground (
    arith,
    counted same_name same_name_sound text_beq_refl (lit "reconciliation:" ++ result) key
        (registry_of ms).operations,
    operations-count ms,
  )
  operations-count (provider operation success elapsed ∷ ms) = omega (arith, operations-count ms)
  operations-count (persistent stats ∷ ms) = omega (arith, operations-count ms)
  operations-count (served method route status elapsed ∷ ms) = omega (arith, operations-count ms)

  provider-times :
      (ms : List Metric)
      → entry_or same_name empty_histogram key (registry_of ms).provider_durations
        ≡ histogram_of (provider_times key ms)
  unfolding registry_of apply provider_times entry_or count_operation observe_provider
      set_persistent observe_http count_where
  provider-times [] = refl
  provider-times (provider operation success elapsed ∷ ms) = ground (
    arith,
    entry_or-change_entry same_name same_name_sound text_beq_refl empty_histogram
        (add_duration elapsed) operation key (registry_of ms).provider_durations,
    add_duration-cons elapsed (provider_times key ms),
    provider-times ms,
  )
  provider-times (webhook result ∷ ms) = provider-times ms
  provider-times (publish result ∷ ms) = provider-times ms
  provider-times (reconciliation result ∷ ms) = provider-times ms
  provider-times (persistent stats ∷ ms) = provider-times ms
  provider-times (served method route status elapsed ∷ ms) = provider-times ms

provider-count :
    (key : PairKey) (ms : List Metric)
    → entry_or same_pair 0 key (registry_of ms).provider ≡ count_where (counts_provider key) ms
unfolding registry_of apply count_where counts_provider entry_or count_operation observe_provider
    set_persistent observe_http
provider-count key [] = refl
provider-count key (provider operation success elapsed ∷ ms) = ground (
  arith,
  counted same_pair same_pair_sound same_pair_refl (operation, result_name success) key
      (registry_of ms).provider,
  provider-count key ms,
)
provider-count key (webhook result ∷ ms) = omega (arith, provider-count key ms)
provider-count key (publish result ∷ ms) = omega (arith, provider-count key ms)
provider-count key (reconciliation result ∷ ms) = omega (arith, provider-count key ms)
provider-count key (persistent stats ∷ ms) = omega (arith, provider-count key ms)
provider-count key (served method route status elapsed ∷ ms) = omega (arith, provider-count key ms)

requests-count :
    (key : RequestKey) (ms : List Metric)
    → entry_or same_request 0 key (registry_of ms).requests ≡ count_where (counts_request key) ms
unfolding registry_of apply count_where counts_request entry_or count_operation observe_provider
    set_persistent observe_http
requests-count key [] = refl
requests-count key (served method route status elapsed ∷ ms) = ground (
  arith,
  counted same_request same_request_sound same_request_refl
      (method, route_name route, status_class status) key (registry_of ms).requests,
  requests-count key ms,
)
requests-count key (webhook result ∷ ms) = omega (arith, requests-count key ms)
requests-count key (publish result ∷ ms) = omega (arith, requests-count key ms)
requests-count key (reconciliation result ∷ ms) = omega (arith, requests-count key ms)
requests-count key (persistent stats ∷ ms) = omega (arith, requests-count key ms)
requests-count key (provider operation success elapsed ∷ ms) = omega (arith, requests-count key ms)

request-times :
    (key : PairKey) (ms : List Metric)
    → entry_or same_pair empty_histogram key (registry_of ms).durations
      ≡ histogram_of (request_times key ms)
unfolding registry_of apply request_times entry_or count_operation observe_provider set_persistent
    observe_http count_where
request-times key [] = refl
request-times key (served method route status elapsed ∷ ms) = ground (
  arith,
  entry_or-change_entry same_pair same_pair_sound same_pair_refl empty_histogram
      (add_duration elapsed) (method, route_name route) key (registry_of ms).durations,
  add_duration-cons elapsed (request_times key ms),
  request-times key ms,
)
request-times key (webhook result ∷ ms) = request-times key ms
request-times key (publish result ∷ ms) = request-times key ms
request-times key (reconciliation result ∷ ms) = request-times key ms
request-times key (persistent stats ∷ ms) = request-times key ms
request-times key (provider operation success elapsed ∷ ms) = request-times key ms

-- After any sequence of calls, whatever keys they bring, each counter is the number of the calls with
-- its key, and each histogram is that of the durations of the calls with its key: their number, the
-- durations themselves, and for each limit the number of durations up to it. A key without a call
-- reads as zero.
pub registry_of-counts :
    (ms : List Metric) (operation method route status result : Text)
    → (entry_or same_name 0 operation (registry_of ms).operations
        ≡ count_where (counts_operation operation) ms)
      × (entry_or same_pair 0 (operation, result) (registry_of ms).provider
          ≡ count_where (counts_provider (operation, result)) ms)
      × (entry_or same_request 0 (method, route, status) (registry_of ms).requests
          ≡ count_where (counts_request (method, route, status)) ms)
      × (entry_or same_name empty_histogram operation (registry_of ms).provider_durations
          ≡ histogram_of (provider_times operation ms))
      × (entry_or same_pair empty_histogram (method, route) (registry_of ms).durations
          ≡ histogram_of (request_times (method, route) ms))
registry_of-counts ms operation method route status result = (
  operations-count operation ms,
  provider-count (operation, result) ms,
  requests-count (method, route, status) ms,
  provider-times operation ms,
  request-times (method, route) ms,
)
