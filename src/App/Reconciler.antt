-- ===== src/App/Reconciler.antt =====
-- internal/app/reconciler.go: the reconciliation of claimed payments by polling the provider.
use Prim.Native.Nat.{bit_and, bit_or}
use dinapay_connector_binanc.Shared.{
  ℕ, zero, suc, Text, lit, List, [], ◌∷◌, ◌++◌, take, drop, Bool, text_eq, if◌then◌else◌,
}
use dinapay_connector_binanc.Strings.{to_upper}
use dinapay_connector_binanc.Strings.Numbers.{hex}
use dinapay_connector_binanc.Core.Error.{Result, ok, err, error_text}
use dinapay_connector_binanc.Core.Value.{str, raw, end, field}
use dinapay_connector_binanc.Core.Model.{ProviderPayment, ProviderEvent}
use dinapay_connector_binanc.Effects.{
  M, ◌>>=◌, ◌>>◌, pure, lift, attempt, ignore, now, observe, observe_provider, reconciliation,
  get_env,
}
use dinapay_connector_binanc.Store.Orders.{is_open, update_payment_observation}
use dinapay_connector_binanc.Store.Schedule.{
  claim_payments_for_reconciliation, retry_payment_reconciliation,
}
use dinapay_connector_binanc.Store.Events.{record_provider_event}
use dinapay_connector_binanc.BinancePay.Types.{Response, QueryOrderData, amount}
use dinapay_connector_binanc.BinancePay.Client.{query_order}
use dinapay_connector_binanc.App.Status.{status_at}
use dinapay_connector_binanc.App.Service.{Service, client_of}
use dinapay_connector_binanc.App.Webhook.{mismatch}

-- The digest with one byte changed.
change : ℕ → (ℕ → ℕ) → List ℕ → List ℕ
change i f [] = []
change zero f (b ∷ bs) = f b ∷ bs
change (suc i) f (b ∷ bs) = b ∷ change i f bs

-- (b & 0x0f) | 0x40 and (b & 0x3f) | 0x80, of a byte
abbrev pub version_byte : ℕ → ℕ
version_byte b = bit_or (bit_and b 0x0f) 0x40

abbrev pub variant_byte : ℕ → ℕ
variant_byte b = bit_or (bit_and b 0x3f) 0x80

-- "%08x-%04x-%04x-%04x-%012x" of the parts of 16 bytes
unfoldable pub uuid_text : List ℕ → Text
unfolding hex
uuid_text b =
    hex (take 4 b)
    ++ b'-' ∷ hex (take 2 (drop 4 b))
    ++ b'-' ∷ hex (take 2 (drop 6 b))
    ++ b'-' ∷ hex (take 2 (drop 8 b))
    ++ b'-' ∷ hex (drop 10 b)

unfoldable pub deterministic_uuid : (Text → Text) → Text → Text
unfolding change uuid_text
deterministic_uuid sha256 value =
    uuid_text (change 8 variant_byte (change 6 version_byte (take 16 (sha256 value))))

unfoldable pub poll_event_id : (Text → Text) → ProviderPayment → Text
unfolding deterministic_uuid to_upper
poll_event_id sha256 p = deterministic_uuid sha256 (
    lit "poll:"
    ++ p.provider_connection_id
    ++ lit ":"
    ++ p.provider_payment_id
    ++ lit ":"
    ++ to_upper p.raw_status)

unfoldable pub provider_status_event : (Text → Text) → ProviderPayment → Text → Text → ProviderEvent
unfolding poll_event_id
provider_status_event sha256 p source transaction_id = record {
  event_id = poll_event_id sha256 p;
  event_type = lit "payment.provider_" ++ p.status;
  event_version = lit "1";
  source = source;
  occurred_at = p.observed_at;
  observed_at = p.observed_at;
  transaction_id = p.transaction_id;
  provider = lit "binancepay";
  provider_connection_id = p.provider_connection_id;
  provider_payment_id = p.provider_payment_id;
  event_data = record {
    status = p.status;
    raw_status = p.raw_status;
    amount = p.amount;
    currency = p.currency;
    provider_reference = p.provider_reference;
    provider_data = field (lit "binanceTransactionId") (str transaction_id) end;
  };
}

unfoldable pub retry : ProviderPayment → Text → M (Unit {0})
retry p text =
    ignore (retry_payment_reconciliation p.provider_connection_id p.provider_payment_id text)

-- retryMismatch
unfoldable pub retry_mismatch : ProviderPayment → Text → M (Unit {0})
unfolding retry
retry_mismatch p text = do observe (reconciliation (lit "mismatch")); retry p text

-- A status that is still open is written back; a failed write is only counted.
unfoldable pub after_observation : Result (Unit {0}) → M (Unit {0})
after_observation (err e) = observe (reconciliation (lit "store_error"))
after_observation (ok _) = observe (reconciliation (lit "pending"))

unfoldable pub keep_open : ProviderPayment → M (Unit {0})
unfolding after_observation
keep_open p = do written ← attempt (update_payment_observation p); after_observation written

unfoldable pub after_event : ProviderPayment → Result Bool → M (Unit {0})
unfolding retry
after_event p (err e) = do observe (reconciliation (lit "store_error")); retry p (error_text e)
after_event p (ok _) = observe (reconciliation p.status)

-- A final status becomes an event. `raw` is never empty after a call that succeeded with JSON.
unfoldable pub conclude : ProviderPayment → Response QueryOrderData → M (Unit {0})
unfolding after_event
conclude p response = do
  env ← get_env
  recorded ← attempt (
      record_provider_event
        (provider_status_event env.sha256 p (lit "poll") response.content.transaction_id)
        (raw response.raw))
  after_event p recorded

-- The tests have passed: what the provider reports becomes the payment's status.
unfoldable pub apply_status : ProviderPayment → Response QueryOrderData → M (Unit {0})
unfolding keep_open conclude status_at
apply_status p response = do
  checked ← now
  observed ← now
  let status = status_at response.content.status p.expires_at checked
  let seen = record p {
    status = status;
    raw_status = response.content.status;
    observed_at = observed;
  }
  if is_open status then keep_open seen else conclude seen response

unfoldable pub after_check :
    ProviderPayment → Response QueryOrderData → Result (Unit {0}) → M (Unit {0})
unfolding retry_mismatch apply_status
after_check p response (err e) = retry_mismatch p (error_text e)
after_check p response (ok _) = apply_status p response

unfoldable pub after_query : ProviderPayment → Result (Response QueryOrderData) → M (Unit {0})
unfolding retry after_check
after_query p (err e) = do observe (reconciliation (lit "error")); retry p (error_text e)
after_query p (ok response) = do
  env ← get_env
  after_check p response (
      mismatch env.rational response.content.prepay_id response.content.currency
        (amount response.content) p)

-- The queryOrder that New installs
unfoldable pub query_connection : Service → ProviderPayment → M (Response QueryOrderData)
query_connection s p = do
  client ← lift (client_of s.clients p.provider_connection_id)
  query_order client p.provider_reference p.provider_payment_id

unfoldable pub reconcile_payment : Service → ProviderPayment → M (Unit {0})
unfolding query_connection after_query
reconcile_payment s p = do
  started ← now
  response ← attempt (query_connection s p)
  observe_provider (lit "reconcile_payment") response started
  after_query p response

unfoldable pub reconcile_all : Service → List ProviderPayment → M (Unit {0})
unfolding reconcile_payment
reconcile_all s [] = pure tt
reconcile_all s (p ∷ ps) = do reconcile_payment s p; reconcile_all s ps

unfoldable pub after_claim : Service → Result (List ProviderPayment) → M (Unit {0})
unfolding reconcile_all
after_claim s (err e) = observe (reconciliation (lit "claim_error"))
after_claim s (ok payments) = reconcile_all s payments

-- reconcileBatch, with the workers of parallelEach in one of their orders
unfoldable pub reconcile_batch : Service → M (Unit {0})
unfolding after_claim
reconcile_batch s = do
  payments ← attempt (claim_payments_for_reconciliation 50)
  after_claim s payments
