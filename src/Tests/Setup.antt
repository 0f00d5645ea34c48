-- ===== src/Tests/Setup.antt =====
-- A service with one connection, and surroundings that answer every request with success.
use dinapay_connector_binanc.Shared.{◌+◌, lit, [], ◌∷◌, ◌++◌, replicate, none, some, false}
use dinapay_connector_binanc.Core.Error.{ok}
use dinapay_connector_binanc.Core.Value.{Value, str, obj, end, field}
use dinapay_connector_binanc.Core.Model.{Binding, CreatePaymentCommand, ProviderPayment}
use dinapay_connector_binanc.Store.Schema.{empty}
use dinapay_connector_binanc.Effects.{Env, World}
use dinapay_connector_binanc.BinancePay.Client.{Client}
use dinapay_connector_binanc.App.Service.{Service}
use dinapay_connector_binanc.Publisher.{Publisher}
use dinapay_connector_binanc.Strings.Numbers.{decimal}
use dinapay_connector_binanc.BinancePay.Webhook.Rsa.{Crypto}
use dinapay_connector_binanc.Metrics.Exposition.{Formats}

abbrev pub client : Client
client = record {
  base_url = lit "https://bpay.example";
  api_key = lit "api";
  secret_key = lit "secret";
}

abbrev pub service : Service
service = record { clients = (lit "c1", client) ∷ []; webhook_url = lit "https://hook.example" }

abbrev pub publisher : Publisher
publisher = record { endpoint = lit "https://orchestrator.example"; token = lit "token" }

-- The answer to a creation, as the provider writes it.
abbrev pub created_answer : Value
created_answer = obj (
    field (lit "status") (str (lit "SUCCESS"))
      (field (lit "data") (obj (field (lit "prepayId") (str (lit "p1")) end)) end))

-- A body that is both an answer to the creation and a webhook that reports its payment.
abbrev pub paid_answer : Value
paid_answer = obj (
    field (lit "status") (str (lit "SUCCESS")) (
      field (lit "bizStatus") (str (lit "PAY_SUCCESS")) (
        field (lit "data")
          (obj (
            field (lit "prepayId") (str (lit "p1"))
              (field (lit "merchantTradeNo") (str (lit "tx1")) end)))
          end)))

abbrev pub answering : Value → Env
answering answer = record {
  clock = λ n. 64_000_000_000_000_000_000 + n;
  fault = λ n. none;
  http = λ n r. ok (record { status_code = 200; body = lit "{}" });
  random = λ n size. ok (1 ∷ 2 ∷ []);
  print_json = λ v. [];
  parse_json = λ text. ok answer;
  decode_json = λ text error. ok answer;
  parse_time = λ text. ok 5;
  float_text = λ text. ok text;
  sha256 = λ text. 7 ∷ [];
  hmac_sha512 = λ k text. 9 ∷ [];
  rational = λ text. none;
  timestamptz = λ t. t;
  violation = lit "duplicate key value violates unique constraint";
  locked = λ n c p. false;
}

abbrev pub start : Value → World
start answer = record { env = answering answer; step = 0; db = empty; sent = []; metrics = [] }

abbrev pub binding : Binding
binding = record {
  binding_id = lit "b1";
  entity_type = lit "merchant";
  entity_id = lit "m1";
  external_entity_type = lit "sub_merchant";
  external_entity_id = lit "s1";
}

abbrev pub command : CreatePaymentCommand
command = record {
  operation_id = lit "o1";
  transaction_id = lit "tx-1";
  provider = lit "binancepay";
  provider_connection_id = lit "c1";
  binding = some binding;
  amount = lit "0.25";
  currency = lit "usdt";
  payment_method = lit "crypto_payment";
  rail = [];
  destination_mode = [];
  description = [];
  expires_at = 0;
  return_urls = [];
  customer = none;
  metadata = end;
}

-- The payment that the creation answers.
abbrev pub answered : ProviderPayment
answered = record {
  transaction_id = lit "tx-1";
  provider = lit "binancepay";
  provider_connection_id = lit "c1";
  provider_payment_id = lit "p1";
  provider_reference = lit "tx1";
  status = lit "created";
  raw_status = lit "INITIAL";
  observed_at = 64_000_000_000_000_000_007;
  expires_at = 0;
  completion = field (lit "links") (obj end) (field (lit "type") (str (lit "redirect")) end);
  provider_data = field (lit "merchantTradeNo") (str (lit "tx1")) end;
  amount = lit "0.25";
  currency = lit "USDT";
}

-- Packages that read and verify no key.
abbrev pub crypto : Crypto
crypto = record {
  pem_decode = λ text. none;
  parse_public_key = λ bytes. ok none;
  base64_std = λ text. ok text;
  base64_raw_std = λ text. ok text;
  base64_url = λ text. ok text;
  base64_raw_url = λ text. ok text;
  decode_hex = λ text. ok text;
  sha256 = λ text. text;
  verify_pkcs1v15 = λ key digest bytes. false;
}

-- Figures without a fraction, and sums left out.
abbrev pub formats : Formats
formats = record {
  quote = λ s. b'"' ∷ (s ++ b'"' ∷ []);
  sum_text = λ times. [];
  rows_text = decimal;
  age_text = λ age. [];
}

-- The same surroundings, with as many random bytes as are asked for.
abbrev pub random_start : Value → World
random_start answer = record (start answer) {
  env = record (answering answer) { random = λ n size. ok (replicate size 7) };
}
