-- ===== src/Tests/Connector.antt =====
-- The connector from its start, over HTTP and the ticks.
use dinapay_connector_binanc.Shared.{
  false, ◌≤◌, ◌≡◌, none, lit, [], ◌∷◌, List, ◌==◌, text_eq, if◌then◌else◌, refl,
}
use dinapay_connector_binanc.Shared.Int.{pos}
use dinapay_connector_binanc.Core.Error.{ok}
use dinapay_connector_binanc.Core.Value.{Value, str, arr, obj, nil, cons, end, field}
use dinapay_connector_binanc.Core.Commands.{
  decode_create_command, decode_connections, decode_connection,
}
use dinapay_connector_binanc.Core.Strict.{struct_fields}
use dinapay_connector_binanc.Effects.{World}
use dinapay_connector_binanc.Store.Stats.{open_store, migrate, stats}
use dinapay_connector_binanc.Program.{run}
use dinapay_connector_binanc.Invariants.Outbox.{IsMirrored}
use dinapay_connector_binanc.Invariants.Unique.{IsUnique}
use dinapay_connector_binanc.Invariants.Scheduled.{IsScheduled}
use dinapay_connector_binanc.Invariants.Opened.{opened-IsScheduled}
use dinapay_connector_binanc.BinancePay.Client
use dinapay_connector_binanc.App.Service
use dinapay_connector_binanc.App.Service.{Service}
use dinapay_connector_binanc.Publisher
use dinapay_connector_binanc.Connector
use dinapay_connector_binanc.Connector.{
  collect_metrics, after_stats, boot, arrival, reconcile, publish, collect, Event,
}
use dinapay_connector_binanc.Connector.Configuration.{
  Process, Connector, required, connect, read_connections, env_int, or_fallback, env_or,
}
use dinapay_connector_binanc.Connector.Secured.{IsSecured, boot-IsSecured}
use dinapay_connector_binanc.Connector.Sound.{connector-IsSound}
use dinapay_connector_binanc.HttpApi.Message.{Request, lookup_header}
use dinapay_connector_binanc.HttpApi.Headers.{request_id_for, trace_for}
use dinapay_connector_binanc.HttpApi.Routes.{find_route}
use dinapay_connector_binanc.HttpApi.Body.{create_command}
use dinapay_connector_binanc.HttpApi.Server.{auth}
use dinapay_connector_binanc.HttpApi.Handlers
use dinapay_connector_binanc.HttpApi.Observe.{serve}
use dinapay_connector_binanc.Idempotency.Posts.{post_requests, post_requests-le-one}
use dinapay_connector_binanc.Store.Schema.{empty}
use dinapay_connector_binanc.Store.Events.{new_outbox}
use dinapay_connector_binanc.Invariants.Offered.{offers, mark_published-offers}
use dinapay_connector_binanc.Tests.Machine.{machine}
use dinapay_connector_binanc.Tests.Setup.{
  service, publisher, start, random_start, crypto, formats, created_answer,
}
use dinapay_connector_binanc.Tests.Http.{get_request}

opened-IsScheduled_example :
    IsScheduled (run service publisher [] (open_store (start created_answer)).1).db
unfolding machine open_store migrate
opened-IsScheduled_example = opened-IsScheduled service publisher [] (start created_answer) refl

abbrev connection : Value
connection = obj (
    field (lit "id") (str (lit "c1")) (
      field (lit "apiKeyEnv") (str (lit "KEY"))
        (field (lit "secretKeyEnv") (str (lit "SECRET")) end)))

-- An environment in which each variable has a value.
abbrev process : Process
process = record {
  getenv = λ name. if name == lit "RECONCILE_CONCURRENCY" then lit "0" else lit "value";
  parse_url = λ text. ok tt;
  crypto = crypto;
  formats = formats;
}

abbrev world : World
world = random_start (arr (cons connection nil))

abbrev service_of_boot : Service
service_of_boot = record {
  clients =
      (
        lit "c1",
        record {
          base_url = lit "https://bpay.binanceapi.com";
          api_key = lit "value";
          secret_key = lit "value";
        },
      )
      ∷ [];
  webhook_url = lit "value";
}

abbrev events : List Event
events = arrival (get_request (lit "Bearer value")) ∷ reconcile ∷ publish ∷ collect ∷ []

abbrev started : Connector
started = record {
  service = service_of_boot;
  publisher = record { endpoint = lit "value/internal/v1/provider-events"; token = lit "value" };
  server = record {
    service = service_of_boot;
    service_token = lit "value";
    webhook_credentials = (lit "c1", record { hmac_secret = lit "value"; public_key = [] }) ∷ [];
    crypto = crypto;
    formats = formats;
  };
  concurrency = pos 8;
  address = lit ":value";
}

boot-IsSecured_example : IsSecured started
unfolding machine boot open_store migrate required connect read_connections decode_connections
    struct_fields decode_connection env_int or_fallback env_or Client.new Service.new Publisher.new
boot-IsSecured_example = boot-IsSecured process world started refl

connector-IsSound_example :
    IsMirrored (Connector.run started events (boot process world).1).db
    × IsUnique (Connector.run started events (boot process world).1).db
    × IsScheduled (Connector.run started events (boot process world).1).db
unfolding machine boot open_store migrate required connect read_connections decode_connections
    struct_fields decode_connection env_int or_fallback env_or Client.new Service.new Publisher.new
connector-IsSound_example =
    connector-IsSound process world started events (record { mirrored = refl })
      (record { operations = tt; orders = tt; inbound_events = tt; outbox = tt; refunds = tt }) refl

-- A POST of a payment, with an idempotency key.
abbrev post_request : Request
post_request = record {
  method = lit "POST";
  path = lit "v1" ∷ lit "payments" ∷ [];
  headers = (lit "Authorization", lit "Bearer value") ∷ (lit "Idempotency-Key", lit "k1") ∷ [];
  body = [];
  body_error = none;
}

abbrev payment_order : Value
payment_order = obj (
    field (lit "transactionId") (str (lit "tx-1")) (
      field (lit "providerConnectionId") (str (lit "c1")) (
        field (lit "binding") (obj (field (lit "externalEntityId") (str (lit "s1")) end)) (
          field (lit "amount") (str (lit "0.25"))
            (field (lit "currency") (str (lit "USDT")) end)))))

abbrev posts : List Event
posts = arrival post_request ∷ reconcile ∷ arrival post_request ∷ []

post_requests-le-one_example :
    post_requests (lit "k1") started posts (random_start payment_order) ≤ 1
post_requests-le-one_example =
    post_requests-le-one (lit "k1") started posts (random_start payment_order)

-- The first of them sends it.
posts_send_one : post_requests (lit "k1") started posts (random_start payment_order) ≡ 1
unfolding machine post_requests find_route lookup_header Connector.handle serve request_id_for
    trace_for auth Handlers.create create_command decode_create_command
posts_send_one = refl

-- A world with one event in the outbox.
abbrev waiting : World
waiting = record (start payment_order) {
  db = record empty { outbox = new_outbox (lit "e1") (obj end) 5 ∷ [] };
}

mark_published-offers_example : offers (lit "e1") [] ≡ false
unfolding machine new_outbox Connector.run Connector.handle collect_metrics stats after_stats
mark_published-offers_example =
    mark_published-offers (lit "e1") started (publish ∷ collect ∷ []) waiting 50 [] refl refl refl
