-- ===== src/Connector.antt =====
-- The program as a whole: cmd/connector/main.go.
pub mod Configuration
pub mod Secured
pub mod Keeps
pub mod Sound
use dinapay_connector_binanc.Shared.{Text, lit, List, [], ◌∷◌, ◌++◌}
use dinapay_connector_binanc.Shared.Int.{pos}
use dinapay_connector_binanc.Core.Error.{Result, ok, err}
use dinapay_connector_binanc.Core.Context.{background}
use dinapay_connector_binanc.Store.Schema.{OperationalStats}
use dinapay_connector_binanc.Store.Stats.{stats, open_store}
use dinapay_connector_binanc.Effects.{
  World, M, persistent, ◌>>=◌, ◌>>◌, lift, get_env, pure, ignore, attempt, observe,
}
use dinapay_connector_binanc.App.Reconciler.{reconcile_batch}
use dinapay_connector_binanc.App.Service
use dinapay_connector_binanc.Publisher
use dinapay_connector_binanc.Publisher.{flush}
use dinapay_connector_binanc.HttpApi.Message.{Request}
use dinapay_connector_binanc.HttpApi.Observe.{serve}
use dinapay_connector_binanc.Connector.Configuration.{
  Process, Connector, required, connect, read_connections, env_int, env_or,
}

-- main, up to the start of its loops and of the server. The connection to the database takes no part in
-- what follows.
unfoldable pub boot : Process → M Connector
unfolding required connect read_connections env_int env_or
boot process = do
  database_url ← lift (required process (lit "DATABASE_URL"))
  service_token ← lift (required process (lit "SERVICE_TOKEN"))
  text ← lift (required process (lit "CONNECTIONS_JSON"))
  env ← get_env
  connections ← lift (read_connections env.parse_json text)
  connected ← lift (connect process connections (record { clients = []; credentials = [] }))
  open_store
  webhook_url ← lift (required process (lit "WEBHOOK_BASE_URL"))
  v2_url ← lift (required process (lit "DINAPAY_V2_URL"))
  let service = Service.new connected.clients webhook_url
  pure (record {
    service = service;
    publisher = Publisher.new v2_url service_token;
    server = record {
      service = service;
      service_token = service_token;
      webhook_credentials = connected.credentials;
      crypto = process.crypto;
      formats = process.formats;
    };
    concurrency = env_int process (lit "RECONCILE_CONCURRENCY") (pos 8);
    address = lit ":" ++ env_or process (lit "PORT") (lit "8092");
  })

unfoldable pub after_stats : Result OperationalStats → M (Unit {0})
after_stats (ok figures) = observe (persistent figures)
after_stats (err e) = pure tt

-- A round of collectMetrics
unfoldable pub collect_metrics : M (Unit {0})
unfolding after_stats
collect_metrics = do figures ← attempt stats; after_stats figures

-- A request that arrives, and the tickers of the three background loops.
pub data Event : Type 0 where
  arrival : Request → Event
  reconcile publish collect : Event

unfoldable pub handle : Connector → Event → M (Unit {0})
unfolding collect_metrics
handle c (arrival request) = ignore (serve c.server request)
handle c reconcile = reconcile_batch c.service
handle c publish = flush c.publisher background
handle c collect = collect_metrics

-- The world after the events, one after the other.
unfoldable pub run : Connector → List Event → World → World
unfolding handle
run c [] w = w
run c (e ∷ events) w = run c events (handle c e w).1
