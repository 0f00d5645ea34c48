-- ===== src/Connector/Configuration.antt =====
-- What main reads of the process environment, and what it builds of it: main, envInt, required and env
-- of cmd/connector/main.go.
use dinapay_connector_binanc.Shared.{
  zero, suc, Text, lit, [], ◌∷◌, ◌++◌, List, Option, none, some, ◌==◌, text_eq, if◌then◌else◌,
}
use dinapay_connector_binanc.Shared.Int.{ℤ, pos, negsuc}
use dinapay_connector_binanc.Strings.Numbers.{parse_int}
use dinapay_connector_binanc.Core.Error.{Result, ok, err, message}
use dinapay_connector_binanc.Core.Model.{Connection}
use dinapay_connector_binanc.Core.Decode.{◌>>=◌}
use dinapay_connector_binanc.Core.Value.{Value}
use dinapay_connector_binanc.Core.Commands.{decode_connections}
use dinapay_connector_binanc.BinancePay.Client
use dinapay_connector_binanc.BinancePay.Client.{Client}
use dinapay_connector_binanc.BinancePay.Webhook.Rsa.{Crypto}
use dinapay_connector_binanc.App.Service.{Service}
use dinapay_connector_binanc.Publisher.{Publisher}
use dinapay_connector_binanc.Metrics.Exposition.{Formats}
use dinapay_connector_binanc.HttpApi.Server.{Server, WebhookCredential}

-- os.Getenv, url.Parse, and what the packages under the server make of keys and figures
pub record Process : Type 0 where
  pub getenv : Text → Text
  pub parse_url : Text → Result (Unit {0})
  pub crypto : Crypto
  pub formats : Formats

-- What main starts.
pub record Connector : Type 0 where
  pub service : Service
  pub publisher : Publisher
  pub server : Server
  pub concurrency : ℤ
  pub address : Text

-- env
unfoldable pub env_or : Process → Text → Text → Text
env_or process name fallback = if process.getenv name == [] then fallback else process.getenv name

unfoldable pub or_fallback : ℤ → Option ℤ → ℤ
or_fallback fallback none = fallback
or_fallback fallback (some (pos zero)) = fallback
or_fallback fallback (some (pos (suc n))) = pos (suc n)
or_fallback fallback (some (negsuc n)) = fallback

-- envInt
unfoldable pub env_int : Process → Text → ℤ → ℤ
unfolding or_fallback
env_int process name fallback = or_fallback fallback (parse_int (process.getenv name))

-- required, whose log.Fatalf is an error here
unfoldable pub required : Process → Text → Result Text
required process name =
    if process.getenv name == []
    then err (message (name ++ lit " is required"))
    else ok (process.getenv name)

unfoldable pub client_for : Process → Connection → Result Client
unfolding required
client_for process connection = do
  api_key ← required process connection.api_key_env
  secret_key ← required process connection.secret_key_env
  Client.new process.parse_url connection.base_url api_key secret_key connection.proxy_url

unfoldable pub credential_for : Process → Connection → WebhookCredential
credential_for process connection = record {
  hmac_secret = process.getenv connection.secret_key_env;
  public_key =
      if connection.webhook_public_key_env == []
      then []
      else process.getenv connection.webhook_public_key_env;
}

-- The maps of clients and of webhook credentials, the entries of the last connection first
pub record Connected : Type 0 where
  pub clients : List (Text × Client)
  pub credentials : List (Text × WebhookCredential)

-- The loop over the connections
unfoldable pub connect : Process → List Connection → Connected → Result Connected
unfolding client_for credential_for
connect process [] made = ok made
connect process (connection ∷ rest) made = do
  client ← client_for process connection
  connect process rest (record {
    clients = (connection.id, client) ∷ made.clients;
    credentials = (connection.id, credential_for process connection) ∷ made.credentials;
  })

-- json.Unmarshal of CONNECTIONS_JSON
unfoldable pub read_connections : (Text → Result Value) → Text → Result (List Connection)
read_connections parse_json text = do value ← parse_json text; decode_connections value
