-- ===== src/HttpApi/Server.antt =====
-- The server of server.go: the writing of its answers, its middlewares and its pages.
use dinapay_connector_binanc.Shared.{
  ℕ, Text, lit, [], ◌++◌, List, Option, none, some, Bool, not, ◌&&◌, ◌||◌, ◌==◌, text_eq,
  if◌then◌else◌,
}
use dinapay_connector_binanc.Strings.{trim_prefix}
use dinapay_connector_binanc.Core.Error.{
  Error, Result, ok, err, not_found, conflict, message, error_text,
}
use dinapay_connector_binanc.Core.Value.{Value, str, obj, end, field}
use dinapay_connector_binanc.Effects.{Env, M, ◌>>=◌, pure, gets, get_env}
use dinapay_connector_binanc.BinancePay.Webhook.Rsa.{Crypto}
use dinapay_connector_binanc.App.Service.{Service}
use dinapay_connector_binanc.Metrics.{registry_of}
use dinapay_connector_binanc.Metrics.Exposition.{Formats, exposition}
use dinapay_connector_binanc.HttpApi.Message.{
  Request, Reply, header, set_header, write_header, write_body, page_not_found,
}

pub record WebhookCredential : Type 0 where
  pub hmac_secret : Text
  pub public_key : Text

-- The struct, and what the packages that it calls make of keys and of figures.
pub record Server : Type 0 where
  pub service : Service
  pub service_token : Text
  pub webhook_credentials : List (Text × WebhookCredential)
  pub crypto : Crypto
  pub formats : Formats

-- What the Encoder writes of a value: nothing, where it cannot be JSON.
encoded : Env → Option Value → Text
encoded env none = []
encoded env (some value) = env.print_json value ++ lit "\n"

-- write
unfoldable pub write : Env → ℕ → Option Value → Reply → Reply
unfolding set_header write_header write_body encoded
write env status value reply =
    write_body (encoded env value)
      (write_header status (set_header "Content-Type" (lit "application/json") reply))

-- problem
unfoldable pub problem : Env → ℕ → Text → Text → Reply → Reply
unfolding write
problem env status code text = write env status (
    some (
      obj (
        field (lit "error")
          (obj (field (lit "code") (str code) (field (lit "message") (str text) end))) end)))

-- mapError
unfoldable pub map_error : Env → Error → Reply → Reply
unfolding problem
map_error env not_found = problem env 404 (lit "not_found") (error_text not_found)
map_error env conflict = problem env 409 (lit "idempotency_conflict") (error_text conflict)
map_error env (message text) = problem env 422 (lit "provider_error") text

-- The answer of the service, with the status of a success
unfoldable pub respond : {A : Type 0} → Env → ℕ → (A → Option Value) → Result A → Reply → Reply
unfolding map_error write
respond env status encode (ok a) reply = write env status (encode a) reply
respond env status encode (err e) reply = map_error env e reply

abbrev pub Handler : Type 0
Handler = Request → Reply → M Reply

unfoldable pub page : Value → Handler
unfolding write
page value request reply = do env ← get_env; pure (write env 200 (some value) reply)

unfoldable pub status_page : Text → Handler
unfolding page
status_page status = page (obj (field (lit "status") (str status) end))

unfoldable pub metrics_page : Formats → Handler
metrics_page formats request reply = do
  text ← gets (λ w. exposition formats (registry_of w.metrics))
  pure (
      write_body text
        (set_header "Content-Type" (lit "text/plain; version=0.0.4; charset=utf-8") reply))

-- Has a proxy passed the request on?
unfoldable pub is_forwarded : Request → Bool
is_forwarded request =
    not (header "X-Forwarded-For" request == []) || not (header "X-Real-IP" request == [])

-- internalOnly
unfoldable pub internal_only : Handler → Handler
unfolding is_forwarded
internal_only next request reply =
    if is_forwarded request then pure (page_not_found reply) else next request reply

-- auth: the test of the token
unfoldable pub is_authorized : Server → Request → Bool
is_authorized s request =
    not (s.service_token == [])
    && trim_prefix (header "Authorization" request) (lit "Bearer ") == s.service_token

unfoldable pub unauthorized : Reply → M Reply
unfolding problem
unauthorized reply = do
  env ← get_env
  pure (problem env 401 (lit "unauthorized") (lit "invalid service credentials") reply)

unfoldable pub auth : Server → Handler → Handler
unfolding is_authorized unauthorized
auth s next request reply =
    if is_authorized s request then next request reply else unauthorized reply
