-- ===== src/HttpApi/Handlers.antt =====
-- The handlers of server.go that read a request, call the service, and write its answer.
use dinapay_connector_binanc.Shared.{
  ℕ, Text, lit, [], ◌∷◌, List, Option, none, some, Bool, true, false, ◌==◌, text_eq, if◌then◌else◌,
}
use dinapay_connector_binanc.Core.Error.{Error, Result, ok, err, not_found, error_text}
use dinapay_connector_binanc.Core.Value.{Time, Value, str, obj, end, field}
use dinapay_connector_binanc.Core.Model.{
  BindingRequirement, Capabilities, CreatePaymentCommand, CancelPaymentCommand, CreateRefundCommand,
}
use dinapay_connector_binanc.Core.Encode.{marshal_payment, marshal_refund}
use dinapay_connector_binanc.Core.Capabilities.{encode_capabilities}
use dinapay_connector_binanc.Effects.{
  Env, M, webhook, ◌>>=◌, ◌>>◌, pure, attempt, now, observe, get_env,
}
use dinapay_connector_binanc.BinancePay.Webhook.{verify_webhook}
use dinapay_connector_binanc.App.Service
use dinapay_connector_binanc.App.Refunds
use dinapay_connector_binanc.App.Webhook
use dinapay_connector_binanc.HttpApi.Message.{Request, Reply, header}
use dinapay_connector_binanc.HttpApi.Body.{create_command, cancel_command, refund_command, read_all}
use dinapay_connector_binanc.HttpApi.Server.{
  WebhookCredential, Server, Handler, problem, respond, write, page,
}

sub_merchant_binding : BindingRequirement
sub_merchant_binding = record {
  code = lit "merchant_sub_merchant";
  entity_type = lit "merchant";
  external_entity_type = lit "sub_merchant";
  required = true;
  cardinality = lit "one";
  provisioning_mode = lit "external_registration";
}

unfoldable pub provider_capabilities : Capabilities
unfolding sub_merchant_binding
provider_capabilities = record {
  provider = lit "binancepay";
  contract_version = lit "1";
  capabilities =
      record {
        operation = lit "payment";
        countries = lit "*" ∷ [];
        currencies = lit "USDT" ∷ [];
        payment_methods = lit "crypto_payment" ∷ [];
        rails = lit "binance_pay" ∷ [];
        features = lit "refund" ∷ lit "partial_refund" ∷ lit "cancel" ∷ lit "reconciliation" ∷ [];
        binding_requirement = some (record {
          code = [];
          entity_type = sub_merchant_binding.entity_type;
          external_entity_type = sub_merchant_binding.external_entity_type;
          required = false;
          cardinality = [];
          provisioning_mode = [];
        });
        binding_requirements = sub_merchant_binding ∷ [];
      }
      ∷ record {
        operation = lit "refund";
        countries = lit "*" ∷ [];
        currencies = lit "USDT" ∷ [];
        payment_methods = lit "crypto_payment" ∷ [];
        rails = lit "binance_pay" ∷ [];
        features = lit "partial_refund" ∷ [];
        binding_requirement = none;
        binding_requirements = [];
      }
      ∷ [];
}

unfoldable pub capabilities : Handler
unfolding page provider_capabilities
capabilities = page (encode_capabilities provider_capabilities)

-- A body that is no command is a 400.
unfoldable pub invalid_request : Error → Reply → M Reply
unfolding problem
invalid_request e reply = do
  env ← get_env
  pure (problem env 400 (lit "invalid_request") (error_text e) reply)

-- A call of the service, and its answer as the body of a reply
unfoldable pub call : {A : Type 0} → ℕ → (A → Option Value) → M A → Reply → M Reply
unfolding respond
call status encode action reply = do
  answer ← attempt action
  env ← get_env
  pure (respond env status encode answer reply)

unfoldable pub create_decoded : Server → Request → Result CreatePaymentCommand → Reply → M Reply
unfolding invalid_request call
create_decoded s request (err e) reply = invalid_request e reply
create_decoded s request (ok command) reply =
    call 201 marshal_payment (Service.create s.service command (header "Idempotency-Key" request))
      reply

unfoldable pub create : Server → Handler
unfolding create_decoded
create s request reply = do
  env ← get_env
  create_decoded s request (create_command env request) reply

unfoldable pub get : Server → Text → Handler
unfolding call
get s id request reply =
    call 200 marshal_payment (Service.get s.service (header "Provider-Connection-Id" request) id)
      reply

unfoldable pub cancel_decoded : Server → Text → Result CancelPaymentCommand → Reply → M Reply
unfolding invalid_request call
cancel_decoded s id (err e) reply = invalid_request e reply
cancel_decoded s id (ok command) reply =
    call 200 marshal_payment (Service.cancel s.service command.provider_connection_id id) reply

unfoldable pub cancel : Server → Text → Handler
unfolding cancel_decoded
cancel s id request reply = do env ← get_env; cancel_decoded s id (cancel_command env request) reply

unfoldable pub refund_decoded :
    Server → Text → Request → Result CreateRefundCommand → Reply → M Reply
unfolding invalid_request call
refund_decoded s id request (err e) reply = invalid_request e reply
refund_decoded s id request (ok command) reply =
    call 201 marshal_refund
      (Refunds.create_refund s.service id (header "Idempotency-Key" request) command) reply

unfoldable pub refund : Server → Text → Handler
unfolding refund_decoded
refund s id request reply = do
  env ← get_env
  refund_decoded s id request (refund_command env request) reply

unfoldable pub get_refund : Server → Text → Handler
unfolding call
get_refund s id request reply =
    call 200 marshal_refund
      (Refunds.get_refund s.service (header "Provider-Connection-Id" request) id) reply

unfoldable pub credential_of : List (Text × WebhookCredential) → Text → Option WebhookCredential
credential_of [] connection = none
credential_of ((id, credential) ∷ rest) connection =
    let later = credential_of rest connection in if id == connection then some credential else later

unfoldable pub refuse_webhook : ℕ → Text → Error → Reply → M Reply
unfolding problem
refuse_webhook status code e reply = do
  observe (webhook (lit "rejected"))
  env ← get_env
  pure (problem env status code (error_text e) reply)

abbrev pub success : Value
success = obj (
    field (lit "returnCode") (str (lit "SUCCESS"))
      (field (lit "returnMessage") (str (lit "OK")) end))

unfoldable pub accept_webhook : Reply → M Reply
unfolding write
accept_webhook reply = do
  observe (webhook (lit "accepted"))
  env ← get_env
  pure (write env 200 (some success) reply)

-- An order that is not there is no reason to have the webhook sent again.
unfoldable pub after_handling : Result Bool → Reply → M Reply
unfolding refuse_webhook accept_webhook
after_handling (ok _) reply = accept_webhook reply
after_handling (err not_found) reply = accept_webhook reply
after_handling (err e) reply = refuse_webhook 422 (lit "webhook_rejected") e reply

unfoldable pub after_verification : Text → Text → Result (Unit {0}) → Reply → M Reply
unfolding refuse_webhook after_handling
after_verification connection body (err e) reply =
    refuse_webhook 401 (lit "invalid_signature") e reply
after_verification connection body (ok _) reply = do
  handled ← attempt (Webhook.handle_webhook connection body)
  after_handling handled reply

unfoldable pub verify : Server → WebhookCredential → Request → Text → Env → Time → Result (Unit {0})
verify s credential request body env now =
    verify_webhook env.hmac_sha512 s.crypto (header "BinancePay-Timestamp" request)
      (header "BinancePay-Nonce" request) (header "BinancePay-Signature" request) body
      credential.hmac_secret credential.public_key now

unfoldable pub with_credential :
    Server → Text → Text → Request → Option WebhookCredential → Reply → M Reply
unfolding problem verify after_verification
with_credential s connection body request none reply = do
  env ← get_env
  pure (problem env 404 (lit "not_found") (lit "unknown provider connection") reply)
with_credential s connection body request (some credential) reply = do
  env ← get_env
  received ← now
  after_verification connection body (verify s credential request body env received) reply

unfoldable pub with_body : Server → Text → Request → Result Text → Reply → M Reply
unfolding invalid_request with_credential credential_of
with_body s connection request (err e) reply = invalid_request e reply
with_body s connection request (ok body) reply =
    with_credential s connection body request (credential_of s.webhook_credentials connection) reply

unfoldable pub receive_webhook : Server → Text → Handler
unfolding with_body
receive_webhook s connection request reply = with_body s connection request (read_all request) reply
