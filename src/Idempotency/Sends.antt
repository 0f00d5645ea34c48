-- ===== src/Idempotency/Sends.antt =====
-- The requests that Create of service.go sends to the provider.
use dinapay_connector_binanc.Shared.{Text}
use dinapay_connector_binanc.Core.Value.{Time, Value}
use dinapay_connector_binanc.Core.Error.{Result, ok, err}
use dinapay_connector_binanc.Core.Model.{CreatePaymentCommand, ProviderPayment}
use dinapay_connector_binanc.Effects.{fail, observe_provider}
use dinapay_connector_binanc.Effects.Sent.{
  Quiet, Quiet-fail, Once, quiet_rules, Once-first, Once-rest, Once-if, Once-Quiet, Once-attempt,
  Once-http_do,
}
use dinapay_connector_binanc.Store.Operations.{
  replay_create, reserve_create, complete_create, fail_create,
}
use dinapay_connector_binanc.BinancePay.Types.{Response, CreateOrderRequest, CreateOrderData}
use dinapay_connector_binanc.BinancePay.Client.{
  Client, random_nonce, exchange, lacks_credentials, credentials_missing, call, require_success,
  create_order,
}
use dinapay_connector_binanc.App.Service.{Service, settle_create, create_reserved}

replay_create-Quiet : (key hash : Text) → Quiet (replay_create key hash)
unfolding replay_create
replay_create-Quiet key hash = search quiet_rules depth 8

pub reserve_create-Quiet : (key hash : Text) (v : Value) → Quiet (reserve_create key hash v)
unfolding reserve_create
reserve_create-Quiet key hash v = search (quiet_rules, replay_create-Quiet) depth 8

complete_create-Quiet :
    (key : Text) (p : ProviderPayment) (v : Value) → Quiet (complete_create key p v)
unfolding complete_create
complete_create-Quiet key p v = search quiet_rules depth 12

fail_create-Quiet : (key text : Text) → Quiet (fail_create key text)
unfolding fail_create
fail_create-Quiet key text = search quiet_rules depth 8

settle_create-Quiet :
    (cmd : CreatePaymentCommand) (key : Text) (r : Result (Response CreateOrderData))
    → Quiet (settle_create cmd key r)
unfolding settle_create
settle_create-Quiet cmd key (ok r) = search (quiet_rules, complete_create-Quiet) depth 8
settle_create-Quiet cmd key (err e) = search (quiet_rules, fail_create-Quiet) depth 8

random_nonce-Quiet : Quiet random_nonce
unfolding random_nonce
random_nonce-Quiet = search quiet_rules

observe_provider-Quiet :
    {A : Type 0} (operation : Text) (r : Result A) (started : Time)
    → Quiet (observe_provider operation r started)
unfolding observe_provider
observe_provider-Quiet operation r started = search quiet_rules

exchange-Once : (c : Client) (path body : Text) → Once (exchange c path body)
unfolding exchange
exchange-Once c path body = Once-rest _ _ (search quiet_rules) λ env.
    Once-rest _ _ (search quiet_rules) λ time.
      Once-rest _ _ random_nonce-Quiet
        λ nonce. Once-first _ _ (Once-http_do _) (λ response. search quiet_rules depth 8)

call-Once : (c : Client) (path : Text) (payload : Value) → Once (call c path payload)
unfolding call
call-Once c path payload = Once-rest _ _ (search quiet_rules) λ env.
    Once-if (lacks_credentials c) (fail credentials_missing)
      (exchange c path (env.print_json payload)) (Once-Quiet _ (Quiet-fail credentials_missing))
      (exchange-Once c path (env.print_json payload))

require_success-Quiet : {D : Type 0} (what : Text) (r : Response D) → Quiet (require_success what r)
unfolding require_success
require_success-Quiet what r = search quiet_rules

create_order-Once : (c : Client) (r : CreateOrderRequest) → Once (create_order c r)
unfolding create_order
create_order-Once c r =
    Once-first _ _ (call-Once c _ _) (λ a. search (quiet_rules, require_success-Quiet) depth 8)

pub create_reserved-Once :
    (s : Service) (c : Client) (cmd : CreatePaymentCommand) (key : Text)
    → Once (create_reserved s c cmd key)
unfolding create_reserved
create_reserved-Once s c cmd key = Once-rest _ _ (search quiet_rules) λ started.
    Once-first _ _ (Once-attempt _ (create_order-Once c _))
      (λ response. search (quiet_rules, observe_provider-Quiet, settle_create-Quiet) depth 8)
