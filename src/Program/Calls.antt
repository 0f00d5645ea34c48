-- ===== src/Program/Calls.antt =====
-- Calls of the provider and of the orchestrator, and the tables.
use dinapay_connector_binanc.Shared.{Text, Option, Bool}
use dinapay_connector_binanc.Core.Value.{Time, Value}
use dinapay_connector_binanc.Core.Error.{Result}
use dinapay_connector_binanc.Core.Context.{Context}
use dinapay_connector_binanc.Store.Schema.{Database}
use dinapay_connector_binanc.Effects.{observe_provider}
use dinapay_connector_binanc.Effects.Keeps.{Keeps, keeps_rules, Keeps-bind, Keeps-lift}
use dinapay_connector_binanc.Store.Events.{OutboxItem}
use dinapay_connector_binanc.BinancePay.Types.{Response, CreateOrderRequest, RefundOrderRequest}
use dinapay_connector_binanc.BinancePay.Client.{
  Client, random_nonce, exchange, call, call_for, require_success, require_closed, create_order,
  query_order, close_order, refund_order, query_refund,
}
use dinapay_connector_binanc.Publisher.{Publisher, send_event}

module _ {I : Database → Type 0} where
  pub observe_provider-Keeps :
      {A : Type 0} (operation : Text) (r : Result A) (started : Time)
      → Keeps I (observe_provider operation r started)
  unfolding observe_provider
  observe_provider-Keeps operation r started = search keeps_rules

  random_nonce-Keeps : Keeps I random_nonce
  unfolding random_nonce
  random_nonce-Keeps = search keeps_rules

  exchange-Keeps : (c : Client) (path body : Text) → Keeps I (exchange c path body)
  unfolding exchange
  exchange-Keeps c path body = search (keeps_rules, random_nonce-Keeps) depth 16

  call-Keeps : (c : Client) (path : Text) (payload : Value) → Keeps I (call c path payload)
  unfolding call
  call-Keeps c path payload = search (keeps_rules, exchange-Keeps) depth 8

  require_success-Keeps :
      {D : Type 0} (what : Text) (r : Response D) → Keeps I (require_success what r)
  unfolding require_success
  require_success-Keeps what r = search keeps_rules

  require_closed-Keeps : (r : Response Bool) → Keeps I (require_closed r)
  unfolding require_closed
  require_closed-Keeps r = search keeps_rules

  call_for-Keeps :
      {D : Type 0} (content : Option Value → Result D) (what : Text) (c : Client) (path : Text)
      (payload : Value)
      → Keeps I (call_for content what c path payload)
  unfolding call_for
  call_for-Keeps content what c path payload =
      search (keeps_rules, call-Keeps, require_success-Keeps) depth 8

  pub create_order-Keeps : (c : Client) (r : CreateOrderRequest) → Keeps I (create_order c r)
  unfolding create_order
  create_order-Keeps c r = search (call_for-Keeps)

  pub query_order-Keeps : (c : Client) (trade id : Text) → Keeps I (query_order c trade id)
  unfolding query_order
  query_order-Keeps c trade id = search (call_for-Keeps)

  pub refund_order-Keeps : (c : Client) (r : RefundOrderRequest) → Keeps I (refund_order c r)
  unfolding refund_order
  refund_order-Keeps c r = search (call_for-Keeps)

  pub query_refund-Keeps : (c : Client) (id : Text) → Keeps I (query_refund c id)
  unfolding query_refund
  query_refund-Keeps c id = search (call_for-Keeps)

  pub close_order-Keeps : (c : Client) (trade id : Text) → Keeps I (close_order c trade id)
  unfolding close_order
  close_order-Keeps c trade id = search (keeps_rules, call-Keeps, require_closed-Keeps) depth 8

  pub send_event-Keeps :
      (p : Publisher) (ctx : Context) (item : OutboxItem) → Keeps I (send_event p ctx item)
  unfolding send_event
  send_event-Keeps p ctx item = search keeps_rules depth 8

pub ruleset call_rules = (
  keeps_rules, observe_provider-Keeps, create_order-Keeps, query_order-Keeps, close_order-Keeps,
  refund_order-Keeps, query_refund-Keeps, send_event-Keeps,
)
