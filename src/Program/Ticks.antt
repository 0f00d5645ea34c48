-- ===== src/Program/Ticks.antt =====
-- Invariants of the store under the reconciler and the publisher.
use dinapay_connector_binanc.Shared.{Text, List, [], ◌∷◌, Bool}
use dinapay_connector_binanc.Core.Error.{Result, ok, err}
use dinapay_connector_binanc.Core.Model.{ProviderPayment}
use dinapay_connector_binanc.Core.Context.{Context}
use dinapay_connector_binanc.Store.Schema.{Database}
use dinapay_connector_binanc.Store.Events.{OutboxItem}
use dinapay_connector_binanc.Effects.Keeps.{Keeps, keeps_rules}
use dinapay_connector_binanc.BinancePay.Types.{Response, QueryOrderData}
use dinapay_connector_binanc.App.Service.{Service}
use dinapay_connector_binanc.App.Reconciler
use dinapay_connector_binanc.Publisher
use dinapay_connector_binanc.Publisher.{Publisher}
use dinapay_connector_binanc.Program.Calls.{call_rules}
use dinapay_connector_binanc.Program.Tables.{StoreKeeps, store_rules}

module _ {I : Database → Type 0} ⦃k : StoreKeeps I⦄ where
  retry-Keeps : (p : ProviderPayment) (text : Text) → Keeps I (Reconciler.retry p text)
  unfolding Reconciler.retry
  retry-Keeps p text = search (keeps_rules, store_rules)

  after_observation-Keeps : (r : Result (Unit {0})) → Keeps I (Reconciler.after_observation r)
  unfolding Reconciler.after_observation
  after_observation-Keeps (ok _) = search keeps_rules
  after_observation-Keeps (err e) = search keeps_rules

  keep_open-Keeps : (p : ProviderPayment) → Keeps I (Reconciler.keep_open p)
  unfolding Reconciler.keep_open
  keep_open-Keeps p = search (keeps_rules, store_rules, after_observation-Keeps) depth 10

  after_event-Keeps : (p : ProviderPayment) (r : Result Bool) → Keeps I (Reconciler.after_event p r)
  unfolding Reconciler.after_event
  after_event-Keeps p (ok _) = search keeps_rules
  after_event-Keeps p (err e) = search (keeps_rules, retry-Keeps)

  conclude-Keeps :
      (p : ProviderPayment) (r : Response QueryOrderData) → Keeps I (Reconciler.conclude p r)
  unfolding Reconciler.conclude
  conclude-Keeps p r = search (keeps_rules, store_rules, after_event-Keeps) depth 10

  apply_status-Keeps :
      (p : ProviderPayment) (r : Response QueryOrderData) → Keeps I (Reconciler.apply_status p r)
  unfolding Reconciler.apply_status
  apply_status-Keeps p r = search (keeps_rules, keep_open-Keeps, conclude-Keeps) depth 12

  after_check-Keeps :
      (p : ProviderPayment) (r : Response QueryOrderData) (checked : Result (Unit {0}))
      → Keeps I (Reconciler.after_check p r checked)
  unfolding Reconciler.after_check Reconciler.retry_mismatch
  after_check-Keeps p r (ok _) = apply_status-Keeps p r
  after_check-Keeps p r (err e) = search (keeps_rules, retry-Keeps)

  after_query-Keeps :
      (p : ProviderPayment) (r : Result (Response QueryOrderData))
      → Keeps I (Reconciler.after_query p r)
  unfolding Reconciler.after_query
  after_query-Keeps p (ok r) = search (keeps_rules, after_check-Keeps)
  after_query-Keeps p (err e) = search (keeps_rules, retry-Keeps)

  reconcile_payment-Keeps :
      (s : Service) (p : ProviderPayment) → Keeps I (Reconciler.reconcile_payment s p)
  unfolding Reconciler.reconcile_payment Reconciler.query_connection
  reconcile_payment-Keeps s p = search (call_rules, after_query-Keeps) depth 16

  reconcile_all-Keeps :
      (s : Service) (ps : List ProviderPayment) → Keeps I (Reconciler.reconcile_all s ps)
  unfolding Reconciler.reconcile_all
  reconcile_all-Keeps s [] = search keeps_rules
  reconcile_all-Keeps s (p ∷ ps) =
      search (keeps_rules, reconcile_payment-Keeps s p, reconcile_all-Keeps s ps)

  after_claim-Keeps :
      (s : Service) (r : Result (List ProviderPayment)) → Keeps I (Reconciler.after_claim s r)
  unfolding Reconciler.after_claim
  after_claim-Keeps s (ok ps) = reconcile_all-Keeps s ps
  after_claim-Keeps s (err e) = search keeps_rules

  pub reconcile_batch-Keeps : (s : Service) → Keeps I (Reconciler.reconcile_batch s)
  unfolding Reconciler.reconcile_batch
  reconcile_batch-Keeps s = search (keeps_rules, store_rules, after_claim-Keeps) depth 10

  after_send-Keeps :
      (item : OutboxItem) (r : Result (Unit {0})) → Keeps I (Publisher.after_send item r)
  unfolding Publisher.after_send
  after_send-Keeps item (ok _) = search (keeps_rules, store_rules) depth 8
  after_send-Keeps item (err e) = search (keeps_rules, store_rules) depth 8

  publish_item-Keeps :
      (p : Publisher) (ctx : Context) (item : OutboxItem)
      → Keeps I (Publisher.publish_item p ctx item)
  unfolding Publisher.publish_item
  publish_item-Keeps p ctx item = search (call_rules, after_send-Keeps) depth 8

  publish_all-Keeps :
      (p : Publisher) (ctx : Context) (items : List OutboxItem)
      → Keeps I (Publisher.publish_all p ctx items)
  unfolding Publisher.publish_all
  publish_all-Keeps p ctx [] = search keeps_rules
  publish_all-Keeps p ctx (i ∷ items) =
      search (keeps_rules, publish_item-Keeps p ctx i, publish_all-Keeps p ctx items)

  after_pending-Keeps :
      (p : Publisher) (ctx : Context) (r : Result (List OutboxItem))
      → Keeps I (Publisher.after_pending p ctx r)
  unfolding Publisher.after_pending
  after_pending-Keeps p ctx (ok items) = publish_all-Keeps p ctx items
  after_pending-Keeps p ctx (err e) = search keeps_rules

  pub flush-Keeps : (p : Publisher) (ctx : Context) → Keeps I (Publisher.flush p ctx)
  unfolding Publisher.flush
  flush-Keeps p ctx = search (keeps_rules, store_rules, after_pending-Keeps) depth 8
