-- ===== src/Program/Requests.antt =====
-- Invariants of the store under the requests and the webhooks.
use dinapay_connector_binanc.Shared.{Text, Option, none, some}
use dinapay_connector_binanc.Core.Error.{Result, ok, err}
use dinapay_connector_binanc.Core.Model.{
  CreatePaymentCommand, CreateRefundCommand, ProviderPayment, ProviderRefund, WebhookEnvelope,
  WebhookData,
}
use dinapay_connector_binanc.Store.Schema.{Database}
use dinapay_connector_binanc.Effects.Keeps.{Keeps, keeps_rules}
use dinapay_connector_binanc.BinancePay.Types.{Response, CreateOrderData, RefundResult}
use dinapay_connector_binanc.BinancePay.Client.{Client}
use dinapay_connector_binanc.App.Service
use dinapay_connector_binanc.App.Service.{Service}
use dinapay_connector_binanc.App.Refunds
use dinapay_connector_binanc.App.Webhook
use dinapay_connector_binanc.Program.Calls.{call_rules}
use dinapay_connector_binanc.Program.Tables.{StoreKeeps, store_rules}

module _ {I : Database → Type 0} ⦃k : StoreKeeps I⦄ where
  settle_create-Keeps :
      (cmd : CreatePaymentCommand) (key : Text) (r : Result (Response CreateOrderData))
      → Keeps I (Service.settle_create cmd key r)
  unfolding Service.settle_create
  settle_create-Keeps cmd key (ok r) = search (keeps_rules, store_rules) depth 10
  settle_create-Keeps cmd key (err e) = search (keeps_rules, store_rules) depth 10

  pub create_reserved-Keeps :
      (s : Service) (c : Client) (cmd : CreatePaymentCommand) (key : Text)
      → Keeps I (Service.create_reserved s c cmd key)
  unfolding Service.create_reserved
  create_reserved-Keeps s c cmd key = search (call_rules, settle_create-Keeps) depth 12

  after_reserve-Keeps :
      (s : Service) (c : Client) (cmd : CreatePaymentCommand) (key : Text)
      (previous : Option ProviderPayment)
      → Keeps I (Service.after_reserve s c cmd key previous)
  unfolding Service.after_reserve
  after_reserve-Keeps s c cmd key none = create_reserved-Keeps s c cmd key
  after_reserve-Keeps s c cmd key (some p) = search keeps_rules

  pub create-Keeps :
      (s : Service) (cmd : CreatePaymentCommand) (key : Text) → Keeps I (Service.create s cmd key)
  unfolding Service.create
  create-Keeps s cmd key = search (keeps_rules, store_rules, after_reserve-Keeps) depth 12

  pub get-Keeps : (s : Service) (c id : Text) → Keeps I (Service.get s c id)
  unfolding Service.get
  get-Keeps s c id = search (call_rules, store_rules) depth 20

  pub cancel-Keeps : (s : Service) (c id : Text) → Keeps I (Service.cancel s c id)
  unfolding Service.cancel
  cancel-Keeps s c id = search (call_rules, store_rules) depth 20

  settle_refund-Keeps :
      (cmd : CreateRefundCommand) (key : Text) (r : Result (Response RefundResult))
      → Keeps I (Refunds.settle_refund cmd key r)
  unfolding Refunds.settle_refund
  settle_refund-Keeps cmd key (ok r) = search (keeps_rules, store_rules) depth 10
  settle_refund-Keeps cmd key (err e) = search (keeps_rules, store_rules) depth 10

  after_reserve_refund-Keeps :
      (c : Client) (id key : Text) (cmd : CreateRefundCommand) (previous : Option ProviderRefund)
      → Keeps I (Refunds.after_reserve c id key cmd previous)
  unfolding Refunds.after_reserve
  after_reserve_refund-Keeps c id key cmd none = search (call_rules, settle_refund-Keeps) depth 12
  after_reserve_refund-Keeps c id key cmd (some r) = search keeps_rules

  reserve_fitting-Keeps :
      (key : Text) (cmd : CreateRefundCommand) (p : ProviderPayment)
      → Keeps I (Refunds.reserve_fitting key cmd p)
  unfolding Refunds.reserve_fitting
  reserve_fitting-Keeps key cmd p = search (keeps_rules, store_rules) depth 10

  pub create_refund-Keeps :
      (s : Service) (id key : Text) (cmd : CreateRefundCommand)
      → Keeps I (Refunds.create_refund s id key cmd)
  unfolding Refunds.create_refund
  create_refund-Keeps s id key cmd =
      search (keeps_rules, store_rules, reserve_fitting-Keeps, after_reserve_refund-Keeps) depth 20

  pub get_refund-Keeps : (s : Service) (c id : Text) → Keeps I (Refunds.get_refund s c id)
  unfolding Refunds.get_refund
  get_refund-Keeps s c id = search (call_rules, store_rules) depth 20

  record_webhook-Keeps :
      (c body : Text) (p : ProviderPayment) (envelope : WebhookEnvelope) (content : WebhookData)
      (status : Text)
      → Keeps I (Webhook.record_webhook c body p envelope content status)
  unfolding Webhook.record_webhook
  record_webhook-Keeps c body p envelope content status = search (keeps_rules, store_rules) depth 10

  apply_webhook-Keeps :
      (c body : Text) (p : ProviderPayment) (envelope : WebhookEnvelope) (content : WebhookData)
      → Keeps I (Webhook.apply_webhook c body p envelope content)
  unfolding Webhook.apply_webhook
  apply_webhook-Keeps c body p envelope content =
      search (keeps_rules, record_webhook-Keeps) depth 10

  pub handle_webhook-Keeps : (c body : Text) → Keeps I (Webhook.handle_webhook c body)
  unfolding Webhook.handle_webhook
  handle_webhook-Keeps c body = search (keeps_rules, store_rules, apply_webhook-Keeps) depth 20
