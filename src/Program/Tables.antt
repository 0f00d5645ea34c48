-- ===== src/Program/Tables.antt =====
-- The invariants of the tables that the writing operations of the store keep, and what follows for
-- the other operations of the store.
use dinapay_connector_binanc.Shared.{ℕ, Text, Option, none, some, Bool}
use dinapay_connector_binanc.Core.Value.{Time, Value}
use dinapay_connector_binanc.Core.Model.{
  CreateRefundCommand, ProviderPayment, ProviderRefund, ProviderEvent,
}
use dinapay_connector_binanc.Store.Schema.{Database, Order, RefundRow}
use dinapay_connector_binanc.Effects.Keeps.{Keeps, Safe, keeps_rules}
use dinapay_connector_binanc.Store.Orders
use dinapay_connector_binanc.Store.Operations
use dinapay_connector_binanc.Store.Schedule
use dinapay_connector_binanc.Store.Events
use dinapay_connector_binanc.Store.Refunds

-- The operations of the store that write, each as one atomic change.
pub record StoreKeeps (I : Database → Type 0) : Type 0 where
  pub insert_operation :
      (key hash : Text) (v : Value) (t : Time) → Safe I (Operations.insert_operation key hash v t)
  pub complete_create :
      (key : Text) (p : ProviderPayment) (v : Value) → Keeps I (Operations.complete_create key p v)
  pub fail_operation : (key text : Text) (t : Time) → Safe I (Operations.fail_operation key text t)
  pub set_status :
      (c id status raw_status : Text) (seen t : Time)
      → Safe I (Orders.set_status c id status raw_status seen t)
  pub claim : (locked : Text → Text → Bool) (n : ℕ) (t : Time) → Safe I (Schedule.claim locked n t)
  pub retry : (c id text : Text) (t : Time) → Safe I (Schedule.retry c id text t)
  pub record_provider_event :
      (e : ProviderEvent) (v : Value) → Keeps I (Events.record_provider_event e v)
  pub set_published : (id : Text) (t : Time) → Safe I (Events.set_published id t)
  pub set_failed : (id text : Text) (t : Time) → Safe I (Events.set_failed id text t)
  pub insert_refund :
      (key hash : Text) (v : Value) (cmd : CreateRefundCommand) (t : Time)
      → Safe I (Refunds.insert_refund key hash v cmd t)
  pub complete_refund_row :
      (key : Text) (r : ProviderRefund) (v : Value) (seen t : Time)
      → Safe I (Refunds.complete_refund_row key r v seen t)
  pub fail_refund_row : (key text : Text) (t : Time) → Safe I (Refunds.fail_refund_row key text t)

module _ {I : Database → Type 0} ⦃k : StoreKeeps I⦄ where
  -- The operations of the store.
  replay_create-Keeps : (key hash : Text) → Keeps I (Operations.replay_create key hash)
  unfolding Operations.replay_create
  replay_create-Keeps key hash = search keeps_rules depth 8

  pub reserve_create-Keeps :
      (key hash : Text) (v : Value) → Keeps I (Operations.reserve_create key hash v)
  unfolding Operations.reserve_create
  reserve_create-Keeps key hash v =
      search (keeps_rules, k.insert_operation, replay_create-Keeps) depth 8

  pub fail_create-Keeps : (key text : Text) → Keeps I (Operations.fail_create key text)
  unfolding Operations.fail_create
  fail_create-Keeps key text = search (keeps_rules, k.fail_operation) depth 8

  or_not_found-Keeps : (o : Option Order) → Keeps I (Orders.or_not_found o)
  unfolding Orders.or_not_found
  or_not_found-Keeps none = search keeps_rules
  or_not_found-Keeps (some o) = search keeps_rules

  find-Keeps : (p : Order → Bool) → Keeps I (Orders.find p)
  unfolding Orders.find
  find-Keeps p = search (keeps_rules, or_not_found-Keeps) depth 8

  pub find_payment-Keeps : (c id : Text) → Keeps I (Orders.find_payment c id)
  unfolding Orders.find_payment
  find_payment-Keeps c id = find-Keeps _

  pub find_payment_by_reference-Keeps :
      (c r : Text) → Keeps I (Orders.find_payment_by_reference c r)
  unfolding Orders.find_payment_by_reference
  find_payment_by_reference-Keeps c r = find-Keeps _

  pub update_status-Keeps :
      (c id status raw_status : Text) → Keeps I (Orders.update_status c id status raw_status)
  unfolding Orders.update_status
  update_status-Keeps c id status raw_status = search (keeps_rules, k.set_status) depth 8

  pub update_payment_observation-Keeps :
      (p : ProviderPayment) → Keeps I (Orders.update_payment_observation p)
  unfolding Orders.update_payment_observation
  update_payment_observation-Keeps p = search (keeps_rules, k.set_status) depth 8

  pub claim_payments-Keeps : (n : ℕ) → Keeps I (Schedule.claim_payments_for_reconciliation n)
  unfolding Schedule.claim_payments_for_reconciliation
  claim_payments-Keeps n = search (keeps_rules, k.claim) depth 8

  pub retry-Keeps : (c id text : Text) → Keeps I (Schedule.retry_payment_reconciliation c id text)
  unfolding Schedule.retry_payment_reconciliation
  retry-Keeps c id text = search (keeps_rules, k.retry) depth 8

  pub pending_events-Keeps : (n : ℕ) → Keeps I (Events.pending_events n)
  unfolding Events.pending_events
  pending_events-Keeps n = search keeps_rules

  pub mark_published-Keeps : (id : Text) → Keeps I (Events.mark_published id)
  unfolding Events.mark_published
  mark_published-Keeps id = search (keeps_rules, k.set_published) depth 8

  pub mark_failed-Keeps : (id text : Text) → Keeps I (Events.mark_failed id text)
  unfolding Events.mark_failed
  mark_failed-Keeps id text = search (keeps_rules, k.set_failed) depth 8

  replay_reserved-Keeps : (key hash : Text) → Keeps I (Refunds.replay_reserved key hash)
  unfolding Refunds.replay_reserved
  replay_reserved-Keeps key hash = search keeps_rules depth 8

  pub reserve_refund-Keeps :
      (key hash : Text) (v : Value) (cmd : CreateRefundCommand)
      → Keeps I (Refunds.reserve_refund key hash v cmd)
  unfolding Refunds.reserve_refund
  reserve_refund-Keeps key hash v cmd =
      search (keeps_rules, k.insert_refund, replay_reserved-Keeps) depth 8

  pub complete_refund-Keeps :
      (key : Text) (r : ProviderRefund) (v : Value) → Keeps I (Refunds.complete_refund key r v)
  unfolding Refunds.complete_refund
  complete_refund-Keeps key r v = search (keeps_rules, k.complete_refund_row) depth 8

  pub fail_refund-Keeps : (key text : Text) → Keeps I (Refunds.fail_refund key text)
  unfolding Refunds.fail_refund
  fail_refund-Keeps key text = search (keeps_rules, k.fail_refund_row) depth 8

  scan_refund-Keeps : (o : Option RefundRow) → Keeps I (Refunds.scan_refund o)
  unfolding Refunds.scan_refund
  scan_refund-Keeps none = search keeps_rules
  scan_refund-Keeps (some r) = search keeps_rules

  pub find_refund-Keeps : (c id : Text) → Keeps I (Refunds.find_refund c id)
  unfolding Refunds.find_refund
  find_refund-Keeps c id = search (keeps_rules, scan_refund-Keeps) depth 8

  pub complete_create-Keeps :
      (key : Text) (p : ProviderPayment) (v : Value) → Keeps I (Operations.complete_create key p v)
  complete_create-Keeps = k.complete_create

  pub record_provider_event-Keeps :
      (e : ProviderEvent) (v : Value) → Keeps I (Events.record_provider_event e v)
  record_provider_event-Keeps = k.record_provider_event

pub ruleset store_rules = (
  reserve_create-Keeps, complete_create-Keeps, fail_create-Keeps, find_payment-Keeps,
  find_payment_by_reference-Keeps, update_status-Keeps, update_payment_observation-Keeps,
  claim_payments-Keeps, retry-Keeps, record_provider_event-Keeps, pending_events-Keeps,
  mark_published-Keeps, mark_failed-Keeps, reserve_refund-Keeps, complete_refund-Keeps,
  fail_refund-Keeps, find_refund-Keeps,
)
