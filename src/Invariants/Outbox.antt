-- ===== src/Invariants/Outbox.antt =====
-- The outbox and the accepted provider events, of RecordProviderEvent in store.go.
use dinapay_connector_binanc.Shared.{Option, Text, ◌≡◌, refl, List, map, arith, map-update_where}
use dinapay_connector_binanc.Core.Value.{Time, Value}
use dinapay_connector_binanc.Core.Model.{ProviderEvent, ProviderPayment}
use dinapay_connector_binanc.Store.Schema.{Database, InboundEvent, OutboxRow}
use dinapay_connector_binanc.Store.Operations
use dinapay_connector_binanc.Store.Orders
use dinapay_connector_binanc.Store.Schedule
use dinapay_connector_binanc.Store.Events
use dinapay_connector_binanc.Store.Events.{has_event}
use dinapay_connector_binanc.Store.Events.Atomic.{record_provider_event_atomic}
use dinapay_connector_binanc.Store.Refunds
use dinapay_connector_binanc.Effects.{Env}
use dinapay_connector_binanc.Effects.Keeps.{Keeps, Safe, keeps_rules}
use dinapay_connector_binanc.Program.Tables.{StoreKeeps}
use dinapay_connector_binanc.App.Service.{Service}
use dinapay_connector_binanc.Publisher.{Publisher}
use dinapay_connector_binanc.Program.{Action, run}
use dinapay_connector_binanc.Program.Keeps.{run-Keeps}
use dinapay_connector_binanc.Effects.{World}
use dinapay_connector_binanc.Shared.{List}

abbrev pub inbound_ids : Database → List Text
inbound_ids d = map (λ (e : InboundEvent). e.event_id) d.inbound_events

abbrev pub outbox_ids : Database → List Text
outbox_ids d = map (λ (r : OutboxRow). r.event_id) d.outbox

-- The outbox holds the accepted events, one row for each, in the order of their acceptance.
pub record IsMirrored (d : Database) : Type 0 where
  pub mirrored : outbox_ids d ≡ inbound_ids d

record_provider_event-IsMirrored :
    (e : ProviderEvent) (v : Value) → Keeps IsMirrored (Events.record_provider_event e v)
unfolding Events.new_outbox
record_provider_event-IsMirrored e v = record {
  at = λ w h. ground (arith, record_provider_event_atomic e v w);
}

insert_order-IsMirrored :
    (env : Env) (p : ProviderPayment) (v : Value) (t : Time)
    → Safe IsMirrored (Orders.insert_order env p v t)
unfolding Orders.insert_order
insert_order-IsMirrored env p v t = record { after = λ d d' a e u. ground arith }

complete_operation-IsMirrored :
    (key : Text) (v : Option Value) (t : Time)
    → Safe IsMirrored (Operations.complete_operation key v t)
unfolding Operations.complete_operation
complete_operation-IsMirrored key v t = record { after = λ d d' a e u. ground arith }

complete_create-IsMirrored :
    (key : Text) (p : ProviderPayment) (v : Value)
    → Keeps IsMirrored (Operations.complete_create key p v)
unfolding Operations.complete_create
complete_create-IsMirrored key p v =
    search (keeps_rules, insert_order-IsMirrored, complete_operation-IsMirrored) depth 12

instance pub mirrored_tables : StoreKeeps IsMirrored
mirrored_tables = record {
  insert_operation = λ key hash v t. record {
    after = λ d d' a e u. unfold Operations.insert_operation in ground arith;
  };
  complete_create = complete_create-IsMirrored;
  fail_operation = λ key text t. record {
    after = λ d d' a e u. unfold Operations.fail_operation in ground arith;
  };
  set_status = λ c id status raw_status seen t. record {
    after = λ d d' a e u. unfold Orders.set_status in ground arith;
  };
  claim = λ locked n t. record { after = λ d d' a e u. unfold Schedule.claim in ground arith };
  retry = λ c id text t. record { after = λ d d' a e u. unfold Schedule.retry in ground arith };
  record_provider_event = record_provider_event-IsMirrored;
  set_published = λ id t. record {
    after = λ d d' a e u.
        unfold Events.set_published in
        ground (
          arith,
          map-update_where (λ (r : OutboxRow). r.event_id) (has_event id) (Events.published t)
              d.outbox (λ x. refl),
        );
  };
  set_failed = λ id text t. record {
    after = λ d d' a e u.
        unfold Events.set_failed in
        ground (
          arith,
          map-update_where (λ (r : OutboxRow). r.event_id) (has_event id) (Events.failed text t)
              d.outbox (λ x. refl),
        );
  };
  insert_refund = λ key hash v cmd t. record {
    after = λ d d' a e u. unfold Refunds.insert_refund in ground arith;
  };
  complete_refund_row = λ key r v seen t. record {
    after = λ d d' a e u. unfold Refunds.complete_refund_row in ground arith;
  };
  fail_refund_row =
      λ key text t. record { after = λ d d' a e u. unfold Refunds.fail_refund_row in ground arith };
}

-- From tables where the outbox mirrors the accepted events, every run of requests, webhooks and
-- ticks leads to such tables, whatever the clock reads, the peers answer and the statements fail: each
-- accepted provider event has one outbox row, in the order of acceptance, and no row is without an
-- event.
pub run-IsMirrored :
    (s : Service) (p : Publisher) (actions : List Action) (w : World)
    → IsMirrored w.db
    → IsMirrored (run s p actions w).db
run-IsMirrored s p actions w h = run-Keeps IsMirrored s p actions w h
