-- ===== src/Invariants/Unique.antt =====
-- The primary keys and unique constraints of migration.sql.
use dinapay_connector_binanc.Shared.{
  Option, ◌&&◌, ◌||◌, ◌==◌, text_eq, Text, ◌≡◌, refl, Bool, arith, Unique, Unique-update_where,
  update_where, any,
}
use dinapay_connector_binanc.Core.Value.{Time, Value}
use dinapay_connector_binanc.Core.Model.{ProviderPayment, ProviderEvent}
use dinapay_connector_binanc.Store.Schema.{
  Database, Operation, Order, InboundEvent, OutboxRow, RefundRow,
}
use dinapay_connector_binanc.Store.Operations
use dinapay_connector_binanc.Store.Operations.{has_key}
use dinapay_connector_binanc.Store.Orders
use dinapay_connector_binanc.Store.Orders.{order_conflicts}
use dinapay_connector_binanc.Store.Schedule
use dinapay_connector_binanc.Store.Events
use dinapay_connector_binanc.Store.Events.{has_inbound, has_event}
use dinapay_connector_binanc.Store.Refunds
use dinapay_connector_binanc.Store.Refunds.{refund_conflicts, has_refund_key}
use dinapay_connector_binanc.Effects.{Env}
use dinapay_connector_binanc.Effects.Keeps.{Keeps, Safe, keeps_rules}
use dinapay_connector_binanc.Program.Tables.{StoreKeeps}

abbrev pub same_key : Operation → Operation → Bool
same_key a o = o.idempotency_key == a.idempotency_key

abbrev pub same_inbound : InboundEvent → InboundEvent → Bool
same_inbound a e = e.provider_connection_id == a.provider_connection_id && e.event_id == a.event_id

abbrev pub same_event : OutboxRow → OutboxRow → Bool
same_event a r = r.event_id == a.event_id

-- PRIMARY KEY (provider_connection_id, provider_payment_id), UNIQUE (provider_connection_id,
-- provider_reference), UNIQUE (transaction_id)
abbrev pub same_order : Order → Order → Bool
same_order a o =
    (o.provider_connection_id == a.provider_connection_id
      && o.provider_payment_id == a.provider_payment_id)
    || (o.provider_connection_id == a.provider_connection_id
        && o.provider_reference == a.provider_reference)
    || o.transaction_id == a.transaction_id

-- refund_id PRIMARY KEY, refund_request_id UNIQUE, idempotency_key UNIQUE
abbrev pub same_refund : RefundRow → RefundRow → Bool
same_refund a r =
    r.refund_id == a.refund_id
    || r.refund_request_id == a.refund_request_id
    || r.idempotency_key == a.idempotency_key

-- PRIMARY KEY and UNIQUE of migration.sql
pub record IsUnique (d : Database) : Type 0 where
  pub operations : Unique same_key d.operations
  pub orders : Unique same_order d.orders
  pub inbound_events : Unique same_inbound d.inbound_events
  pub outbox : Unique same_event d.outbox
  pub refunds : Unique same_refund d.refunds

-- An update that leaves the columns of the constraints alone.
module _ {d : Database} (u : IsUnique d) where
  set_operations :
      (p : Operation → Bool) (f : Operation → Operation)
      → ((x y : Operation) → same_key (f x) y ≡ same_key x y)
      → ((x y : Operation) → same_key x (f y) ≡ same_key x y)
      → Unique same_key (update_where p f d.operations)
  set_operations p f l r = Unique-update_where same_key p f d.operations l r u.operations

  set_orders :
      (p : Order → Bool) (f : Order → Order)
      → ((x y : Order) → same_order (f x) y ≡ same_order x y)
      → ((x y : Order) → same_order x (f y) ≡ same_order x y)
      → Unique same_order (update_where p f d.orders)
  set_orders p f l r = Unique-update_where same_order p f d.orders l r u.orders

  set_outbox :
      (p : OutboxRow → Bool) (f : OutboxRow → OutboxRow)
      → ((x y : OutboxRow) → same_event (f x) y ≡ same_event x y)
      → ((x y : OutboxRow) → same_event x (f y) ≡ same_event x y)
      → Unique same_event (update_where p f d.outbox)
  set_outbox p f l r = Unique-update_where same_event p f d.outbox l r u.outbox

  set_refunds :
      (p : RefundRow → Bool) (f : RefundRow → RefundRow)
      → ((x y : RefundRow) → same_refund (f x) y ≡ same_refund x y)
      → ((x y : RefundRow) → same_refund x (f y) ≡ same_refund x y)
      → Unique same_refund (update_where p f d.refunds)
  set_refunds p f l r = Unique-update_where same_refund p f d.refunds l r u.refunds

complete_operation-IsUnique :
    (key : Text) (v : Option Value) (t : Time)
    → Safe IsUnique (Operations.complete_operation key v t)
unfolding Operations.complete_operation
complete_operation-IsUnique key v t = record {
  after = λ d d' a e u. ground (
    arith,
    set_operations u (has_key key) (Operations.completed v t) (λ x y. refl) (λ x y. refl),
  );
}

insert_order-IsUnique :
    (env : Env) (p : ProviderPayment) (v : Value) (t : Time)
    → Safe IsUnique (Orders.insert_order env p v t)
unfolding Orders.insert_order order_conflicts
insert_order-IsUnique env p v t = record { after = λ d d' a e u. ground arith }

insert_inbound-IsUnique : (c id : Text) (v : Value) → Safe IsUnique (Events.insert_inbound c id v)
unfolding Events.insert_inbound
insert_inbound-IsUnique c id v = record { after = λ d d' a e u. ground arith }

insert_outbox-IsUnique :
    (m id : Text) (v : Value) (t : Time) → Safe IsUnique (Events.insert_outbox m id v t)
unfolding Events.insert_outbox
insert_outbox-IsUnique m id v t = record { after = λ d d' a e u. ground arith }

set_status-IsUnique :
    (c id status raw_status : Text) (seen t : Time)
    → Safe IsUnique (Orders.set_status c id status raw_status seen t)
unfolding Orders.set_status
set_status-IsUnique c id status raw_status seen t = record {
  after = λ d d' a e u. ground (
    arith,
    set_orders u (Orders.has_id c id) (Orders.observed status raw_status seen t) (λ x y. refl)
        (λ x y. refl),
  );
}

complete_create-IsUnique :
    (key : Text) (p : ProviderPayment) (v : Value)
    → Keeps IsUnique (Operations.complete_create key p v)
unfolding Operations.complete_create
complete_create-IsUnique key p v =
    search (keeps_rules, insert_order-IsUnique, complete_operation-IsUnique) depth 12

record_provider_event-IsUnique :
    (e : ProviderEvent) (v : Value) → Keeps IsUnique (Events.record_provider_event e v)
unfolding Events.record_provider_event Events.record_body Events.store_event
record_provider_event-IsUnique e v =
    search (keeps_rules, insert_inbound-IsUnique, insert_outbox-IsUnique, set_status-IsUnique) depth
      16

instance pub unique_tables : StoreKeeps IsUnique
unfolding order_conflicts refund_conflicts
unique_tables = record {
  insert_operation = λ key hash v t. record {
    after = λ d d' a e u. unfold Operations.insert_operation in ground arith;
  };
  complete_create = complete_create-IsUnique;
  fail_operation = λ key text t. record {
    after = λ d d' a e u.
        unfold Operations.fail_operation in
        ground (
          arith,
          set_operations u (has_key key) (Operations.failed text t) (λ x y. refl) (λ x y. refl),
        );
  };
  set_status = set_status-IsUnique;
  claim = λ locked n t. record {
    after = λ d d' a e u.
        unfold Schedule.claim in
        ground (
          arith,
          set_orders u (λ (o : Order). any (Schedule.same_id o) (Schedule.chosen locked n t d))
              (Schedule.claimed t) (λ x y. refl) (λ x y. refl),
        );
  };
  retry = λ c id text t. record {
    after = λ d d' a e u.
        unfold Schedule.retry in
        ground (
          arith,
          set_orders u (Schedule.is_retried c id) (Schedule.postponed text t) (λ x y. refl)
              (λ x y. refl),
        );
  };
  record_provider_event = record_provider_event-IsUnique;
  set_published = λ id t. record {
    after = λ d d' a e u.
        unfold Events.set_published in
        ground
          (arith, set_outbox u (has_event id) (Events.published t) (λ x y. refl) (λ x y. refl));
  };
  set_failed = λ id text t. record {
    after = λ d d' a e u.
        unfold Events.set_failed in
        ground
          (arith, set_outbox u (has_event id) (Events.failed text t) (λ x y. refl) (λ x y. refl));
  };
  insert_refund = λ key hash v cmd t. record {
    after = λ d d' a e u. unfold Refunds.insert_refund in ground arith;
  };
  complete_refund_row = λ key r v seen t. record {
    after = λ d d' a e u.
        unfold Refunds.complete_refund_row in
        ground (
          arith,
          set_refunds u (has_refund_key key) (Refunds.completed r v seen t) (λ x y. refl)
              (λ x y. refl),
        );
  };
  fail_refund_row = λ key text t. record {
    after = λ d d' a e u.
        unfold Refunds.fail_refund_row in
        ground (
          arith,
          set_refunds u (has_refund_key key) (Refunds.failed text t) (λ x y. refl) (λ x y. refl),
        );
  };
}
