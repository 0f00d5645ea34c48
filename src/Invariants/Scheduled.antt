-- ===== src/Invariants/Scheduled.antt =====
-- The due times of open orders, in the orders of store.go.
use dinapay_connector_binanc.Shared.{
  ℕ, Text, ◌≡◌, refl, List, [], ◌∷◌, Option, none, some, Bool, true, false, ◌&&◌, arith, any,
  update_where,
}
use dinapay_connector_binanc.Core.Value.{Time, Value}
use dinapay_connector_binanc.Core.Model.{ProviderPayment, ProviderEvent}
use dinapay_connector_binanc.Store.Schema.{Database, Order}
use dinapay_connector_binanc.Store.Operations
use dinapay_connector_binanc.Store.Orders
use dinapay_connector_binanc.Store.Orders.{is_open, next_reconcile}
use dinapay_connector_binanc.Store.Schedule
use dinapay_connector_binanc.Store.Events
use dinapay_connector_binanc.Store.Refunds
use dinapay_connector_binanc.Effects.{Env, World}
use dinapay_connector_binanc.Effects.Keeps.{Keeps, Safe, keeps_rules}
use dinapay_connector_binanc.App.Service.{Service}
use dinapay_connector_binanc.Publisher.{Publisher}
use dinapay_connector_binanc.Program.{Action, run}
use dinapay_connector_binanc.Program.Keeps.{run-Keeps}
use dinapay_connector_binanc.Program.Tables.{StoreKeeps}

unfoldable pub is_null : Option Time → Bool
is_null none = true
is_null (some t) = false

-- Open, and without a time at which it is due.
unfoldable pub is_lost : Order → Bool
unfolding is_null
is_lost o = is_open o.status && is_null o.next_reconcile_at

pub record IsScheduled (d : Database) : Type 0 where
  pub scheduled : any is_lost d.orders ≡ false

-- An update that leaves no order lost.
set_orders :
    (p : Order → Bool) (f : Order → Order) (os : List Order)
    → ((o : Order) → is_lost (f o) ≡ false)
    → any is_lost os ≡ false
    → any is_lost (update_where p f os) ≡ false
unfolding any update_where
set_orders p f [] kept h = refl
set_orders p f (o ∷ os) kept h = ground (arith, kept o, set_orders p f os kept)

-- A status comes with its schedule.
observed_kept :
    (status raw_status : Text) (seen t : Time) (o : Order)
    → is_lost (Orders.observed status raw_status seen t o) ≡ false
unfolding is_lost is_null Orders.observed next_reconcile
observed_kept status raw_status seen t o = ground arith

claimed_kept : (t : Time) (o : Order) → is_lost (Schedule.claimed t o) ≡ false
unfolding is_lost is_null Schedule.claimed
claimed_kept t o = ground arith

postponed_kept :
    (text : Text) (t : Time) (o : Order) → is_lost (Schedule.postponed text t o) ≡ false
unfolding is_lost is_null Schedule.postponed
postponed_kept text t o = ground arith

new_order_kept :
    (env : Env) (p : ProviderPayment) (v : Value) (t : Time)
    → is_lost (Orders.new_order env p v t) ≡ false
unfolding is_lost is_null Orders.new_order next_reconcile
new_order_kept env p v t = ground arith

insert_order-IsScheduled :
    (env : Env) (p : ProviderPayment) (v : Value) (t : Time)
    → Safe IsScheduled (Orders.insert_order env p v t)
unfolding Orders.insert_order any
insert_order-IsScheduled env p v t = record {
  after = λ d d' a e u. ground (arith, new_order_kept env p v t);
}

complete_operation-IsScheduled :
    (key : Text) (v : Option Value) (t : Time)
    → Safe IsScheduled (Operations.complete_operation key v t)
unfolding Operations.complete_operation
complete_operation-IsScheduled key v t = record { after = λ d d' a e u. ground arith }

complete_create-IsScheduled :
    (key : Text) (p : ProviderPayment) (v : Value)
    → Keeps IsScheduled (Operations.complete_create key p v)
unfolding Operations.complete_create
complete_create-IsScheduled key p v =
    search (keeps_rules, insert_order-IsScheduled, complete_operation-IsScheduled) depth 12

set_status-IsScheduled :
    (c id status raw_status : Text) (seen t : Time)
    → Safe IsScheduled (Orders.set_status c id status raw_status seen t)
unfolding Orders.set_status
set_status-IsScheduled c id status raw_status seen t = record {
  after = λ d d' a e u. ground (
    arith,
    set_orders (Orders.has_id c id) (Orders.observed status raw_status seen t) d.orders
        (observed_kept status raw_status seen t) u.scheduled,
  );
}

insert_inbound-IsScheduled :
    (c id : Text) (v : Value) → Safe IsScheduled (Events.insert_inbound c id v)
unfolding Events.insert_inbound
insert_inbound-IsScheduled c id v = record { after = λ d d' a e u. ground arith }

insert_outbox-IsScheduled :
    (m id : Text) (v : Value) (t : Time) → Safe IsScheduled (Events.insert_outbox m id v t)
unfolding Events.insert_outbox
insert_outbox-IsScheduled m id v t = record { after = λ d d' a e u. ground arith }

record_provider_event-IsScheduled :
    (e : ProviderEvent) (v : Value) → Keeps IsScheduled (Events.record_provider_event e v)
unfolding Events.record_provider_event Events.record_body Events.store_event
record_provider_event-IsScheduled e v =
    search
      (keeps_rules, insert_inbound-IsScheduled, insert_outbox-IsScheduled, set_status-IsScheduled)
      depth 16

claim-IsScheduled :
    (locked : Text → Text → Bool) (n : ℕ) (t : Time) → Safe IsScheduled (Schedule.claim locked n t)
unfolding Schedule.claim
claim-IsScheduled locked n t = record {
  after = λ d d' a e u. ground (
    arith,
    set_orders (λ o. any (Schedule.same_id o) (Schedule.chosen locked n t d)) (Schedule.claimed t)
        d.orders (claimed_kept t) u.scheduled,
  );
}

retry-IsScheduled : (c id text : Text) (t : Time) → Safe IsScheduled (Schedule.retry c id text t)
unfolding Schedule.retry
retry-IsScheduled c id text t = record {
  after = λ d d' a e u. ground (
    arith,
    set_orders (Schedule.is_retried c id) (Schedule.postponed text t) d.orders
        (postponed_kept text t) u.scheduled,
  );
}

instance pub scheduled_tables : StoreKeeps IsScheduled
scheduled_tables = record {
  insert_operation = λ key hash v t. record {
    after = λ d d' a e u. unfold Operations.insert_operation in ground arith;
  };
  complete_create = complete_create-IsScheduled;
  fail_operation = λ key text t. record {
    after = λ d d' a e u. unfold Operations.fail_operation in ground arith;
  };
  set_status = set_status-IsScheduled;
  claim = claim-IsScheduled;
  retry = retry-IsScheduled;
  record_provider_event = record_provider_event-IsScheduled;
  set_published =
      λ id t. record { after = λ d d' a e u. unfold Events.set_published in ground arith };
  set_failed =
      λ id text t. record { after = λ d d' a e u. unfold Events.set_failed in ground arith };
  insert_refund = λ key hash v cmd t. record {
    after = λ d d' a e u. unfold Refunds.insert_refund in ground arith;
  };
  complete_refund_row = λ key r v seen t. record {
    after = λ d d' a e u. unfold Refunds.complete_refund_row in ground arith;
  };
  fail_refund_row =
      λ key text t. record { after = λ d d' a e u. unfold Refunds.fail_refund_row in ground arith };
}

-- From tables where every open order has a time at which its reconciliation is due, every run of
-- requests, webhooks and ticks leads to such tables, whatever the clock reads, the peers answer and the
-- statements fail: no open order is ever forgotten by the reconciler.
pub run-IsScheduled :
    (s : Service) (p : Publisher) (actions : List Action) (w : World)
    → IsScheduled w.db
    → IsScheduled (run s p actions w).db
run-IsScheduled s p actions w h = run-Keeps IsScheduled s p actions w h
