-- ===== src/Invariants/Reserved.antt =====
-- Idempotency keys that are taken, of ReserveCreate in store.go.
use dinapay_connector_binanc.Shared.{
  Option, Text, ◌≡◌, refl, Bool, true, text_eq, arith, any, any-update_where,
}
use dinapay_connector_binanc.Core.Value.{Time, Value}
use dinapay_connector_binanc.Core.Model.{ProviderPayment, ProviderEvent}
use dinapay_connector_binanc.Store.Schema.{Database}
use dinapay_connector_binanc.Store.Operations
use dinapay_connector_binanc.Store.Operations.{has_key}
use dinapay_connector_binanc.Store.Orders
use dinapay_connector_binanc.Store.Schedule
use dinapay_connector_binanc.Store.Events
use dinapay_connector_binanc.Store.Refunds
use dinapay_connector_binanc.Effects.{Env}
use dinapay_connector_binanc.Effects.Keeps.{Keeps, Safe, keeps_rules}
use dinapay_connector_binanc.Program.Tables.{StoreKeeps}

abbrev pub is_reserved : Text → Database → Bool
is_reserved key d = any (has_key key) d.operations

-- There is an operation with the key.
pub record IsReserved (key : Text) (d : Database) : Type 0 where
  pub reserved : is_reserved key d ≡ true

module _ (key : Text) where
  insert_order-IsReserved :
      (env : Env) (p : ProviderPayment) (v : Value) (t : Time)
      → Safe (IsReserved key) (Orders.insert_order env p v t)
  unfolding Orders.insert_order
  insert_order-IsReserved env p v t = record { after = λ d d' a e u. ground arith }

  complete_operation-IsReserved :
      (k : Text) (v : Option Value) (t : Time)
      → Safe (IsReserved key) (Operations.complete_operation k v t)
  unfolding Operations.complete_operation
  complete_operation-IsReserved k v t = record {
    after = λ d d' a e u. ground (
      arith,
      any-update_where (has_key key) (has_key k) (Operations.completed v t) d.operations
          (λ x. refl),
    );
  }

  complete_create-IsReserved :
      (k : Text) (p : ProviderPayment) (v : Value)
      → Keeps (IsReserved key) (Operations.complete_create k p v)
  unfolding Operations.complete_create
  complete_create-IsReserved k p v =
      search (keeps_rules, insert_order-IsReserved, complete_operation-IsReserved) depth 12

  insert_inbound-IsReserved :
      (c id : Text) (v : Value) → Safe (IsReserved key) (Events.insert_inbound c id v)
  unfolding Events.insert_inbound
  insert_inbound-IsReserved c id v = record { after = λ d d' a e u. ground arith }

  insert_outbox-IsReserved :
      (m id : Text) (v : Value) (t : Time) → Safe (IsReserved key) (Events.insert_outbox m id v t)
  unfolding Events.insert_outbox
  insert_outbox-IsReserved m id v t = record { after = λ d d' a e u. ground arith }

  set_status-IsReserved :
      (c id status raw_status : Text) (seen t : Time)
      → Safe (IsReserved key) (Orders.set_status c id status raw_status seen t)
  unfolding Orders.set_status
  set_status-IsReserved c id status raw_status seen t = record {
    after = λ d d' a e u. ground arith;
  }

  record_provider_event-IsReserved :
      (e : ProviderEvent) (v : Value) → Keeps (IsReserved key) (Events.record_provider_event e v)
  unfolding Events.record_provider_event Events.record_body Events.store_event
  record_provider_event-IsReserved e v =
      search
        (keeps_rules, insert_inbound-IsReserved, insert_outbox-IsReserved, set_status-IsReserved)
        depth 16

  instance pub reserved_tables : StoreKeeps (IsReserved key)
  reserved_tables = record {
    insert_operation = λ k hash v t. record {
      after = λ d d' a e u. unfold Operations.insert_operation any in ground arith;
    };
    complete_create = complete_create-IsReserved;
    fail_operation = λ k text t. record {
      after = λ d d' a e u.
          unfold Operations.fail_operation in
          ground (
            arith,
            any-update_where (has_key key) (has_key k) (Operations.failed text t) d.operations
                (λ x. refl),
          );
    };
    set_status = set_status-IsReserved;
    claim = λ locked n t. record { after = λ d d' a e u. unfold Schedule.claim in ground arith };
    retry = λ c id text t. record { after = λ d d' a e u. unfold Schedule.retry in ground arith };
    record_provider_event = record_provider_event-IsReserved;
    set_published =
        λ id t. record { after = λ d d' a e u. unfold Events.set_published in ground arith };
    set_failed =
        λ id text t. record { after = λ d d' a e u. unfold Events.set_failed in ground arith };
    insert_refund = λ k hash v cmd t. record {
      after = λ d d' a e u. unfold Refunds.insert_refund in ground arith;
    };
    complete_refund_row = λ k r v seen t. record {
      after = λ d d' a e u. unfold Refunds.complete_refund_row in ground arith;
    };
    fail_refund_row =
        λ k text t. record { after = λ d d' a e u. unfold Refunds.fail_refund_row in ground arith };
  }
