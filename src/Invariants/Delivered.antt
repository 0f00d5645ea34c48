-- ===== src/Invariants/Delivered.antt =====
-- Events of the outbox that MarkPublished of store.go has marked.
use dinapay_connector_binanc.Shared.{
  Option, Text, List, [], ◌∷◌, ◌≡◌, refl, Bool, true, false, ◌&&◌, ◌==◌, text_eq, arith, any,
  update_where, any-update_where, Bool-cases, text_beq_iff, inl, inr, ap,
}
use dinapay_connector_binanc.Core.Value.{Time, Value}
use dinapay_connector_binanc.Core.Model.{ProviderEvent, ProviderPayment}
use dinapay_connector_binanc.Store.Schema.{Database, OutboxRow}
use dinapay_connector_binanc.Store.Operations
use dinapay_connector_binanc.Store.Orders
use dinapay_connector_binanc.Store.Schedule
use dinapay_connector_binanc.Store.Events
use dinapay_connector_binanc.Store.Events.{has_event, is_unpublished}
use dinapay_connector_binanc.Store.Refunds
use dinapay_connector_binanc.Effects.{Env}
use dinapay_connector_binanc.Effects.Keeps.{Keeps, Safe, keeps_rules}
use dinapay_connector_binanc.Program.Tables.{StoreKeeps}

-- A row of the event that is not published
abbrev pub waits : Text → OutboxRow → Bool
waits id r = has_event id r && is_unpublished r

-- The event has a row, and each of its rows is published.
pub record IsDelivered (id : Text) (d : Database) : Type 0 where
  pub present : any (has_event id) d.outbox ≡ true
  pub delivered : any (waits id) d.outbox ≡ false

module _ (id : Text) where
  published-waits :
      (k : Text) (t : Time) (rows : List OutboxRow)
      → any (waits id) rows ≡ false
      → any (waits id) (update_where (has_event k) (Events.published t) rows) ≡ false
  unfolding any update_where Events.published is_unpublished
  published-waits k t [] h = refl
  published-waits k t (r ∷ rows) h = ground (arith, published-waits k t rows)

  insert_order-IsDelivered :
      (env : Env) (p : ProviderPayment) (v : Value) (t : Time)
      → Safe (IsDelivered id) (Orders.insert_order env p v t)
  unfolding Orders.insert_order
  insert_order-IsDelivered env p v t = record { after = λ d d' a e u. ground arith }

  complete_operation-IsDelivered :
      (k : Text) (v : Option Value) (t : Time)
      → Safe (IsDelivered id) (Operations.complete_operation k v t)
  unfolding Operations.complete_operation
  complete_operation-IsDelivered k v t = record { after = λ d d' a e u. ground arith }

  complete_create-IsDelivered :
      (k : Text) (p : ProviderPayment) (v : Value)
      → Keeps (IsDelivered id) (Operations.complete_create k p v)
  unfolding Operations.complete_create
  complete_create-IsDelivered k p v =
      search (keeps_rules, insert_order-IsDelivered, complete_operation-IsDelivered) depth 12

  insert_inbound-IsDelivered :
      (c k : Text) (v : Value) → Safe (IsDelivered id) (Events.insert_inbound c k v)
  unfolding Events.insert_inbound
  insert_inbound-IsDelivered c k v = record { after = λ d d' a e u. ground arith }

  insert_outbox-IsDelivered :
      (m k : Text) (v : Value) (t : Time) → Safe (IsDelivered id) (Events.insert_outbox m k v t)
  unfolding Events.insert_outbox any is_unpublished
  insert_outbox-IsDelivered m k v t = record {
    after = λ d d' a e u. elim (Bool-cases (k == id)) [
      | inl q ↦
          (let same : any (has_event k) d.outbox ≡ any (has_event id) d.outbox =
              ap (λ i. any (has_event i) d.outbox) ((text_beq_iff k id).0 q) in
            ground arith)
      | inr q ↦ ground arith
    ];
  }

  set_status-IsDelivered :
      (c k status raw_status : Text) (seen t : Time)
      → Safe (IsDelivered id) (Orders.set_status c k status raw_status seen t)
  unfolding Orders.set_status
  set_status-IsDelivered c k status raw_status seen t = record {
    after = λ d d' a e u. ground arith;
  }

  record_provider_event-IsDelivered :
      (e : ProviderEvent) (v : Value) → Keeps (IsDelivered id) (Events.record_provider_event e v)
  unfolding Events.record_provider_event Events.record_body Events.store_event
  record_provider_event-IsDelivered e v =
      search
        (keeps_rules, insert_inbound-IsDelivered, insert_outbox-IsDelivered, set_status-IsDelivered)
        depth 16

  set_published-IsDelivered :
      (k : Text) (t : Time) → Safe (IsDelivered id) (Events.set_published k t)
  unfolding Events.set_published
  set_published-IsDelivered k t = record {
    after = λ d d' a e u. ground (
      arith,
      any-update_where (has_event id) (has_event k) (Events.published t) d.outbox (λ x. refl),
      published-waits k t d.outbox u.delivered,
    );
  }

  set_failed-IsDelivered :
      (k text : Text) (t : Time) → Safe (IsDelivered id) (Events.set_failed k text t)
  unfolding Events.set_failed is_unpublished
  set_failed-IsDelivered k text t = record {
    after = λ d d' a e u. ground (
      arith,
      any-update_where (has_event id) (has_event k) (Events.failed text t) d.outbox (λ x. refl),
      any-update_where (waits id) (has_event k) (Events.failed text t) d.outbox (λ x. refl),
    );
  }

  instance pub delivered_tables : StoreKeeps (IsDelivered id)
  delivered_tables = record {
    insert_operation = λ k hash v t. record {
      after = λ d d' a e u. unfold Operations.insert_operation in ground arith;
    };
    complete_create = complete_create-IsDelivered;
    fail_operation = λ k text t. record {
      after = λ d d' a e u. unfold Operations.fail_operation in ground arith;
    };
    set_status = set_status-IsDelivered;
    claim = λ locked n t. record { after = λ d d' a e u. unfold Schedule.claim in ground arith };
    retry = λ c k text t. record { after = λ d d' a e u. unfold Schedule.retry in ground arith };
    record_provider_event = record_provider_event-IsDelivered;
    set_published = set_published-IsDelivered;
    set_failed = set_failed-IsDelivered;
    insert_refund = λ k hash v cmd t. record {
      after = λ d d' a e u. unfold Refunds.insert_refund in ground arith;
    };
    complete_refund_row = λ k r v seen t. record {
      after = λ d d' a e u. unfold Refunds.complete_refund_row in ground arith;
    };
    fail_refund_row =
        λ k text t. record { after = λ d d' a e u. unfold Refunds.fail_refund_row in ground arith };
  }
