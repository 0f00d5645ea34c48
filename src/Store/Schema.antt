-- ===== src/Store/Schema.antt =====
-- The tables of internal/adapters/postgres/migration.sql, a row as a record of the columns that the
-- program writes or reads. `created_at` is kept where a query orders by it.
use dinapay_connector_binanc.Shared.Int.{ℤ}
use dinapay_connector_binanc.Shared.{ℕ, Text, List, [], Option, text_eq}
use dinapay_connector_binanc.Core.Value.{Time, Value, Fields}

-- binancepay_v2_operations
pub record Operation : Type 0 where
  pub idempotency_key : Text
  pub request_hash : Text
  pub request_payload : Value
  pub status : Text
  pub response_payload : Option Value
  pub error_message : Option Text
  pub updated_at : Time

-- binancepay_v2_orders
pub record Order : Type 0 where
  pub provider_connection_id : Text
  pub provider_payment_id : Text
  pub provider_reference : Text
  pub transaction_id : Text
  pub amount : Text
  pub currency : Text
  pub status : Text
  pub raw_status : Text
  pub expires_at : Option Time
  pub completion : Fields
  pub provider_data : Fields
  pub provider_response : Value
  pub observed_at : Time
  pub reconcile_attempts : ℕ
  pub next_reconcile_at : Option Time
  pub last_reconcile_error : Option Text
  pub updated_at : Time

-- binancepay_v2_inbound_events
pub record InboundEvent : Type 0 where
  pub provider_connection_id : Text
  pub event_id : Text
  pub raw_payload : Value

-- binancepay_v2_event_outbox
pub record OutboxRow : Type 0 where
  pub event_id : Text
  pub payload : Value
  pub attempts : ℕ
  pub next_attempt_at : Time
  pub published_at : Option Time
  pub last_error : Option Text
  pub created_at : Time

-- binancepay_v2_refunds
pub record RefundRow : Type 0 where
  pub refund_id : Text
  pub transaction_id : Text
  pub provider_connection_id : Text
  pub provider_refund_id : Text
  pub refund_request_id : Text
  pub idempotency_key : Text
  pub request_hash : Text
  pub request_payload : Value
  pub amount : Text
  pub currency : Text
  pub status : Text
  pub raw_status : Text
  pub provider_data : Fields
  pub response_payload : Option Value
  pub provider_response : Option Value
  pub observed_at : Time
  pub error_message : Option Text
  pub updated_at : Time

pub record Database : Type 0 where
  pub operations : List Operation
  pub orders : List Order
  pub inbound_events : List InboundEvent
  pub outbox : List OutboxRow
  pub refunds : List RefundRow

abbrev pub empty : Database
empty = record { operations = []; orders = []; inbound_events = []; outbox = []; refunds = [] }

-- OperationalStats of store.go; an age is in nanoseconds, and negative for a time that is to come.
pub record OperationalStats : Type 0 where
  pub nonterminal : ℕ
  pub nonterminal_age : ℤ
  pub reconciliation : ℕ
  pub reconciliation_age : ℤ
  pub outbox : ℕ
  pub outbox_age : ℤ
