-- ===== src/Core/Model.antt =====
-- The commands, payments, refunds and events of internal/core/model.go. A Go map is the list of
-- its entries, and a nil map is the empty one. Text fields are Go strings.
use dinapay_connector_binanc.Shared.{Text, List, Option, Bool}
use dinapay_connector_binanc.Core.Value.{Time, Value, Fields}

pub record Binding : Type 0 where
  pub binding_id : Text
  pub entity_type : Text
  pub entity_id : Text
  pub external_entity_type : Text
  pub external_entity_id : Text

pub record BindingRequirement : Type 0 where
  pub code : Text
  pub entity_type : Text
  pub external_entity_type : Text
  pub required : Bool
  pub cardinality : Text
  pub provisioning_mode : Text

pub record Capability : Type 0 where
  pub operation : Text
  pub countries : List Text
  pub currencies : List Text
  pub payment_methods : List Text
  pub rails : List Text
  pub features : List Text
  pub binding_requirement : Option BindingRequirement
  pub binding_requirements : List BindingRequirement

pub record Capabilities : Type 0 where
  pub provider : Text
  pub contract_version : Text
  pub capabilities : List Capability

pub record CreatePaymentCommand : Type 0 where
  pub operation_id : Text
  pub transaction_id : Text
  pub provider : Text
  pub provider_connection_id : Text
  pub binding : Option Binding
  pub amount : Text
  pub currency : Text
  pub payment_method : Text
  pub rail : Text
  pub destination_mode : Text
  pub description : Text
  pub expires_at : Time
  pub return_urls : List (Text × Text)
  pub customer : Option Fields
  pub metadata : Fields

pub record CancelPaymentCommand : Type 0 where
  pub operation_id : Text
  pub transaction_id : Text
  pub provider_connection_id : Text
  pub reason : Text

pub record CreateRefundCommand : Type 0 where
  pub operation_id : Text
  pub refund_id : Text
  pub transaction_id : Text
  pub provider_connection_id : Text
  pub amount : Text
  pub currency : Text
  pub reason : Text
  pub metadata : Fields

pub record ProviderRefund : Type 0 where
  pub refund_id : Text
  pub transaction_id : Text
  pub provider : Text
  pub provider_connection_id : Text
  pub provider_refund_id : Text
  pub status : Text
  pub raw_status : Text
  pub amount : Text
  pub currency : Text
  pub observed_at : Time
  pub provider_data : Fields

pub record ProviderPayment : Type 0 where
  pub transaction_id : Text
  pub provider : Text
  pub provider_connection_id : Text
  pub provider_payment_id : Text
  pub provider_reference : Text
  pub status : Text
  pub raw_status : Text
  pub observed_at : Time
  pub expires_at : Time
  pub completion : Fields
  pub provider_data : Fields
  pub amount : Text
  pub currency : Text

pub record Connection : Type 0 where
  pub id : Text
  pub mode : Text
  pub base_url : Text
  pub proxy_url : Text
  pub api_key_env : Text
  pub secret_key_env : Text
  pub webhook_public_key_env : Text

pub record EventData : Type 0 where
  pub status : Text
  pub raw_status : Text
  pub amount : Text
  pub currency : Text
  pub provider_reference : Text
  pub provider_data : Fields

pub record ProviderEvent : Type 0 where
  pub event_id : Text
  pub event_type : Text
  pub event_version : Text
  pub source : Text
  pub occurred_at : Time
  pub observed_at : Time
  pub transaction_id : Text
  pub provider : Text
  pub provider_connection_id : Text
  pub provider_payment_id : Text
  pub event_data : EventData

pub record WebhookEnvelope : Type 0 where
  pub biz_type : Text
  pub biz_id : Text
  pub biz_id_str : Text
  pub biz_status : Text
  pub raw_data : Option Value

pub record WebhookData : Type 0 where
  pub merchant_trade_no : Text
  pub prepay_id : Text
  pub transaction_id : Text
  pub currency : Text
  pub total_fee : Text
