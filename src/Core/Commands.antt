-- ===== src/Core/Commands.antt =====
-- json.Decoder with DisallowUnknownFields on the commands of internal/core/model.go, and
-- json.Unmarshal of the connections.
use dinapay_connector_binanc.Shared.{Text, String, lit, [], ◌∷◌, List, Option, none, some, text_eq}
use dinapay_connector_binanc.Core.Error.{Result, ok, err}
use dinapay_connector_binanc.Core.Value.{
  Time, Value, null, arr, Values, nil, cons, member, nullable_member,
}
use dinapay_connector_binanc.Core.Model.{
  Binding, CreatePaymentCommand, CancelPaymentCommand, CreateRefundCommand, Connection,
}
use dinapay_connector_binanc.Core.Decode.{◌>>=◌, type_error, decode_text, text_at}
use dinapay_connector_binanc.Core.Strict.{
  require_known, struct_fields, decode_any_map, decode_some_map, decode_instant, decode_text_map,
}

abbrev binding_names : List String
binding_names =
    "bindingId" ∷ "entityType" ∷ "entityId" ∷ "externalEntityType" ∷ "externalEntityId" ∷ []

unfoldable pub decode_binding : Option Value → Result (Option Binding)
unfolding decode_text require_known struct_fields member
decode_binding none = ok none
decode_binding (some null) = ok none
decode_binding (some v) = do
  m ← struct_fields v
  _ ← require_known binding_names m
  binding_id ← text_at "bindingId" m
  entity_type ← text_at "entityType" m
  entity_id ← text_at "entityId" m
  external_entity_type ← text_at "externalEntityType" m
  external_entity_id ← text_at "externalEntityId" m
  ok (
      some (record {
        binding_id = binding_id;
        entity_type = entity_type;
        entity_id = entity_id;
        external_entity_type = external_entity_type;
        external_entity_id = external_entity_id;
      }))

abbrev create_names : List String
create_names =
    "operationId" ∷ "transactionId" ∷ "provider" ∷ "providerConnectionId" ∷ "binding" ∷ "amount"
    ∷ "currency" ∷ "paymentMethod" ∷ "rail" ∷ "destinationMode" ∷ "description" ∷ "expiresAt"
    ∷ "returnUrls" ∷ "customer" ∷ "metadata" ∷ []

unfoldable pub decode_create_command :
    (Text → Result Time) → (Text → Result Text) → Value → Result CreatePaymentCommand
unfolding decode_text require_known struct_fields member nullable_member decode_binding
    decode_text_map decode_any_map decode_some_map decode_instant
decode_create_command parse_time float_text v = do
  m ← struct_fields v
  _ ← require_known create_names m
  operation_id ← text_at "operationId" m
  transaction_id ← text_at "transactionId" m
  provider ← text_at "provider" m
  provider_connection_id ← text_at "providerConnectionId" m
  binding ← decode_binding (nullable_member (lit "binding") m)
  amount ← text_at "amount" m
  currency ← text_at "currency" m
  payment_method ← text_at "paymentMethod" m
  rail ← text_at "rail" m
  destination_mode ← text_at "destinationMode" m
  description ← text_at "description" m
  expires_at ← decode_instant parse_time (member (lit "expiresAt") m)
  return_urls ← decode_text_map (nullable_member (lit "returnUrls") m)
  customer ← decode_any_map float_text (nullable_member (lit "customer") m)
  metadata ← decode_some_map float_text (nullable_member (lit "metadata") m)
  ok (record {
    operation_id = operation_id;
    transaction_id = transaction_id;
    provider = provider;
    provider_connection_id = provider_connection_id;
    binding = binding;
    amount = amount;
    currency = currency;
    payment_method = payment_method;
    rail = rail;
    destination_mode = destination_mode;
    description = description;
    expires_at = expires_at;
    return_urls = return_urls;
    customer = customer;
    metadata = metadata;
  })

abbrev cancel_names : List String
cancel_names = "operationId" ∷ "transactionId" ∷ "providerConnectionId" ∷ "reason" ∷ []

unfoldable pub decode_cancel_command : Value → Result CancelPaymentCommand
unfolding decode_text require_known struct_fields member
decode_cancel_command v = do
  m ← struct_fields v
  _ ← require_known cancel_names m
  operation_id ← text_at "operationId" m
  transaction_id ← text_at "transactionId" m
  provider_connection_id ← text_at "providerConnectionId" m
  reason ← text_at "reason" m
  ok (record {
    operation_id = operation_id;
    transaction_id = transaction_id;
    provider_connection_id = provider_connection_id;
    reason = reason;
  })

abbrev refund_names : List String
refund_names =
    "operationId" ∷ "refundId" ∷ "transactionId" ∷ "providerConnectionId" ∷ "amount" ∷ "currency"
    ∷ "reason" ∷ "metadata" ∷ []

unfoldable pub decode_refund_command : (Text → Result Text) → Value → Result CreateRefundCommand
unfolding decode_text require_known struct_fields member nullable_member decode_some_map
decode_refund_command float_text v = do
  m ← struct_fields v
  _ ← require_known refund_names m
  operation_id ← text_at "operationId" m
  refund_id ← text_at "refundId" m
  transaction_id ← text_at "transactionId" m
  provider_connection_id ← text_at "providerConnectionId" m
  amount ← text_at "amount" m
  currency ← text_at "currency" m
  reason ← text_at "reason" m
  metadata ← decode_some_map float_text (nullable_member (lit "metadata") m)
  ok (record {
    operation_id = operation_id;
    refund_id = refund_id;
    transaction_id = transaction_id;
    provider_connection_id = provider_connection_id;
    amount = amount;
    currency = currency;
    reason = reason;
    metadata = metadata;
  })

-- The connections have no unknown fields to refuse.
unfoldable pub decode_connection : Value → Result Connection
unfolding decode_text struct_fields member
decode_connection v = do
  m ← struct_fields v
  id ← text_at "id" m
  mode ← text_at "mode" m
  base_url ← text_at "baseUrl" m
  proxy_url ← text_at "proxyUrl" m
  api_key_env ← text_at "apiKeyEnv" m
  secret_key_env ← text_at "secretKeyEnv" m
  webhook_public_key_env ← text_at "webhookPublicKeyEnv" m
  ok (record {
    id = id;
    mode = mode;
    base_url = base_url;
    proxy_url = proxy_url;
    api_key_env = api_key_env;
    secret_key_env = secret_key_env;
    webhook_public_key_env = webhook_public_key_env;
  })

decode_connection_list : Values → Result (List Connection)
unfolding decode_connection
decode_connection_list nil = ok []
decode_connection_list (cons v vs) = do
  connection ← decode_connection v
  later ← decode_connection_list vs
  ok (connection ∷ later)

unfoldable pub decode_connections : Value → Result (List Connection)
unfolding decode_connection_list
decode_connections null = ok []
decode_connections (arr vs) = decode_connection_list vs
decode_connections _ = err type_error
