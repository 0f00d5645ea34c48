-- ===== src/Core/Stored.antt =====
-- json.Unmarshal of the payments and refunds of internal/core/model.go, which the store reads back.
use dinapay_connector_binanc.Shared.{Text, [], lit}
use dinapay_connector_binanc.Core.Error.{Result, ok, err}
use dinapay_connector_binanc.Core.Value.{Value, obj, Fields, member, nullable_member}
use dinapay_connector_binanc.Core.Model.{ProviderRefund, ProviderPayment}
use dinapay_connector_binanc.Core.Decode.{◌>>=◌, type_error, decode_text, decode_time, text_at}
use dinapay_connector_binanc.Core.Strict.{decode_some_map}

decode_payment_fields : (Text → Result Text) → Fields → Result ProviderPayment
unfolding decode_text decode_time decode_some_map nullable_member
decode_payment_fields float_text m = do
  transaction_id ← text_at "transactionId" m
  provider ← text_at "provider" m
  provider_connection_id ← text_at "providerConnectionId" m
  provider_payment_id ← text_at "providerPaymentId" m
  provider_reference ← text_at "providerReference" m
  status ← text_at "status" m
  raw_status ← text_at "rawStatus" m
  observed_at ← decode_time (member (lit "observedAt") m)
  expires_at ← decode_time (member (lit "expiresAt") m)
  completion ← decode_some_map float_text (nullable_member (lit "completion") m)
  provider_data ← decode_some_map float_text (nullable_member (lit "providerData") m)
  ok (record {
    transaction_id = transaction_id;
    provider = provider;
    provider_connection_id = provider_connection_id;
    provider_payment_id = provider_payment_id;
    provider_reference = provider_reference;
    status = status;
    raw_status = raw_status;
    observed_at = observed_at;
    expires_at = expires_at;
    completion = completion;
    provider_data = provider_data;
    amount = [];
    currency = [];
  })

unfoldable pub decode_payment : (Text → Result Text) → Value → Result ProviderPayment
unfolding decode_payment_fields
decode_payment float_text (obj m) = decode_payment_fields float_text m
decode_payment float_text _ = err type_error

decode_refund_fields : (Text → Result Text) → Fields → Result ProviderRefund
unfolding decode_text decode_time decode_some_map nullable_member
decode_refund_fields float_text m = do
  refund_id ← text_at "refundId" m
  transaction_id ← text_at "transactionId" m
  provider ← text_at "provider" m
  provider_connection_id ← text_at "providerConnectionId" m
  provider_refund_id ← text_at "providerRefundId" m
  status ← text_at "status" m
  raw_status ← text_at "rawStatus" m
  amount ← text_at "amount" m
  currency ← text_at "currency" m
  observed_at ← decode_time (member (lit "observedAt") m)
  provider_data ← decode_some_map float_text (nullable_member (lit "providerData") m)
  ok (record {
    refund_id = refund_id;
    transaction_id = transaction_id;
    provider = provider;
    provider_connection_id = provider_connection_id;
    provider_refund_id = provider_refund_id;
    status = status;
    raw_status = raw_status;
    amount = amount;
    currency = currency;
    observed_at = observed_at;
    provider_data = provider_data;
  })

unfoldable pub decode_refund : (Text → Result Text) → Value → Result ProviderRefund
unfolding decode_refund_fields
decode_refund float_text (obj m) = decode_refund_fields float_text m
decode_refund float_text _ = err type_error
