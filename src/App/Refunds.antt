-- ===== src/App/Refunds.antt =====
-- Refunds of internal/app/service.go: CreateRefund and GetRefund.
use dinapay_connector_binanc.Shared.{
  Text, lit, [], ◌∷◌, Option, none, some, Bool, not, ◌&&◌, ◌||◌, ◌==◌, text_eq, if◌then◌else◌,
}
use dinapay_connector_binanc.Strings.{to_upper, equal_fold, remove_all}
use dinapay_connector_binanc.Core.Error.{Result, ok, err, conflict, error_text}
use dinapay_connector_binanc.Core.Value.{Time, str, raw, end, field, get_field, as_text}
use dinapay_connector_binanc.Core.Model.{CreateRefundCommand, ProviderPayment, ProviderRefund}
use dinapay_connector_binanc.Core.Encode.{encode_refund_command}
use dinapay_connector_binanc.Effects.{
  M, ◌>>=◌, ◌>>◌, pure, fail, lift, attempt, ignore, now, observe_provider, get_env,
}
use dinapay_connector_binanc.Store.Orders.{find_payment}
use dinapay_connector_binanc.Store.Refunds.{
  reserve_refund, complete_refund, fail_refund, find_refund,
}
use dinapay_connector_binanc.BinancePay.Types.{Response, RefundOrderRequest, RefundResult}
use dinapay_connector_binanc.BinancePay.Client.{Client, refund_order, query_refund}
use dinapay_connector_binanc.App.Status.{normalize_refund_status}
use dinapay_connector_binanc.App.Service.{Service, client_of, missing_field, request_hash}

unfoldable pub refund_request : Text → CreateRefundCommand → RefundOrderRequest
unfolding remove_all
refund_request provider_payment_id cmd = record {
  refund_request_id = remove_all b'-' cmd.refund_id;
  prepay_id = provider_payment_id;
  refund_amount = cmd.amount;
  refund_reason = cmd.reason;
}

unfoldable pub created_refund : CreateRefundCommand → Response RefundResult → Time → ProviderRefund
unfolding to_upper remove_all
created_refund cmd response time = record {
  refund_id = cmd.refund_id;
  transaction_id = cmd.transaction_id;
  provider = lit "binancepay";
  provider_connection_id = cmd.provider_connection_id;
  provider_refund_id = response.content.refund_id;
  status = normalize_refund_status response.content.refund_status;
  raw_status = response.content.refund_status;
  amount = cmd.amount;
  currency = to_upper cmd.currency;
  observed_at = time;
  provider_data = field (lit "refundRequestId") (str (remove_all b'-' cmd.refund_id)) end;
}

-- What CreateRefund does with the provider's answer.
unfoldable pub settle_refund :
    CreateRefundCommand → Text → Result (Response RefundResult) → M ProviderRefund
unfolding created_refund
settle_refund cmd key (err e) = do ignore (fail_refund key (error_text e)); fail e
settle_refund cmd key (ok response) = do
  time ← now
  complete_refund key (created_refund cmd response time) (raw response.raw)
  pure (created_refund cmd response time)

-- CreateRefund, after ReserveRefund.
unfoldable pub after_reserve :
    Client → Text → Text → CreateRefundCommand → Option ProviderRefund → M ProviderRefund
unfolding refund_request settle_refund
after_reserve client provider_payment_id key cmd (some previous) = pure previous
after_reserve client provider_payment_id key cmd none = do
  started ← now
  response ← attempt (refund_order client (refund_request provider_payment_id cmd))
  observe_provider (lit "create_refund") response started
  settle_refund cmd key response

lacks_field : Text → CreateRefundCommand → Bool
lacks_field key cmd =
    key == []
    || cmd.refund_id == []
    || cmd.transaction_id == []
    || cmd.provider_connection_id == []
    || cmd.amount == []
    || cmd.currency == []

-- The payment that is refunded is the command's, in its currency.
unfoldable pub fits_payment : ProviderPayment → CreateRefundCommand → Bool
unfolding equal_fold
fits_payment payment cmd =
    payment.transaction_id == cmd.transaction_id && equal_fold payment.currency cmd.currency

unfoldable pub reserve_fitting :
    Text → CreateRefundCommand → ProviderPayment → M (Option ProviderRefund)
unfolding fits_payment
reserve_fitting key cmd payment = do
  env ← get_env
  if not (fits_payment payment cmd)
      then fail conflict
      else reserve_refund key (request_hash env (encode_refund_command cmd))
          (encode_refund_command cmd) cmd

unfoldable pub create_refund : Service → Text → Text → CreateRefundCommand → M ProviderRefund
unfolding lacks_field missing_field reserve_fitting after_reserve
create_refund s provider_payment_id key cmd = if lacks_field key cmd then fail missing_field else do
  client ← lift (client_of s.clients cmd.provider_connection_id)
  payment ← find_payment cmd.provider_connection_id provider_payment_id
  previous ← reserve_fitting key cmd payment
  after_reserve client provider_payment_id key cmd previous

or_old : Text → Text → Text
or_old old [] = old
or_old old (c ∷ s) = c ∷ s

unfoldable pub get_refund : Service → Text → Text → M ProviderRefund
unfolding or_old get_field as_text
get_refund s connection refund_id = do
  client ← lift (client_of s.clients connection)
  refund ← find_refund connection refund_id
  started ← now
  response ←
      attempt
        (query_refund client (as_text (get_field (lit "refundRequestId") refund.provider_data)))
  observe_provider (lit "get_refund") response started
  answer ← lift response
  time ← now
  pure (record refund {
    status = normalize_refund_status answer.content.refund_status;
    raw_status = answer.content.refund_status;
    observed_at = time;
    provider_refund_id = or_old refund.provider_refund_id answer.content.refund_id;
  })
