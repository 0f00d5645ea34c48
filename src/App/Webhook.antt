-- ===== src/App/Webhook.antt =====
-- HandleWebhook of internal/app/webhook.go.
use dinapay_connector_binanc.Shared.{
  Text, lit, [], ◌++◌, Bool, false, not, ◌&&◌, ◌==◌, text_eq, if◌then◌else◌, Option,
}
use dinapay_connector_binanc.Strings.{to_lower, equal_fold}
use dinapay_connector_binanc.Strings.Rational.{Rat}
use dinapay_connector_binanc.Core.Error.{Result, ok, err, message}
use dinapay_connector_binanc.Core.Value.{Time, Value, str, raw, time, obj, end, field}
use dinapay_connector_binanc.Core.Model.{
  ProviderPayment, ProviderEvent, WebhookEnvelope, WebhookData,
}
use dinapay_connector_binanc.Effects.{M, ◌>>=◌, ◌>>◌, pure, lift, now, get_env}
use dinapay_connector_binanc.Store.Orders.{find_payment_by_reference}
use dinapay_connector_binanc.Store.Events.{record_provider_event}
use dinapay_connector_binanc.BinancePay.Webhook.{parse_webhook, amounts_equal}
use dinapay_connector_binanc.App.Status.{status_at}

-- What a report says of a payment, where it says anything: its identifier, currency and amount.
-- HandleWebhook and reconcilePayment make the same three tests.
unfoldable pub mismatch :
    (Text → Option Rat) → Text → Text → Text → ProviderPayment → Result (Unit {0})
unfolding equal_fold amounts_equal
mismatch rational prepay_id currency amount payment =
    if not (prepay_id == []) && not (prepay_id == payment.provider_payment_id)
    then err (message (lit "provider payment mismatch"))
    else if not (currency == []) && not (equal_fold currency payment.currency)
    then err (message (lit "currency mismatch"))
    else if not (amount == []) && not (amounts_equal rational amount payment.amount)
    then err (message (lit "amount mismatch"))
    else ok tt

-- fmt.Sprintf("binancepay:%s:%s", …)
unfoldable pub webhook_event_id : Text → Text → Text
unfolding to_lower
webhook_event_id provider_payment_id biz_status =
    lit "binancepay:" ++ provider_payment_id ++ lit ":" ++ to_lower biz_status

unfoldable pub webhook_event :
    Text → ProviderPayment → WebhookEnvelope → WebhookData → Text → Time → ProviderEvent
unfolding webhook_event_id
webhook_event connection payment envelope content status now = record {
  event_id = webhook_event_id payment.provider_payment_id envelope.biz_status;
  event_type = lit "payment.provider_" ++ status;
  event_version = lit "1";
  source = lit "webhook";
  occurred_at = now;
  observed_at = now;
  transaction_id = payment.transaction_id;
  provider = lit "binancepay";
  provider_connection_id = connection;
  provider_payment_id = payment.provider_payment_id;
  event_data = record {
    status = status;
    raw_status = envelope.biz_status;
    amount = payment.amount;
    currency = payment.currency;
    provider_reference = payment.provider_reference;
    provider_data = field (lit "binanceTransactionId") (str content.transaction_id) (
        field (lit "bizId") (str envelope.biz_id)
          (field (lit "bizIdStr") (str envelope.biz_id_str) end));
  };
}

-- json.Marshal of the envelope and the time of its receipt
webhook_record : Text → Time → Value
webhook_record body received =
    obj (field (lit "envelope") (raw body) (field (lit "receivedAt") (time received) end))

unfoldable pub record_webhook :
    Text → Text → ProviderPayment → WebhookEnvelope → WebhookData → Text → M Bool
unfolding webhook_event webhook_record
record_webhook connection body payment envelope content status = do
  observed ← now
  received ← now
  record_provider_event (webhook_event connection payment envelope content status observed)
      (webhook_record body received)

-- The part of HandleWebhook that follows the tests of the payment.
unfoldable pub apply_webhook :
    Text → Text → ProviderPayment → WebhookEnvelope → WebhookData → M Bool
unfolding record_webhook status_at equal_fold
apply_webhook connection body payment envelope content = do
  checked ← now
  let status = status_at envelope.biz_status payment.expires_at checked
  if status == lit "pending" && not (equal_fold envelope.biz_status (lit "PAID"))
      then pure false
      else record_webhook connection body payment envelope content status

unfoldable pub handle_webhook : Text → Text → M Bool
unfolding mismatch apply_webhook
handle_webhook connection body = do
  env ← get_env
  (envelope, content) ← lift (parse_webhook env.parse_json body)
  payment ← find_payment_by_reference connection content.merchant_trade_no
  lift (mismatch env.rational content.prepay_id content.currency content.total_fee payment)
  apply_webhook connection body payment envelope content
