-- ===== src/Tests/Webhooks.antt =====
-- A webhook that is repeated, and the event of one.
use dinapay_connector_binanc.Shared.{lit, [], ◌∷◌, ◌≡◌, ◌≢◌, ◌⊎◌, refl, none, true, false}
use dinapay_connector_binanc.Core.Error.{ok}
use dinapay_connector_binanc.Core.Value.{obj, end}
use dinapay_connector_binanc.Core.Model.{ProviderEvent}
use dinapay_connector_binanc.Store.Events.{has_event, record_provider_event}
use dinapay_connector_binanc.Store.Events.Atomic.{
  with_event, is_recorded, record_provider_event_atomic,
}
use dinapay_connector_binanc.Shared.{any}
use dinapay_connector_binanc.Effects.{World}
use dinapay_connector_binanc.App.Webhook.{handle_webhook, webhook_event}
use dinapay_connector_binanc.Program.{create_payment, receive_webhook, run}
use dinapay_connector_binanc.Webhooks.Unchanged.{handle_webhook_unchanged}
use dinapay_connector_binanc.Tests.Machine.{machine}
use dinapay_connector_binanc.Tests.Setup.{service, publisher, command, start, paid_answer, answered}

abbrev paid : World
paid =
    run service publisher (create_payment command (lit "k1") ∷ receive_webhook (lit "c1") [] ∷ [])
      (start paid_answer)

repeated : (handle_webhook (lit "c1") [] paid).0 ≡ ok false
unfolding machine
repeated = refl

handle_webhook_unchanged_example : (handle_webhook (lit "c1") [] paid).1.db ≡ paid.db
handle_webhook_unchanged_example =
    handle_webhook_unchanged (lit "c1") [] paid (λ h. cc (repeated, h))

abbrev event : ProviderEvent
event =
    webhook_event (lit "c1") answered
      (record {
        biz_type = lit "PAY";
        biz_id = [];
        biz_id_str = [];
        biz_status = lit "PAY_SUCCESS";
        raw_data = none;
      })
      (record {
        merchant_trade_no = lit "tx1";
        prepay_id = lit "p1";
        transaction_id = [];
        currency = [];
        total_fee = [];
      })
      (lit "confirmed") 7

record_provider_event_atomic_example :
    (((record_provider_event event (obj end) paid).0 ≡ ok true)
      × (is_recorded event paid.db ≡ false)
      × (any (has_event event.event_id) paid.db.outbox ≡ false)
      × ((record_provider_event event (obj end) paid).1.db ≡ with_event paid event (obj end)))
    ⊎ (((record_provider_event event (obj end) paid).0 ≢ ok true)
        × ((record_provider_event event (obj end) paid).1.db ≡ paid.db))
record_provider_event_atomic_example = record_provider_event_atomic event (obj end) paid
