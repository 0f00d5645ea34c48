-- ===== src/Webhooks/Unchanged.antt =====
-- Webhooks and the tables: HandleWebhook of webhook.go.
use dinapay_connector_binanc.Shared.{
  Text, ◌≡◌, ◌≢◌, refl, ◌∙◌, Bool, true, false, arith, if◌then◌else◌,
}
use dinapay_connector_binanc.Core.Value.{Value}
use dinapay_connector_binanc.Core.Error.{Result, ok, err}
use dinapay_connector_binanc.Core.Model.{
  ProviderEvent, ProviderPayment, WebhookEnvelope, WebhookData,
}
use dinapay_connector_binanc.Store.Orders.{find_payment_by_reference}
use dinapay_connector_binanc.Store.Events.{record_provider_event}
use dinapay_connector_binanc.Store.Events.Atomic.{record_provider_event_atomic}
use dinapay_connector_binanc.Effects.{World, M, ◌>>=◌, continue, pure, lift, gets, now}
use dinapay_connector_binanc.Effects.Sql.{query}
use dinapay_connector_binanc.App.Webhook.{handle_webhook, apply_webhook, record_webhook}

-- The tables are changed only where the answer is `true`.
record Changes (m : M Bool) : Type 0 where
  at : (w : World) → (m w).0 ≢ ok true → (m w).1.db ≡ w.db

-- The action changes no table.
record Reads {A : Type 0} (m : M A) : Type 0 where
  at : (w : World) → (m w).1.db ≡ w.db

module _ {A : Type 0} where
  Reads-lift : (r : Result A) → Reads (lift r)
  unfolding lift
  Reads-lift r = record { at = λ w. refl }

  Reads-gets : (f : World → A) → Reads (gets f)
  unfolding gets
  Reads-gets f = record { at = λ w. refl }

  continue-Changes :
      (r : Result A) (f : A → M Bool) (w : World)
      → ((a : A) → Changes (f a))
      → (continue r f w).0 ≢ ok true
      → (continue r f w).1.db ≡ w.db
  continue-Changes (ok a) f w k h = (k a).at w h
  continue-Changes (err e) f w k h = refl

  Changes-bind :
      (m : M A) (f : A → M Bool) → Reads m → ((a : A) → Changes (f a)) → Changes (m >>= f)
  unfolding ◌>>=◌
  Changes-bind m f r k = record {
    at = λ w h. let (a, w') = m w in continue-Changes a f w' k h ∙ r.at w;
  }

Changes-if : (b : Bool) (m n : M Bool) → Changes m → Changes n → Changes (if b then m else n)
Changes-if true m n km kn = km
Changes-if false m n km kn = kn

Changes-pure : (b : Bool) → Changes (pure b)
unfolding pure
Changes-pure b = record { at = λ w h. refl }

Reads-now : Reads now
unfolding now
Reads-now = record { at = λ w. refl }

find_by_reference-Reads : (c r : Text) → Reads (find_payment_by_reference c r)
unfolding find_payment_by_reference query now ◌>>=◌
find_by_reference-Reads c r = record { at = λ w. ground arith }

record_event-Changes : (e : ProviderEvent) (v : Value) → Changes (record_provider_event e v)
record_event-Changes e v = record { at = λ w h. ground (arith, record_provider_event_atomic e v w) }

ruleset changes_rules = (
  Changes-bind, Changes-if, Changes-pure, Reads-lift, Reads-gets, Reads-now,
  find_by_reference-Reads, record_event-Changes,
)

record_webhook-Changes :
    (c body : Text) (p : ProviderPayment) (e : WebhookEnvelope) (d : WebhookData) (status : Text)
    → Changes (record_webhook c body p e d status)
unfolding record_webhook
record_webhook-Changes c body p e d status = search changes_rules

apply_webhook-Changes :
    (c body : Text) (p : ProviderPayment) (e : WebhookEnvelope) (d : WebhookData)
    → Changes (apply_webhook c body p e d)
unfolding apply_webhook
apply_webhook-Changes c body p e d = search (changes_rules, record_webhook-Changes)

handle_webhook-Changes : (c body : Text) → Changes (handle_webhook c body)
unfolding handle_webhook
handle_webhook-Changes c body = search (changes_rules, apply_webhook-Changes) depth 12

-- A webhook that ends in an error (no JSON, an unknown order, another payment, currency or amount, a
-- failed statement), or that answers false (no news, or an event that is recorded), leaves every
-- table as it was.
pub handle_webhook_unchanged :
    (connection body : Text) (w : World)
    → (handle_webhook connection body w).0 ≢ ok true
    → (handle_webhook connection body w).1.db ≡ w.db
handle_webhook_unchanged connection body w = (handle_webhook-Changes connection body).at w
