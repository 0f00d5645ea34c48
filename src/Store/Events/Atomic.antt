-- ===== src/Store/Events/Atomic.antt =====
-- RecordProviderEvent of store.go as one change of the tables.
use dinapay_connector_binanc.Shared.{
  ◌≡◌, ◌≢◌, ◌⊎◌, ◌∷◌, Bool, true, false, arith, any, update_where,
}
use dinapay_connector_binanc.Core.Value.{Value}
use dinapay_connector_binanc.Core.Error.{ok}
use dinapay_connector_binanc.Core.Model.{ProviderEvent}
use dinapay_connector_binanc.Core.Encode.{encode_event}
use dinapay_connector_binanc.Store.Schema.{Database}
use dinapay_connector_binanc.Store.Orders.{has_id, observed, set_status}
use dinapay_connector_binanc.Store.Events.{
  has_inbound, has_event, new_outbox, record_provider_event, record_body, store_event,
  insert_inbound, insert_outbox,
}
use dinapay_connector_binanc.Effects.{World, ◌>>=◌, now}
use dinapay_connector_binanc.Effects.Sql.{exec_at, transaction, finish}

-- The tables with the event: its record, its outbox row, and the status of its payment's order.
abbrev pub with_event : World → ProviderEvent → Value → Database
with_event w e payload =
    let d = w.db in
    let time = w.env.clock w.step in
    record d {
      inbound_events =
          record {
            provider_connection_id = e.provider_connection_id;
            event_id = e.event_id;
            raw_payload = payload;
          }
          ∷ d.inbound_events;
      outbox = new_outbox e.event_id (encode_event e) time ∷ d.outbox;
      orders =
          update_where (has_id e.provider_connection_id e.provider_payment_id)
            (observed e.event_data.status e.event_data.raw_status (w.env.timestamptz e.observed_at)
              time)
            d.orders;
    }

abbrev pub is_recorded : ProviderEvent → Database → Bool
is_recorded e d = any (has_inbound e.provider_connection_id e.event_id) d.inbound_events

-- RecordProviderEvent does all or nothing. Either it answers that the event is new: then neither the
-- inbound table nor the outbox had its identifier, and the tables have the event, its outbox row and the
-- status of its order now. Or it answers anything else, a repeated event or an error: then no table has
-- changed.
pub record_provider_event_atomic :
    (e : ProviderEvent) (payload : Value) (w : World)
    → let (r, w') = record_provider_event e payload w in
      ((r ≡ ok true)
        × (is_recorded e w.db ≡ false)
        × (any (has_event e.event_id) w.db.outbox ≡ false)
        × (w'.db ≡ with_event w e payload))
      ⊎ ((r ≢ ok true) × (w'.db ≡ w.db))
unfolding record_provider_event record_body store_event insert_inbound insert_outbox set_status
    exec_at transaction finish ◌>>=◌ now
record_provider_event_atomic e payload w = ground arith
