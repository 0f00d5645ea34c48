-- ===== src/Store/Events.antt =====
-- Provider events of store.go: RecordProviderEvent, and the outbox that the publisher empties.
pub mod Atomic
use dinapay_connector_binanc.Shared.{
  ℕ, ◌+◌, ◌*◌, ◌^◌, min, Text, List, [], ◌∷◌, map, take, none, some, Bool, true, false, ◌&&◌, ◌==◌,
  nat_eq, text_eq, leb, if◌then◌else◌, any, select, count_where, update_where,
}
use dinapay_connector_binanc.Core.Value.{Time, Value}
use dinapay_connector_binanc.Core.Error.{ok, err, message}
use dinapay_connector_binanc.Core.Model.{ProviderEvent}
use dinapay_connector_binanc.Core.Encode.{encode_event}
use dinapay_connector_binanc.Store.Schema.{InboundEvent, OutboxRow}
use dinapay_connector_binanc.Store.Orders.{second, set_status}
use dinapay_connector_binanc.Effects.{M, ◌>>=◌, ◌>>◌, pure, get_env}
use dinapay_connector_binanc.Effects.Sql.{Statement, exec, exec_at, query, transaction}

abbrev pub has_inbound : Text → Text → InboundEvent → Bool
has_inbound connection id e = e.provider_connection_id == connection && e.event_id == id

abbrev pub has_event : Text → OutboxRow → Bool
has_event id r = r.event_id == id

-- INSERT INTO binancepay_v2_inbound_events … ON CONFLICT DO NOTHING
unfoldable pub insert_inbound : Text → Text → Value → Statement ℕ
insert_inbound connection id payload d =
    if any (has_inbound connection id) d.inbound_events
    then ok (0, d)
    else ok (
      1,
      record d {
        inbound_events =
            record { provider_connection_id = connection; event_id = id; raw_payload = payload }
            ∷ d.inbound_events;
      },
    )

unfoldable pub new_outbox : Text → Value → Time → OutboxRow
new_outbox id payload time = record {
  event_id = id;
  payload = payload;
  attempts = 0;
  next_attempt_at = time;
  published_at = none;
  last_error = none;
  created_at = time;
}

-- INSERT INTO binancepay_v2_event_outbox
unfoldable pub insert_outbox : Text → Text → Value → Time → Statement ℕ
unfolding new_outbox
insert_outbox violation id payload time d =
    if any (has_event id) d.outbox
    then err (message violation)
    else ok (1, record d { outbox = new_outbox id payload time ∷ d.outbox })

-- The rest of the transaction, for an event that is new: the outbox row and the order's status.
unfoldable pub store_event : ProviderEvent → Time → M (Bool × Bool)
unfolding insert_outbox set_status
store_event e time = do
  env ← get_env
  exec_at (insert_outbox env.violation e.event_id (encode_event e) time)
  exec_at (
      set_status e.provider_connection_id e.provider_payment_id e.event_data.status
        e.event_data.raw_status (env.timestamptz e.observed_at) time)
  pure (true, true)

unfoldable pub record_body : ProviderEvent → Value → Time → M (Bool × Bool)
unfolding insert_inbound store_event
record_body e payload time = do
  affected ← exec_at (insert_inbound e.provider_connection_id e.event_id payload)
  if affected == 0 then pure (false, false) else store_event e time

-- true where the event is new
unfoldable pub record_provider_event : ProviderEvent → Value → M Bool
unfolding record_body
record_provider_event e payload = transaction (record_body e payload)

pub record OutboxItem : Type 0 where
  pub event_id : Text
  pub payload : Value

unfoldable pub is_unpublished : OutboxRow → Bool
is_unpublished r = elim r.published_at [ none ↦ true | some _ ↦ false ]

unfoldable pub is_pending : Time → OutboxRow → Bool
unfolding is_unpublished
is_pending time r = is_unpublished r && leb r.next_attempt_at time

-- ORDER BY created_at
unfoldable pub insert_by_age : OutboxRow → List OutboxRow → List OutboxRow
insert_by_age r [] = r ∷ []
insert_by_age r (q ∷ qs) =
    let rest = insert_by_age r qs in if leb r.created_at q.created_at then r ∷ q ∷ qs else q ∷ rest

unfoldable pub sort_by_age : List OutboxRow → List OutboxRow
unfolding insert_by_age
sort_by_age [] = []
sort_by_age (r ∷ rs) = insert_by_age r (sort_by_age rs)

unfoldable pub outbox_item : OutboxRow → OutboxItem
outbox_item r = record { event_id = r.event_id; payload = r.payload }

unfoldable pub pending_events : ℕ → M (List OutboxItem)
unfolding is_pending sort_by_age outbox_item
pending_events limit =
    query λ time d. map outbox_item (take limit (sort_by_age (select (is_pending time) d.outbox)))

unfoldable pub published : Time → OutboxRow → OutboxRow
published time r = record r { published_at = some time }

unfoldable pub set_published : Text → Time → Statement ℕ
unfolding published
set_published id time d = ok (
  count_where (has_event id) d.outbox,
  record d { outbox = update_where (has_event id) (published time) d.outbox },
)

unfoldable pub mark_published : Text → M (Unit {0})
unfolding set_published
mark_published id = do exec (set_published id); pure tt

-- least(interval '5 minutes',interval '2 seconds'*power(2,least(attempts,8)))
unfoldable pub publish_delay : ℕ → ℕ
publish_delay attempts = min (300 * second) (2 * second * 2 ^ min attempts 8)

unfoldable pub failed : Text → Time → OutboxRow → OutboxRow
unfolding publish_delay
failed text time r = record r {
  attempts = r.attempts + 1;
  last_error = some text;
  next_attempt_at = time + publish_delay r.attempts;
}

unfoldable pub set_failed : Text → Text → Time → Statement ℕ
unfolding failed
set_failed id text time d = ok (
  count_where (has_event id) d.outbox,
  record d { outbox = update_where (has_event id) (failed text time) d.outbox },
)

unfoldable pub mark_failed : Text → Text → M (Unit {0})
unfolding set_failed
mark_failed id text = do exec (set_failed id text); pure tt
