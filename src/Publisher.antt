-- ===== src/Publisher.antt =====
-- The publisher of the outbox: internal/adapters/publisher/publisher.go.
use dinapay_connector_binanc.Shared.{Text, lit, List, [], ◌∷◌, ◌++◌, ◌&&◌, leb, ltb, if◌then◌else◌}
use dinapay_connector_binanc.Strings.{trim_right}
use dinapay_connector_binanc.Strings.Numbers.{decimal}
use dinapay_connector_binanc.Core.Error.{Result, ok, err, message, error_text}
use dinapay_connector_binanc.Core.Context.{Context}
use dinapay_connector_binanc.Effects.{
  M, HttpRequest, HttpResponse, ◌>>=◌, ◌>>◌, pure, lift, attempt, ignore, get_env, http_do, observe,
  publish,
}
use dinapay_connector_binanc.Store.Events.{OutboxItem, pending_events, mark_published, mark_failed}

pub record Publisher : Type 0 where
  pub endpoint : Text
  pub token : Text

unfoldable pub new : Text → Text → Publisher
unfolding trim_right
new base_url token = record {
  endpoint = trim_right b'/' base_url ++ lit "/internal/v1/provider-events";
  token = token;
}

header_unless_empty : Text → Text → List (Text × Text) → List (Text × Text)
header_unless_empty name [] rest = rest
header_unless_empty name (c ∷ s) rest = (name, c ∷ s) ∷ rest

unfoldable pub event_request : (OutboxItem → Text) → Publisher → Context → OutboxItem → HttpRequest
unfolding header_unless_empty
event_request print p ctx item = record {
  url = p.endpoint;
  headers =
      (lit "Content-Type", lit "application/json")
      ∷ (lit "Authorization", lit "Bearer " ++ p.token)
      ∷ header_unless_empty (lit "X-Request-Id") ctx.request_id
          (header_unless_empty (lit "traceparent") ctx.traceparent []);
  body = print item;
}

accept_status : HttpResponse → Result (Unit {0})
accept_status r =
    if leb 200 r.status_code && ltb r.status_code 300
    then ok tt
    else err (message (lit "orchestrator http " ++ decimal r.status_code))

-- client.Do and the test of the status; a request that cannot be built is an answer that is an error
unfoldable pub send_event : Publisher → Context → OutboxItem → M (Unit {0})
unfolding event_request accept_status
send_event p ctx item = do
  env ← get_env
  response ← http_do (event_request (λ i. env.print_json i.payload) p ctx item)
  lift (accept_status response)

unfoldable pub after_send : OutboxItem → Result (Unit {0}) → M (Unit {0})
after_send item (err e) = do
  observe (publish (lit "error"))
  ignore (mark_failed item.event_id (error_text e))
after_send item (ok _) = do ignore (mark_published item.event_id); observe (publish (lit "success"))

unfoldable pub publish_item : Publisher → Context → OutboxItem → M (Unit {0})
unfolding send_event after_send
publish_item p ctx item = do sent ← attempt (send_event p ctx item); after_send item sent

unfoldable pub publish_all : Publisher → Context → List OutboxItem → M (Unit {0})
unfolding publish_item
publish_all p ctx [] = pure tt
publish_all p ctx (item ∷ items) = do publish_item p ctx item; publish_all p ctx items

unfoldable pub after_pending : Publisher → Context → Result (List OutboxItem) → M (Unit {0})
unfolding publish_all
after_pending p ctx (err e) = pure tt
after_pending p ctx (ok items) = publish_all p ctx items

unfoldable pub flush : Publisher → Context → M (Unit {0})
unfolding after_pending
flush p ctx = do items ← attempt (pending_events 50); after_pending p ctx items
