-- ===== src/Core/Encode.antt =====
-- json.Marshal of the structs of internal/core/model.go, by their field tags. The `marshal` functions
-- are Marshal with its error, which a time of the year 10000 or later is; the `encode` functions are
-- for values whose times the program has read from a clock or from JSON.
use dinapay_connector_binanc.Shared.{
  ℕ, Text, String, [], ◌∷◌, List, Option, none, some, lit, Bool, ◌&&◌, ltb, if◌then◌else◌,
}
use dinapay_connector_binanc.Core.Value.{Time, Value, null, str, time, obj, Fields, end, field}
use dinapay_connector_binanc.Core.Model.{
  Binding, CreatePaymentCommand, CreateRefundCommand, ProviderRefund, ProviderPayment, EventData,
  ProviderEvent,
}

-- A text field, and one that is tagged omitempty.
abbrev pub text_field : String → Text → Fields → Fields
text_field name s rest = field (lit name) (str s) rest

abbrev pub text_or_omit : String → Text → Fields → Fields
text_or_omit name [] rest = rest
text_or_omit name (c ∷ s) rest = field (lit name) (str (c ∷ s)) rest

-- A map that is tagged omitempty.
abbrev map_or_omit : String → Fields → Fields → Fields
map_or_omit name end rest = rest
map_or_omit name (field k v m) rest = field (lit name) (obj (field k v m)) rest

abbrev time_field : String → Time → Fields → Fields
time_field name t rest = field (lit name) (time t) rest

text_entries : List (Text × Text) → Fields
text_entries [] = end
text_entries ((k, v) ∷ m) = field k (str v) (text_entries m)

binding_or_omit : Option Binding → Fields → Fields
binding_or_omit none rest = rest
binding_or_omit (some b) rest =
    field (lit "binding")
      (obj (
        text_field "bindingId" b.binding_id (
          text_field "entityType" b.entity_type (
            text_field "entityId" b.entity_id (
              text_field "externalEntityType" b.external_entity_type
                (text_field "externalEntityId" b.external_entity_id end))))))
      rest

nil_or_map : Option Fields → Value
nil_or_map none = null
nil_or_map (some m) = obj m

unfoldable pub encode_create_command : CreatePaymentCommand → Value
unfolding text_entries binding_or_omit nil_or_map
encode_create_command c = obj (
    text_field "operationId" c.operation_id (
      text_field "transactionId" c.transaction_id (
        text_field "provider" c.provider (
          text_field "providerConnectionId" c.provider_connection_id (
            binding_or_omit c.binding (
              text_field "amount" c.amount (
                text_field "currency" c.currency (
                  text_field "paymentMethod" c.payment_method (
                    text_or_omit "rail" c.rail (
                      text_or_omit "destinationMode" c.destination_mode (
                        text_or_omit "description" c.description (
                          time_field "expiresAt" c.expires_at (
                            map_or_omit "returnUrls" (text_entries c.return_urls) (
                              field (lit "customer") (nil_or_map c.customer)
                                (map_or_omit "metadata" c.metadata end)))))))))))))))

unfoldable pub encode_refund_command : CreateRefundCommand → Value
encode_refund_command c = obj (
    text_field "operationId" c.operation_id (
      text_field "refundId" c.refund_id (
        text_field "transactionId" c.transaction_id (
          text_field "providerConnectionId" c.provider_connection_id (
            text_field "amount" c.amount (
              text_field "currency" c.currency
                (text_or_omit "reason" c.reason (map_or_omit "metadata" c.metadata end))))))))

-- Amount and Currency are tagged "-": they are not written.
unfoldable pub encode_payment : ProviderPayment → Value
encode_payment p = obj (
    text_field "transactionId" p.transaction_id (
      text_field "provider" p.provider (
        text_field "providerConnectionId" p.provider_connection_id (
          text_field "providerPaymentId" p.provider_payment_id (
            text_or_omit "providerReference" p.provider_reference (
              text_field "status" p.status (
                text_or_omit "rawStatus" p.raw_status (
                  time_field "observedAt" p.observed_at (
                    time_field "expiresAt" p.expires_at (
                      map_or_omit "completion" p.completion
                        (map_or_omit "providerData" p.provider_data end)))))))))))

unfoldable pub encode_refund : ProviderRefund → Value
encode_refund r = obj (
    text_field "refundId" r.refund_id (
      text_field "transactionId" r.transaction_id (
        text_field "provider" r.provider (
          text_field "providerConnectionId" r.provider_connection_id (
            text_field "providerRefundId" r.provider_refund_id (
              text_field "status" r.status (
                text_or_omit "rawStatus" r.raw_status (
                  text_field "amount" r.amount (
                    text_field "currency" r.currency (
                      time_field "observedAt" r.observed_at
                        (map_or_omit "providerData" r.provider_data end)))))))))))

-- Nanoseconds from the start of the year 1 to that of the year 10000
abbrev pub year_10000 : ℕ
year_10000 = 315_537_897_600_000_000_000

-- time.Time's MarshalJSON refuses later years.
unfoldable pub is_json_time : Time → Bool
is_json_time t = ltb t year_10000

unfoldable pub marshal_payment : ProviderPayment → Option Value
unfolding encode_payment is_json_time
marshal_payment p =
    if is_json_time p.observed_at && is_json_time p.expires_at
    then some (encode_payment p)
    else none

unfoldable pub marshal_refund : ProviderRefund → Option Value
unfolding encode_refund is_json_time
marshal_refund r = if is_json_time r.observed_at then some (encode_refund r) else none

encode_event_data : EventData → Value
encode_event_data d = obj (
    text_field "status" d.status (
      text_field "rawStatus" d.raw_status (
        text_or_omit "amount" d.amount (
          text_or_omit "currency" d.currency (
            text_or_omit "providerReference" d.provider_reference
              (map_or_omit "providerData" d.provider_data end))))))

unfoldable pub encode_event : ProviderEvent → Value
unfolding encode_event_data
encode_event e = obj (
    text_field "eventId" e.event_id (
      text_field "eventType" e.event_type (
        text_field "eventVersion" e.event_version (
          text_field "source" e.source (
            time_field "occurredAt" e.occurred_at (
              time_field "observedAt" e.observed_at (
                text_field "transactionId" e.transaction_id (
                  text_field "provider" e.provider (
                    text_field "providerConnectionId" e.provider_connection_id (
                      text_field "providerPaymentId" e.provider_payment_id
                        (field (lit "data") (encode_event_data e.event_data) end)))))))))))
