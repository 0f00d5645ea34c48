-- ===== src/Core/RoundTrip.antt =====
-- What a stored payment or refund decodes to.
pub mod Refunds
use dinapay_connector_binanc.Shared.{Text, lit, text_beq, [], ◌∷◌, ◌≡◌, ◌<◌, refl, some, ltb, arith}
use dinapay_connector_binanc.Core.Error.{Result, ok}
use dinapay_connector_binanc.Core.Value.{Time, Value, Fields, end, field, member, nullable_member}
use dinapay_connector_binanc.Core.Model.{ProviderPayment}
use dinapay_connector_binanc.Core.Encode.{encode_payment, marshal_payment, is_json_time, year_10000}
use dinapay_connector_binanc.Core.Strict.{canonical_fields, decode_some_map, decode_any_map}
use dinapay_connector_binanc.Core.Stored.{decode_payment}

-- The payment of the given parts.
payment :
    (transaction provider connection id reference status raw_status : Text) (seen expires : Time)
    (completion extra : Fields) (amount currency : Text)
    → ProviderPayment
payment transaction provider connection id reference status raw_status seen expires completion extra
      amount currency =
    record {
      transaction_id = transaction;
      provider = provider;
      provider_connection_id = connection;
      provider_payment_id = id;
      provider_reference = reference;
      status = status;
      raw_status = raw_status;
      observed_at = seen;
      expires_at = expires;
      completion = completion;
      provider_data = extra;
      amount = amount;
      currency = currency;
    }

payment_round_trip :
    (float_text : Text → Result Text)
    (transaction provider connection id reference status raw_status : Text) (seen expires : Time)
    (completion extra : Fields) (amount currency : Text)
    → canonical_fields float_text completion ≡ ok completion
    → canonical_fields float_text extra ≡ ok extra
    → decode_payment float_text (
        encode_payment (
          payment transaction provider connection id reference status raw_status seen expires
            completion extra amount currency))
      ≡ ok (
          payment transaction provider connection id reference status raw_status seen expires
            completion extra [] [])
unfolding payment encode_payment decode_payment member nullable_member text_beq lit decode_some_map
    decode_any_map
payment_round_trip f t p c i [] s [] seen e end end a u h h' = refl
payment_round_trip f t p c i [] s [] seen e end (field k' v' m') a u h h' = rw h' refl
payment_round_trip f t p c i [] s [] seen e (field k v m) end a u h h' = rw h refl
payment_round_trip f t p c i [] s [] seen e (field k v m) (field k' v' m') a u h h' =
    rw (h, h') refl
payment_round_trip f t p c i [] s (x ∷ r) seen e end end a u h h' = refl
payment_round_trip f t p c i [] s (x ∷ r) seen e end (field k' v' m') a u h h' = rw h' refl
payment_round_trip f t p c i [] s (x ∷ r) seen e (field k v m) end a u h h' = rw h refl
payment_round_trip f t p c i [] s (x ∷ r) seen e (field k v m) (field k' v' m') a u h h' =
    rw (h, h') refl
payment_round_trip f t p c i (y ∷ q) s [] seen e end end a u h h' = refl
payment_round_trip f t p c i (y ∷ q) s [] seen e end (field k' v' m') a u h h' = rw h' refl
payment_round_trip f t p c i (y ∷ q) s [] seen e (field k v m) end a u h h' = rw h refl
payment_round_trip f t p c i (y ∷ q) s [] seen e (field k v m) (field k' v' m') a u h h' =
    rw (h, h') refl
payment_round_trip f t p c i (y ∷ q) s (x ∷ r) seen e end end a u h h' = refl
payment_round_trip f t p c i (y ∷ q) s (x ∷ r) seen e end (field k' v' m') a u h h' = rw h' refl
payment_round_trip f t p c i (y ∷ q) s (x ∷ r) seen e (field k v m) end a u h h' = rw h refl
payment_round_trip f t p c i (y ∷ q) s (x ∷ r) seen e (field k v m) (field k' v' m') a u h h' =
    rw (h, h') refl

marshal_payment-some :
    (p : ProviderPayment)
    → p.observed_at < year_10000
    → p.expires_at < year_10000
    → marshal_payment p ≡ some (encode_payment p)
unfolding marshal_payment is_json_time
marshal_payment-some p seen expires = ground arith

-- A payment that can be written to JSON, since its times lie before the year 10000, and whose maps are
-- in the form in which Go reads and writes a map, is read back the same but for the amount and the
-- currency, which are not written and read back empty.
pub decode-encode_payment :
    (float_text : Text → Result Text) (p : ProviderPayment)
    → p.observed_at < year_10000
    → p.expires_at < year_10000
    → canonical_fields float_text p.completion ≡ ok p.completion
    → canonical_fields float_text p.provider_data ≡ ok p.provider_data
    → (v : Value) × (marshal_payment p ≡ some v)
      × (decode_payment float_text v ≡ ok (record p { amount = []; currency = [] }))
unfolding payment
decode-encode_payment float_text p seen expires h k = (
  encode_payment p,
  marshal_payment-some p seen expires,
  payment_round_trip float_text p.transaction_id p.provider p.provider_connection_id
      p.provider_payment_id p.provider_reference p.status p.raw_status p.observed_at p.expires_at
      p.completion p.provider_data p.amount p.currency h k,
)
