-- ===== src/Core/RoundTrip/Refunds.antt =====
-- Refunds and refund commands that are written to JSON and read back.
use dinapay_connector_binanc.Shared.{Text, lit, text_beq, [], ◌∷◌, ◌≡◌, ◌<◌, refl, some, arith}
use dinapay_connector_binanc.Strings.{equal_fold}
use dinapay_connector_binanc.Core.Error.{Result, ok}
use dinapay_connector_binanc.Core.Value.{Time, Value, Fields, end, field, member, nullable_member}
use dinapay_connector_binanc.Core.Model.{ProviderRefund, CreateRefundCommand}
use dinapay_connector_binanc.Core.Encode.{
  encode_refund, encode_refund_command, marshal_refund, is_json_time, year_10000,
}
use dinapay_connector_binanc.Core.Stored.{decode_refund}
use dinapay_connector_binanc.Core.Strict.{
  canonical_fields, require_known, struct_fields, decode_some_map, decode_any_map,
}
use dinapay_connector_binanc.Core.Commands.{decode_refund_command}

-- The refund of the given parts.
refund :
    (id transaction provider connection refund_id status raw_status amount currency : Text)
    (seen : Time) (extra : Fields)
    → ProviderRefund
refund id transaction provider connection refund_id status raw_status amount currency seen extra =
    record {
      refund_id = id;
      transaction_id = transaction;
      provider = provider;
      provider_connection_id = connection;
      provider_refund_id = refund_id;
      status = status;
      raw_status = raw_status;
      amount = amount;
      currency = currency;
      observed_at = seen;
      provider_data = extra;
    }

refund_round_trip :
    (float_text : Text → Result Text)
    (id transaction provider connection refund_id status raw_status amount currency : Text)
    (seen : Time) (extra : Fields)
    → canonical_fields float_text extra ≡ ok extra
    → let r =
        refund id transaction provider connection refund_id status raw_status amount currency seen
          extra in
      decode_refund float_text (encode_refund r) ≡ ok r
unfolding refund encode_refund decode_refund member nullable_member text_beq lit decode_some_map
    decode_any_map
refund_round_trip f i t p c r s [] a u seen end h = refl
refund_round_trip f i t p c r s [] a u seen (field k v m) h = rw h refl
refund_round_trip f i t p c r s (x ∷ w) a u seen end h = refl
refund_round_trip f i t p c r s (x ∷ w) a u seen (field k v m) h = rw h refl

marshal_refund-some :
    (r : ProviderRefund) → r.observed_at < year_10000 → marshal_refund r ≡ some (encode_refund r)
unfolding marshal_refund is_json_time
marshal_refund-some r seen = ground arith

-- A refund that can be written to JSON, since its time lies before the year 10000, and whose data are
-- in the form in which Go reads and writes a map, is read back as the same refund.
pub decode-encode_refund :
    (float_text : Text → Result Text) (r : ProviderRefund)
    → r.observed_at < year_10000
    → canonical_fields float_text r.provider_data ≡ ok r.provider_data
    → (v : Value) × (marshal_refund r ≡ some v) × (decode_refund float_text v ≡ ok r)
unfolding refund
decode-encode_refund float_text r seen h = (
  encode_refund r,
  marshal_refund-some r seen,
  refund_round_trip float_text r.refund_id r.transaction_id r.provider r.provider_connection_id
      r.provider_refund_id r.status r.raw_status r.amount r.currency r.observed_at r.provider_data
      h,
)

command :
    (operation id transaction connection amount currency reason : Text) (extra : Fields)
    → CreateRefundCommand
command operation id transaction connection amount currency reason extra = record {
  operation_id = operation;
  refund_id = id;
  transaction_id = transaction;
  provider_connection_id = connection;
  amount = amount;
  currency = currency;
  reason = reason;
  metadata = extra;
}

command_round_trip :
    (float_text : Text → Result Text)
    (operation id transaction connection amount currency reason : Text) (extra : Fields)
    → canonical_fields float_text extra ≡ ok extra
    → let c = command operation id transaction connection amount currency reason extra in
      decode_refund_command float_text (encode_refund_command c) ≡ ok c
unfolding command encode_refund_command decode_refund_command member nullable_member text_beq lit
    equal_fold require_known struct_fields decode_some_map decode_any_map
command_round_trip f o i t c a u [] end h = refl
command_round_trip f o i t c a u [] (field k v m) h = rw h refl
command_round_trip f o i t c a u (x ∷ w) end h = refl
command_round_trip f o i t c a u (x ∷ w) (field k v m) h = rw h refl

-- A refund command that is written to JSON, and read with DisallowUnknownFields, is the same command,
-- where its metadata are in the form in which Go writes a map.
pub decode-encode_refund_command :
    (float_text : Text → Result Text) (c : CreateRefundCommand)
    → canonical_fields float_text c.metadata ≡ ok c.metadata
    → decode_refund_command float_text (encode_refund_command c) ≡ ok c
unfolding command
decode-encode_refund_command float_text c h =
    command_round_trip float_text c.operation_id c.refund_id c.transaction_id
      c.provider_connection_id c.amount c.currency c.reason c.metadata h
