-- ===== src/Tests/Values.antt =====
-- Statuses, delays and a refund whose identifier is taken.
use dinapay_connector_binanc.Shared.{some, lit, [], ◌∷◌, ◌≡◌, refl, none, true, false, arith}
use dinapay_connector_binanc.Core.Error.{ok}
use dinapay_connector_binanc.Core.Value.{Value, obj, str, end, field}
use dinapay_connector_binanc.Core.Encode.{marshal_refund, encode_refund_command}
use dinapay_connector_binanc.Core.Stored.{decode_refund}
use dinapay_connector_binanc.Core.Strict.{canonical_fields}
use dinapay_connector_binanc.Core.Commands.{decode_refund_command}
use dinapay_connector_binanc.Core.RoundTrip.Refunds.{
  decode-encode_refund, decode-encode_refund_command,
}
use dinapay_connector_binanc.Core.Model.{CreateRefundCommand, ProviderRefund}
use dinapay_connector_binanc.Store.Schema.{empty}
use dinapay_connector_binanc.Store.Refunds.{new_refund, reserve_refund}
use dinapay_connector_binanc.Store.Refunds.Taken.{reserve_refund_taken}
use dinapay_connector_binanc.Effects.{World}
use dinapay_connector_binanc.BinancePay.Webhook.{amounts_equal}
use dinapay_connector_binanc.Tests.Machine.{machine}
use dinapay_connector_binanc.Tests.Setup.{start, created_answer}

abbrev refund_command : CreateRefundCommand
refund_command = record {
  operation_id = lit "o2";
  metadata = end;
  refund_id = lit "r-1";
  transaction_id = lit "tx-1";
  provider_connection_id = lit "c1";
  amount = lit "0.25";
  currency = lit "USDT";
  reason = [];
}

abbrev refunding : World
refunding = record (start created_answer) {
  db = record empty { refunds = new_refund (lit "k1") (lit "07") (obj end) refund_command 5 ∷ [] };
}

reserve_refund_taken_example :
    ((reserve_refund (lit "k2") (lit "08") (obj end) refund_command refunding).0 ≡ ok none)
    × ((reserve_refund (lit "k2") (lit "08") (obj end) refund_command refunding).1.db
        ≡ refunding.db)
unfolding machine new_refund
reserve_refund_taken_example =
    reserve_refund_taken (lit "k2") (lit "08") (obj end) refund_command refunding refl refl refl
      refl

-- Amounts with trailing zeros and blanks are equal, others are not.
amounts_compare :
    (amounts_equal (λ text. none) (lit " 12.50") (lit "12.5") ≡ true)
    × (amounts_equal (λ text. none) (lit "12.50") (lit "12.05") ≡ false)
    × (amounts_equal (λ text. none) (lit "1.2.5") (lit "1.2.5") ≡ false)
unfolding machine
amounts_compare = (refl, refl, refl)

abbrev refunded : ProviderRefund
refunded = record {
  refund_id = lit "r-1";
  transaction_id = lit "tx-1";
  provider = lit "binancepay";
  provider_connection_id = lit "c1";
  provider_refund_id = lit "pr-1";
  status = lit "confirmed";
  raw_status = lit "SUCCESS";
  amount = lit "0.25";
  currency = lit "USDT";
  observed_at = 5;
  provider_data = field (lit "note") (str (lit "n")) end;
}

decode-encode_refund_example :
    (v : Value) × (marshal_refund refunded ≡ some v)
    × (decode_refund (λ text. ok text) v ≡ ok refunded)
unfolding canonical_fields
decode-encode_refund_example = decode-encode_refund (λ text. ok text) refunded (omega arith) refl

-- A command with metadata.
abbrev noted_command : CreateRefundCommand
noted_command = record refund_command { metadata = field (lit "note") (str (lit "n")) end }

decode-encode_refund_command_example :
    decode_refund_command (λ text. ok text) (encode_refund_command noted_command) ≡ ok noted_command
unfolding canonical_fields
decode-encode_refund_command_example =
    decode-encode_refund_command (λ text. ok text) noted_command refl
