-- ===== src/BinancePay/Webhook.antt =====
-- internal/binancepay/webhook.go: verification and parsing of webhooks, and equality of amounts.
pub mod Rsa
pub mod Verified
use dinapay_connector_binanc.Shared.{
  ℕ, ◌+◌, ◌*◌, Text, lit, [], Option, none, some, Bool, false, not, ◌||◌, ◌==◌, text_eq, ltb,
  if◌then◌else◌,
}
use dinapay_connector_binanc.Shared.Int.{ℤ, pos, negsuc}
use dinapay_connector_binanc.Strings.{to_upper, trim_space}
use dinapay_connector_binanc.Strings.Numbers.{parse_int}
use dinapay_connector_binanc.Strings.Rational.{Rat, same_rat, set_string}
use dinapay_connector_binanc.Core.Error.{Result, ok, err, message}
use dinapay_connector_binanc.Core.Value.{Time, Value, str, member}
use dinapay_connector_binanc.Core.Model.{WebhookEnvelope, WebhookData}
use dinapay_connector_binanc.Core.Decode.{◌>>=◌, text_at, decode_flexible, decode_map}
use dinapay_connector_binanc.BinancePay.Webhook.Rsa.{Crypto, verify_rsa}
use dinapay_connector_binanc.BinancePay.Client.{unix_epoch, sign, signed_payload}

-- Five minutes, in nanoseconds.
abbrev pub tolerance : ℕ
tolerance = 300_000_000_000

-- Is an instant, in milliseconds of the Unix epoch, more than five minutes from `now`?
unfoldable pub is_stale : Time → ℤ → Bool
is_stale now (pos ms) =
    let sent = unix_epoch + ms * 1_000_000 in
    ltb (sent + tolerance) now || ltb (now + tolerance) sent
is_stale now (negsuc ms) =
    ltb (unix_epoch + tolerance) (now + (ms + 1) * 1_000_000)
    || ltb (now + (ms + 1) * 1_000_000 + tolerance) unix_epoch

verify_hmac : (Text → Text → Text) → Text → Text → Text → Result (Unit {0})
unfolding sign
verify_hmac hmac_sha512 payload signature secret =
    if secret == []
    then err (message (lit "webhook verification key missing"))
    else if not (to_upper signature == sign hmac_sha512 payload secret)
    then err (message (lit "invalid signature"))
    else ok tt

verify_fresh :
    (Text → Text → Text)
    → (Text → Text → Text → Result (Unit {0}))
    → Time
    → Option ℤ
    → Text
    → Text
    → Text
    → Text
    → Result (Unit {0})
unfolding verify_hmac is_stale
verify_fresh hmac_sha512 check_rsa now none payload signature secret key =
    err (message (lit "invalid timestamp"))
verify_fresh hmac_sha512 check_rsa now (some millis) payload signature secret key =
    if is_stale now millis
    then err (message (lit "stale timestamp"))
    else if not (trim_space key == [])
    then check_rsa payload signature key
    else verify_hmac hmac_sha512 payload signature secret

-- VerifyWebhook
unfoldable pub verify_webhook :
    (Text → Text → Text)
    → Crypto
    → (timestamp nonce signature body hmac_secret public_key : Text) → Time
    → Result (Unit {0})
unfolding verify_fresh signed_payload verify_rsa
verify_webhook hmac_sha512 crypto timestamp nonce signature body hmac_secret public_key now =
    verify_fresh hmac_sha512 (verify_rsa crypto) now (parse_int timestamp)
      (signed_payload timestamp nonce body) signature hmac_secret public_key

decode_envelope : Value → Result WebhookEnvelope
decode_envelope v = do
  m ← decode_map (some v)
  biz_type ← text_at "bizType" m
  biz_id ← decode_flexible (member (lit "bizId") m)
  biz_id_str ← text_at "bizIdStr" m
  biz_status ← text_at "bizStatus" m
  ok (record {
    biz_type = biz_type;
    biz_id = biz_id;
    biz_id_str = biz_id_str;
    biz_status = biz_status;
    raw_data = member (lit "data") m;
  })

decode_webhook_data : Value → Result WebhookData
decode_webhook_data v = do
  m ← decode_map (some v)
  merchant_trade_no ← text_at "merchantTradeNo" m
  prepay_id ← text_at "prepayId" m
  transaction_id ← text_at "transactionId" m
  currency ← text_at "currency" m
  total_fee ← decode_flexible (member (lit "totalFee") m)
  ok (record {
    merchant_trade_no = merchant_trade_no;
    prepay_id = prepay_id;
    transaction_id = transaction_id;
    currency = currency;
    total_fee = total_fee;
  })

-- The data, taken out of a string where the provider has escaped it. `member` leaves out a null
-- here; Unmarshal of null into a string succeeds with the empty text, which is no JSON, as the
-- missing data are none.
unescaped : (Text → Result Value) → Option Value → Result Value
unescaped parse_json none = parse_json []
unescaped parse_json (some (str text)) = parse_json text
unescaped parse_json (some v) = ok v

-- ParseWebhook
unfoldable pub parse_webhook : (Text → Result Value) → Text → Result (WebhookEnvelope × WebhookData)
unfolding decode_envelope decode_webhook_data unescaped
parse_webhook parse_json body = do
  value ← parse_json body
  envelope ← decode_envelope value
  inner ← unescaped parse_json envelope.raw_data
  content ← decode_webhook_data inner
  ok (envelope, content)

both_equal : Option Rat → Option Rat → Bool
both_equal (some a) (some b) = same_rat a b
both_equal _ _ = false

-- AmountsEqual
unfoldable pub amounts_equal : (Text → Option Rat) → Text → Text → Bool
unfolding both_equal
amounts_equal other left right =
    both_equal (set_string other (trim_space left)) (set_string other (trim_space right))
