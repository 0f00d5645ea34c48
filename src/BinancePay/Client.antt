-- ===== src/BinancePay/Client.antt =====
-- The signed calls of internal/binancepay/client.go.
use dinapay_connector_binanc.Shared.{
  ℕ, ◌+◌, ◌-◌, ◌*◌, ◌/◌, ◌^◌, Text, lit, [], ◌∷◌, ◌++◌, take, Option, Bool, not, ◌&&◌, ◌||◌, ◌==◌,
  text_eq, leb, ltb, if◌then◌else◌,
}
use dinapay_connector_binanc.Shared.Int.{ℤ, pos, negsuc}
use dinapay_connector_binanc.Strings.{to_upper, trim_right, trim_space}
use dinapay_connector_binanc.Strings.Numbers.{decimal, decimal_int, hex}
use dinapay_connector_binanc.Core.Error.{Error, Result, ok, err, message, error_text}
use dinapay_connector_binanc.Core.Value.{Time, Value, Fields, obj, str, end, field}
use dinapay_connector_binanc.Core.Decode.{decode_bool}
use dinapay_connector_binanc.Effects.{
  Env, M, HttpRequest, HttpResponse, ◌>>=◌, pure, fail, lift, attempt, now, http_do, random_bytes,
  get_env,
}
use dinapay_connector_binanc.BinancePay.Types.{
  Response, CreateOrderRequest, CreateOrderData, QueryOrderData, RefundOrderRequest, RefundResult,
  encode_create_order, encode_refund_order, decode_response, decode_create_data, decode_query_data,
  decode_refund_result,
}

pub record Client : Type 0 where
  pub base_url : Text
  pub api_key : Text
  pub secret_key : Text

-- New, less the settings of the HTTP transport; `parse_url` is url.Parse.
unfoldable pub new : (Text → Result (Unit {0})) → Text → Text → Text → Text → Result Client
new parse_url base_url api_key secret_key proxy_url =
    if trim_space proxy_url == [] then ok client else after_proxy (parse_url proxy_url)
  where
    client : Client
    client = record {
      base_url =
          trim_right b'/' (if base_url == [] then lit "https://bpay.binanceapi.com" else base_url);
      api_key = api_key;
      secret_key = secret_key;
    }

    after_proxy : Result (Unit {0}) → Result Client
    after_proxy (ok _) = ok client
    after_proxy (err e) = err e

-- From the zero time to the Unix epoch, in nanoseconds.
abbrev pub unix_epoch : Time
unix_epoch = 62_135_596_800_000_000_000

-- Time.UnixMilli, rounded down
unfoldable pub unix_milli : Time → ℤ
unix_milli t =
    if leb unix_epoch t
    then pos ((t - unix_epoch) / 1_000_000)
    else negsuc ((unix_epoch - t - 1) / 1_000_000)

-- time.UnixMilli, of a positive number of milliseconds
unfoldable pub time_of_milli : ℕ → Time
time_of_milli ms = unix_epoch + ms * 1_000_000

-- Sign
unfoldable pub sign : (Text → Text → Text) → Text → Text → Text
unfolding to_upper hex
sign hmac_sha512 payload secret = to_upper (hex (hmac_sha512 secret payload))

-- timestamp + "\n" + nonce + "\n" + body + "\n"
unfoldable pub signed_payload : Text → Text → Text → Text
signed_payload timestamp nonce body = timestamp ++ 10 ∷ nonce ++ 10 ∷ body ++ 10 ∷ []

-- randomNonce; the error of the random source is wrapped
unfoldable pub random_nonce : M Text
unfolding hex
random_nonce = do value ← attempt (random_bytes 16); lift (nonce_of value)
  where
    nonce_of : Result Text → Result Text
    nonce_of (ok bytes) = ok (hex bytes)
    nonce_of (err e) = err (message (lit "generate nonce: " ++ error_text e))

is_success : ℕ → Bool
is_success code = leb 200 code && ltb code 300

unfoldable pub signed_request : Env → Client → Text → Text → Text → Text → HttpRequest
unfolding sign signed_payload
signed_request env c path body timestamp nonce = record {
  url = c.base_url ++ path;
  headers =
      (lit "Content-Type", lit "application/json")
      ∷ (lit "BinancePay-Timestamp", timestamp)
      ∷ (lit "BinancePay-Nonce", nonce)
      ∷ (lit "BinancePay-Certificate-SN", c.api_key)
      ∷ (
        lit "BinancePay-Signature",
        sign env.hmac_sha512 (signed_payload timestamp nonce body) c.secret_key,
      )
      ∷ [];
  body = body;
}

-- The bytes of an answer that are read: at most 1 MiB.
read_limited : Text → Text
read_limited body = take (2 ^ 20) body

accept_status : HttpResponse → Result Text
unfolding is_success read_limited
accept_status r =
    let raw_body = read_limited r.body in
    if is_success r.status_code
    then ok raw_body
    else err (message (lit "binancepay http " ++ decimal r.status_code ++ lit ": " ++ raw_body))

-- The request, its answer, and the answer's JSON value.
unfoldable pub exchange : Client → Text → Text → M (Text × Value)
unfolding signed_request random_nonce accept_status
exchange c path body = do
  env ← get_env
  time ← now
  nonce ← random_nonce
  response ← http_do (signed_request env c path body (decimal_int (unix_milli time)) nonce)
  raw_body ← lift (accept_status response)
  value ← lift (env.parse_json raw_body)
  pure (raw_body, value)

unfoldable pub credentials_missing : Error
credentials_missing = message (lit "binancepay credentials missing")

-- Are the two keys that a call needs set?
unfoldable pub lacks_credentials : Client → Bool
lacks_credentials c = c.api_key == [] || c.secret_key == []

-- The bytes of the answer and their JSON value. Marshalling these payloads and building the request
-- cannot fail.
unfoldable pub call : Client → Text → Value → M (Text × Value)
unfolding exchange credentials_missing lacks_credentials
call c path payload = do
  env ← get_env
  if lacks_credentials c then fail credentials_missing else exchange c path (env.print_json payload)

-- if out.Status != "SUCCESS"
unfoldable pub require_success : {D : Type 0} → Text → Response D → M (Response D)
require_success what r =
    if r.status == lit "SUCCESS"
    then pure r
    else fail (message (what ++ r.code ++ lit " " ++ r.error_message))

unfoldable pub call_for :
    {D : Type 0} → (Option Value → Result D) → Text → Client → Text → Value → M (Response D)
unfolding call require_success
call_for content what c path payload = do
  (raw_body, value) ← call c path payload
  response ← lift (decode_response content raw_body value)
  require_success what response

unfoldable pub create_order : Client → CreateOrderRequest → M (Response CreateOrderData)
unfolding call_for
create_order c request =
    call_for decode_create_data (lit "binancepay create failed: ") c
      (lit "/binancepay/openapi/v3/order") (encode_create_order request)

field_unless_empty : Text → Text → Fields → Fields
field_unless_empty name [] rest = rest
field_unless_empty name (c ∷ s) rest = field name (str (c ∷ s)) rest

unfoldable pub order_query : Text → Text → Value
unfolding field_unless_empty
order_query trade_no prepay_id = obj (
    field_unless_empty (lit "merchantTradeNo") trade_no
      (field_unless_empty (lit "prepayId") prepay_id end))

unfoldable pub query_order : Client → Text → Text → M (Response QueryOrderData)
unfolding call_for order_query
query_order c trade_no prepay_id =
    call_for decode_query_data (lit "binancepay query failed: ") c
      (lit "/binancepay/openapi/v2/order/query") (order_query trade_no prepay_id)

-- if out.Status != "SUCCESS" || !out.Data
unfoldable pub require_closed : Response Bool → M (Response Bool)
require_closed r =
    if not (r.status == lit "SUCCESS") || not r.content
    then fail (message (lit "binancepay close failed: " ++ r.code ++ lit " " ++ r.error_message))
    else pure r

unfoldable pub close_order : Client → Text → Text → M (Response Bool)
unfolding call require_closed order_query
close_order c trade_no prepay_id = do
  (raw_body, value) ←
      call c (lit "/binancepay/openapi/order/close") (order_query trade_no prepay_id)
  response ← lift (decode_response decode_bool raw_body value)
  require_closed response

unfoldable pub refund_order : Client → RefundOrderRequest → M (Response RefundResult)
unfolding call_for
refund_order c request =
    call_for decode_refund_result (lit "binancepay refund failed: ") c
      (lit "/binancepay/openapi/order/refund") (encode_refund_order request)

unfoldable pub query_refund : Client → Text → M (Response RefundResult)
unfolding call_for
query_refund c request_id =
    call_for decode_refund_result (lit "binancepay refund query failed: ") c
      (lit "/binancepay/openapi/order/refund/query")
      (obj (field (lit "refundRequestId") (str request_id) end))
