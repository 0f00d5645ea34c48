-- ===== src/BinancePay/Types.antt =====
-- The requests and responses of internal/binancepay/client.go, with their JSON forms.
use dinapay_connector_binanc.Shared.{
  zero, suc, Text, String, lit, List, [], ◌∷◌, Option, none, some,
}
use dinapay_connector_binanc.Shared.Int.{ℤ, pos, negsuc}
use dinapay_connector_binanc.Strings.Numbers.{decimal_int}
use dinapay_connector_binanc.Core.Error.{Result, ok, err}
use dinapay_connector_binanc.Core.Value.{
  Value, Values, num, arr, obj, cons, nil, Fields, end, field, member,
}
use dinapay_connector_binanc.Core.Encode.{text_field, text_or_omit}
use dinapay_connector_binanc.Core.Decode.{
  ◌>>=◌, text_at, decode_number, decode_int, decode_map, type_error,
}

pub record GoodsDetail : Type 0 where
  pub goods_type : Text
  pub goods_category : Text
  pub reference_goods_id : Text
  pub goods_name : Text
  pub goods_detail : Text

pub record Merchant : Type 0 where
  pub sub_merchant_id : Text

-- Env
pub record Terminal : Type 0 where
  pub terminal_type : Text

pub record CreateOrderRequest : Type 0 where
  pub terminal : Terminal
  pub merchant : Option Merchant
  pub merchant_trade_no : Text
  pub order_amount : Text
  pub currency : Text
  pub description : Text
  pub goods_details : List GoodsDetail
  pub return_url : Text
  pub cancel_url : Text
  pub webhook_url : Text
  pub pass_through_info : Text
  pub order_expire_time : ℤ

pub record CreateOrderData : Type 0 where
  pub prepay_id : Text
  pub checkout_url : Text
  pub qr_code_link : Text
  pub qr_content : Text
  pub deeplink : Text
  pub universal_url : Text
  pub currency : Text
  pub total_fee : Text
  pub expire_time : ℤ

pub record QueryOrderData : Type 0 where
  pub merchant_trade_no : Text
  pub prepay_id : Text
  pub transaction_id : Text
  pub status : Text
  pub currency : Text
  pub order_amount : Text
  pub total_fee : Text

-- QueryOrderData.Amount
unfoldable pub amount : QueryOrderData → Text
amount d = elim d.order_amount [ [] ↦ d.total_fee | c ∷ s ↦ c ∷ s ]

pub record RefundOrderRequest : Type 0 where
  pub refund_request_id : Text
  pub prepay_id : Text
  pub refund_amount : Text
  pub refund_reason : Text

pub record RefundResult : Type 0 where
  pub refund_id : Text
  pub refund_request_id : Text
  pub prepay_id : Text
  pub refund_amount : Text
  pub refunded_amount : Text
  pub refund_status : Text

-- The four response structs, which differ in the type of their data.
pub record Response (D : Type 0) : Type 0 where
  pub status : Text
  pub code : Text
  pub error_message : Text
  pub content : D
  pub raw : Text

encode_goods : GoodsDetail → Value
encode_goods g = obj (
    text_field "goodsType" g.goods_type (
      text_field "goodsCategory" g.goods_category (
        text_field "referenceGoodsId" g.reference_goods_id
          (text_field "goodsName" g.goods_name (text_or_omit "goodsDetail" g.goods_detail end)))))

encode_all_goods : List GoodsDetail → Values
unfolding encode_goods
encode_all_goods [] = nil
encode_all_goods (g ∷ gs) = cons (encode_goods g) (encode_all_goods gs)

merchant_or_omit : Option Merchant → Fields → Fields
merchant_or_omit none rest = rest
merchant_or_omit (some m) rest =
    field (lit "merchant") (obj (text_or_omit "subMerchantId" m.sub_merchant_id end)) rest

int_or_omit : String → ℤ → Fields → Fields
int_or_omit name (pos zero) rest = rest
int_or_omit name (pos (suc n)) rest = field (lit name) (num (decimal_int (pos (suc n)))) rest
int_or_omit name (negsuc n) rest = field (lit name) (num (decimal_int (negsuc n))) rest

unfoldable pub encode_create_order : CreateOrderRequest → Value
unfolding encode_all_goods merchant_or_omit int_or_omit
encode_create_order r = obj (
    field (lit "env") (obj (text_field "terminalType" r.terminal.terminal_type end)) (
      merchant_or_omit r.merchant (
        text_field "merchantTradeNo" r.merchant_trade_no (
          text_field "orderAmount" r.order_amount (
            text_field "currency" r.currency (
              text_field "description" r.description (
                field (lit "goodsDetails") (arr (encode_all_goods r.goods_details)) (
                  text_or_omit "returnUrl" r.return_url (
                    text_or_omit "cancelUrl" r.cancel_url (
                      text_or_omit "webhookUrl" r.webhook_url (
                        text_or_omit "passThroughInfo" r.pass_through_info
                          (int_or_omit "orderExpireTime" r.order_expire_time end))))))))))))

unfoldable pub encode_refund_order : RefundOrderRequest → Value
encode_refund_order r = obj (
    text_field "refundRequestId" r.refund_request_id (
      text_field "prepayId" r.prepay_id (
        text_field "refundAmount" r.refund_amount
          (text_or_omit "refundReason" r.refund_reason end))))

unfoldable pub decode_create_data : Option Value → Result CreateOrderData
decode_create_data v = do
  m ← decode_map v
  prepay_id ← text_at "prepayId" m
  checkout_url ← text_at "checkoutUrl" m
  qr_code_link ← text_at "qrcodeLink" m
  qr_content ← text_at "qrContent" m
  deeplink ← text_at "deeplink" m
  universal_url ← text_at "universalUrl" m
  currency ← text_at "currency" m
  total_fee ← text_at "totalFee" m
  expire_time ← decode_int (member (lit "expireTime") m)
  ok (record {
    prepay_id = prepay_id;
    checkout_url = checkout_url;
    qr_code_link = qr_code_link;
    qr_content = qr_content;
    deeplink = deeplink;
    universal_url = universal_url;
    currency = currency;
    total_fee = total_fee;
    expire_time = expire_time;
  })

unfoldable pub decode_query_data : Option Value → Result QueryOrderData
decode_query_data v = do
  m ← decode_map v
  merchant_trade_no ← text_at "merchantTradeNo" m
  prepay_id ← text_at "prepayId" m
  transaction_id ← text_at "transactionId" m
  status ← text_at "status" m
  currency ← text_at "currency" m
  order_amount ← text_at "orderAmount" m
  total_fee ← text_at "totalFee" m
  ok (record {
    merchant_trade_no = merchant_trade_no;
    prepay_id = prepay_id;
    transaction_id = transaction_id;
    status = status;
    currency = currency;
    order_amount = order_amount;
    total_fee = total_fee;
  })

unfoldable pub decode_refund_result : Option Value → Result RefundResult
decode_refund_result v = do
  m ← decode_map v
  refund_id ← decode_number (member (lit "refundId") m)
  refund_request_id ← text_at "refundRequestId" m
  prepay_id ← text_at "prepayId" m
  refund_amount ← text_at "refundAmount" m
  refunded_amount ← text_at "refundedAmount" m
  refund_status ← text_at "refundStatus" m
  ok (record {
    refund_id = refund_id;
    refund_request_id = refund_request_id;
    prepay_id = prepay_id;
    refund_amount = refund_amount;
    refunded_amount = refunded_amount;
    refund_status = refund_status;
  })

unfoldable pub decode_response :
    {D : Type 0} → (Option Value → Result D) → Text → Value → Result (Response D)
decode_response content raw (obj m) = do
  status ← text_at "status" m
  code ← text_at "code" m
  error_message ← text_at "errorMessage" m
  d ← content (member (lit "data") m)
  ok (record {
    status = status;
    code = code;
    error_message = error_message;
    content = d;
    raw = raw;
  })
decode_response content raw _ = err type_error
