-- ===== src/App/Service.antt =====
-- Payments of internal/app/service.go: validate, Create, Get and Cancel.
use dinapay_connector_binanc.Shared.{
  zero, suc, Text, lit, List, [], ◌∷◌, ◌++◌, Option, none, some, Bool, true, not, ◌&&◌, ◌||◌, ◌==◌,
  nat_eq, text_eq, if◌then◌else◌,
}
use dinapay_connector_binanc.Shared.Int.{ℤ, pos, negsuc}
use dinapay_connector_binanc.Strings.{to_upper, trim_space, trim_right, remove_all}
use dinapay_connector_binanc.Strings.Numbers.{hex}
use dinapay_connector_binanc.Core.Error.{Error, Result, ok, err, message, error_text}
use dinapay_connector_binanc.Core.Value.{Time, Value, str, obj, raw, Fields, end, field}
use dinapay_connector_binanc.Core.Model.{Binding, CreatePaymentCommand, ProviderPayment}
use dinapay_connector_binanc.Core.Encode.{encode_create_command}
use dinapay_connector_binanc.Effects.{
  Env, M, ◌>>=◌, ◌>>◌, pure, fail, lift, attempt, ignore, now, observe_provider, get_env,
}
use dinapay_connector_binanc.Store.Orders.{find_payment, update_status}
use dinapay_connector_binanc.Store.Operations.{reserve_create, complete_create, fail_create}
use dinapay_connector_binanc.BinancePay.Types.{
  Response, CreateOrderRequest, CreateOrderData, Merchant,
}
use dinapay_connector_binanc.BinancePay.Client.{
  Client, create_order, query_order, close_order, unix_milli, time_of_milli,
}
use dinapay_connector_binanc.App.Status.{normalize_status}

-- Service; its store and its clock are those of the world.
pub record Service : Type 0 where
  pub clients : List (Text × Client)
  pub webhook_url : Text

unfoldable pub new : List (Text × Client) → Text → Service
unfolding trim_right
new clients webhook_url = record { clients = clients; webhook_url = trim_right b'/' webhook_url }

unfoldable pub unknown_connection : Error
unknown_connection = message (lit "unknown provider connection")

-- client, ok := s.clients[connectionID]
unfoldable pub client_of : List (Text × Client) → Text → Result Client
unfolding unknown_connection
client_of [] connection = err unknown_connection
client_of ((k, c) ∷ rest) connection = if k == connection then ok c else client_of rest connection

unfoldable pub missing_field : Error
missing_field = message (lit "missing required field")

lacks_binding : Option Binding → Bool
lacks_binding none = true
lacks_binding (some b) = b.external_entity_id == []

unfoldable pub validate : Service → CreatePaymentCommand → Text → Result Client
unfolding missing_field lacks_binding client_of
validate s cmd key =
    if key == []
      || cmd.transaction_id == []
      || cmd.provider_connection_id == []
      || cmd.amount == []
      || cmd.currency == []
    then err missing_field
    else if not (cmd.provider == []) && not (cmd.provider == lit "binancepay")
    then err (message (lit "unsupported provider"))
    else if lacks_binding cmd.binding
    then err (message (lit "merchant provider binding is required"))
    else client_of s.clients cmd.provider_connection_id

-- fmt.Sprintf("%x", sha256.Sum256(body))
unfoldable pub request_hash : Env → Value → Text
unfolding hex
request_hash env body = hex (env.sha256 (env.print_json body))

-- m[key], with "" for a missing key
text_at_key : Text → List (Text × Text) → Text
text_at_key key [] = []
text_at_key key ((k, v) ∷ rest) = if k == key then v else text_at_key key rest

unfoldable pub trade_no_of : Text → Text
unfolding remove_all
trade_no_of transaction_id = remove_all b'-' transaction_id

or_default : Text → Text → Text
or_default d [] = d
or_default d (c ∷ s) = c ∷ s

merchant_of : Option Binding → Option Merchant
merchant_of none = none
merchant_of (some b) = some (record { sub_merchant_id = b.external_entity_id })

unfoldable pub order_request : Service → CreatePaymentCommand → CreateOrderRequest
unfolding or_default trim_space to_upper text_at_key merchant_of unix_milli trade_no_of
order_request s cmd =
    let description = or_default (lit "Dinaria Payment") (trim_space cmd.description) in
    record {
      terminal = record { terminal_type = lit "WEB" };
      merchant = merchant_of cmd.binding;
      merchant_trade_no = trade_no_of cmd.transaction_id;
      order_amount = cmd.amount;
      currency = to_upper cmd.currency;
      description = description;
      goods_details =
          record {
            goods_type = lit "02";
            goods_category = lit "Z000";
            reference_goods_id = cmd.transaction_id;
            goods_name = description;
            goods_detail = [];
          }
          ∷ [];
      return_url = text_at_key (lit "success") cmd.return_urls;
      cancel_url = text_at_key (lit "cancel") cmd.return_urls;
      webhook_url = s.webhook_url ++ lit "/webhooks/binancepay/" ++ cmd.provider_connection_id;
      pass_through_info = cmd.transaction_id;
      order_expire_time = if cmd.expires_at == 0 then pos 0 else unix_milli cmd.expires_at;
    }

unfoldable pub link_unless_empty : Text → Text → Fields → Fields
link_unless_empty name [] rest = rest
link_unless_empty name (c ∷ s) rest = field name (str (c ∷ s)) rest

-- A map is written with its keys in order.
unfoldable pub non_empty_links : Text → Text → Text → Fields
unfolding link_unless_empty
non_empty_links universal app web =
    link_unless_empty (lit "app") app
      (link_unless_empty (lit "universal") universal (link_unless_empty (lit "web") web end))

unfoldable pub redirect_completion : CreateOrderData → Fields
unfolding non_empty_links
redirect_completion d =
    field (lit "links") (obj (non_empty_links d.universal_url d.deeplink d.checkout_url)) (
      link_unless_empty (lit "qrContent") d.qr_content (
        link_unless_empty (lit "qrImageUrl") d.qr_code_link
          (field (lit "type") (str (lit "redirect")) end)))

-- The expiry that the provider answers, if it is positive.
expiry : Time → ℤ → Time
unfolding time_of_milli
expiry asked (pos zero) = asked
expiry asked (pos (suc ms)) = time_of_milli (suc ms)
expiry asked (negsuc ms) = asked

unfoldable pub created_payment :
    CreatePaymentCommand → Response CreateOrderData → Time → ProviderPayment
unfolding expiry redirect_completion trade_no_of to_upper
created_payment cmd response time = record {
  transaction_id = cmd.transaction_id;
  provider = lit "binancepay";
  provider_connection_id = cmd.provider_connection_id;
  provider_payment_id = response.content.prepay_id;
  provider_reference = trade_no_of cmd.transaction_id;
  status = lit "created";
  raw_status = lit "INITIAL";
  observed_at = time;
  expires_at = expiry cmd.expires_at response.content.expire_time;
  completion = redirect_completion response.content;
  provider_data = field (lit "merchantTradeNo") (str (trade_no_of cmd.transaction_id)) end;
  amount = cmd.amount;
  currency = to_upper cmd.currency;
}

-- What Create does with the provider's answer.
unfoldable pub settle_create :
    CreatePaymentCommand → Text → Result (Response CreateOrderData) → M ProviderPayment
unfolding created_payment
settle_create cmd key (err e) = do ignore (fail_create key (error_text e)); fail e
settle_create cmd key (ok response) = do
  time ← now
  complete_create key (created_payment cmd response time) (raw response.raw)
  pure (created_payment cmd response time)

-- Create, once the key is reserved.
unfoldable pub create_reserved : Service → Client → CreatePaymentCommand → Text → M ProviderPayment
unfolding order_request settle_create
create_reserved s client cmd key = do
  started ← now
  response ← attempt (create_order client (order_request s cmd))
  observe_provider (lit "create_payment") response started
  settle_create cmd key response

-- Create, after ReserveCreate.
unfoldable pub after_reserve :
    Service → Client → CreatePaymentCommand → Text → Option ProviderPayment → M ProviderPayment
unfolding create_reserved
after_reserve s client cmd key (some previous) = pure previous
after_reserve s client cmd key none = create_reserved s client cmd key

unfoldable pub create : Service → CreatePaymentCommand → Text → M ProviderPayment
create s cmd key = do
  env ← get_env
  client ← lift (validate s cmd key)
  previous ←
      reserve_create key (request_hash env (encode_create_command cmd)) (encode_create_command cmd)
  after_reserve s client cmd key previous

-- Get
unfoldable pub get : Service → Text → Text → M ProviderPayment
get s connection id = do
  client ← lift (client_of s.clients connection)
  payment ← find_payment connection id
  started ← now
  response ← attempt (query_order client payment.provider_reference id)
  observe_provider (lit "get_payment") response started
  answer ← lift response
  time ← now
  let status = normalize_status answer.content.status
  ignore (update_status connection id status answer.content.status)
  pure (record payment { raw_status = answer.content.status; status = status; observed_at = time })

-- Cancel
unfoldable pub cancel : Service → Text → Text → M ProviderPayment
cancel s connection id = do
  client ← lift (client_of s.clients connection)
  payment ← find_payment connection id
  started ← now
  response ← attempt (close_order client payment.provider_reference id)
  observe_provider (lit "cancel_payment") response started
  lift response
  time ← now
  update_status connection id (lit "cancelled") (lit "PAY_CLOSED")
  pure (record payment {
    status = lit "cancelled";
    raw_status = lit "PAY_CLOSED";
    observed_at = time;
  })
