-- ===== src/HttpApi/Body.antt =====
-- What the handlers of server.go read of a body: decode, and io.ReadAll behind MaxBytesReader.
use dinapay_connector_binanc.Shared.{ℕ, ltb, length, Text, lit, Option, none, some, if◌then◌else◌}
use dinapay_connector_binanc.Core.Error.{Result, ok, err, message}
use dinapay_connector_binanc.Core.Value.{Value}
use dinapay_connector_binanc.Core.Model.{
  CreatePaymentCommand, CancelPaymentCommand, CreateRefundCommand,
}
use dinapay_connector_binanc.Core.Decode.{◌>>=◌}
use dinapay_connector_binanc.Core.Commands.{
  decode_create_command, decode_cancel_command, decode_refund_command,
}
use dinapay_connector_binanc.Effects.{Env}
use dinapay_connector_binanc.HttpApi.Message.{Request}

-- 1<<20
abbrev pub max_body : ℕ
max_body = 1_048_576

-- decode: only the first JSON value of the body is read.
unfoldable pub decode : {A : Type 0} → Env → (Value → Result A) → Request → Result A
decode env read request = do value ← env.decode_json request.body request.body_error; read value

unfoldable pub create_command : Env → Request → Result CreatePaymentCommand
unfolding decode
create_command env = decode env (decode_create_command env.parse_time env.float_text)

unfoldable pub cancel_command : Env → Request → Result CancelPaymentCommand
unfolding decode
cancel_command env = decode env decode_cancel_command

unfoldable pub refund_command : Env → Request → Result CreateRefundCommand
unfolding decode
refund_command env = decode env (decode_refund_command env.float_text)

or_read_error : Option Text → Text → Result Text
or_read_error none body = ok body
or_read_error (some text) body = err (message text)

-- The whole body, if it is not larger than the limit.
unfoldable pub read_all : Request → Result Text
unfolding or_read_error
read_all request =
    if ltb max_body (length request.body)
    then err (message (lit "http: request body too large"))
    else or_read_error request.body_error request.body
