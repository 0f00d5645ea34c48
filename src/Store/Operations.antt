-- ===== src/Store/Operations.antt =====
-- Idempotent creation: ReserveCreate, CompleteCreate and FailCreate of store.go.
use dinapay_connector_binanc.Shared.{
  ℕ, Text, lit, ◌∷◌, Option, none, some, Bool, true, not, ◌==◌, nat_eq, text_eq, if◌then◌else◌,
  find?, any, count_where, update_where,
}
use dinapay_connector_binanc.Core.Value.{Time, Value}
use dinapay_connector_binanc.Core.Error.{Error, Result, ok, err, message, conflict}
use dinapay_connector_binanc.Core.Model.{ProviderPayment}
use dinapay_connector_binanc.Core.Encode.{marshal_payment}
use dinapay_connector_binanc.Core.Stored.{decode_payment}
use dinapay_connector_binanc.Store.Schema.{Operation}
use dinapay_connector_binanc.Store.Orders.{insert_order}
use dinapay_connector_binanc.Effects.{M, ◌>>=◌, ◌>>◌, pure, lift, get_env}
use dinapay_connector_binanc.Effects.Sql.{Statement, exec, exec_at, query, transaction}

abbrev pub has_key : Text → Operation → Bool
has_key key o = o.idempotency_key == key

unfoldable pub new_operation : Text → Text → Value → Time → Operation
new_operation key hash payload time = record {
  idempotency_key = key;
  request_hash = hash;
  request_payload = payload;
  status = lit "processing";
  response_payload = none;
  error_message = none;
  updated_at = time;
}

-- INSERT … ON CONFLICT DO NOTHING
unfoldable pub insert_operation : Text → Text → Value → Time → Statement ℕ
unfolding new_operation
insert_operation key hash payload time d =
    if any (has_key key) d.operations
    then ok (0, d)
    else ok (1, record d { operations = new_operation key hash payload time ∷ d.operations })

-- The error of QueryRow().Scan on an empty result, and of Unmarshal on no bytes
no_rows : Error
no_rows = message (lit "no rows in result set")

no_input : Error
no_input = message (lit "unexpected end of JSON input")

decode_stored : (Text → Result Text) → Option Value → Result ProviderPayment
decode_stored float_text none = err no_input
decode_stored float_text (some v) = decode_payment float_text v

unfoldable pub replay_operation :
    (Text → Result Text) → Text → Option Operation → Result ProviderPayment
unfolding decode_stored no_input no_rows
replay_operation float_text hash none = err no_rows
replay_operation float_text hash (some o) =
    if not (o.request_hash == hash)
    then err conflict
    else if not (o.status == lit "completed")
    then err conflict
    else decode_stored float_text o.response_payload

unfoldable pub replay_create : Text → Text → M (Option ProviderPayment)
unfolding replay_operation
replay_create key hash = do
  env ← get_env
  found ← query (λ _ d. find? (has_key key) d.operations)
  payment ← lift (replay_operation env.float_text hash found)
  pure (some payment)

-- `none` is the nil payment: the key is reserved for the caller.
unfoldable pub reserve_create : Text → Text → Value → M (Option ProviderPayment)
unfolding insert_operation replay_create
reserve_create key hash payload = do
  affected ← exec (insert_operation key hash payload)
  if affected == 1 then pure none else replay_create key hash

-- No response is one that could not be written as JSON: its column is NULL then.
unfoldable pub completed : Option Value → Time → Operation → Operation
completed response time o = record o {
  status = lit "completed";
  response_payload = response;
  updated_at = time;
}

-- UPDATE … SET status='completed'
unfoldable pub complete_operation : Text → Option Value → Time → Statement ℕ
unfolding completed
complete_operation key response time d = ok (
  count_where (has_key key) d.operations,
  record d { operations = update_where (has_key key) (completed response time) d.operations },
)

unfoldable pub complete_create : Text → ProviderPayment → Value → M (Unit {0})
unfolding insert_order complete_operation
complete_create key payment provider_response = do
  env ← get_env
  transaction (λ time. do
    exec_at (insert_order env payment provider_response time)
    exec_at (complete_operation key (marshal_payment payment) time)
    pure (true, tt))

unfoldable pub failed : Text → Time → Operation → Operation
failed text time o = record o {
  status = lit "failed";
  error_message = some text;
  updated_at = time;
}

-- UPDATE … SET status='failed'
unfoldable pub fail_operation : Text → Text → Time → Statement ℕ
unfolding failed
fail_operation key text time d = ok (
  count_where (has_key key) d.operations,
  record d { operations = update_where (has_key key) (failed text time) d.operations },
)

unfoldable pub fail_create : Text → Text → M (Unit {0})
unfolding fail_operation
fail_create key text = do exec (fail_operation key text); pure tt
