-- ===== src/Store/Refunds.antt =====
-- The refunds of store.go: ReserveRefund, CompleteRefund, FailRefund and FindRefund.
pub mod Taken
use dinapay_connector_binanc.Shared.{
  ℕ, Text, lit, [], ◌∷◌, Option, none, some, Bool, not, ◌&&◌, ◌||◌, ◌==◌, nat_eq, text_eq,
  if◌then◌else◌, find?, any, count_where, update_where,
}
use dinapay_connector_binanc.Strings.{remove_all}
use dinapay_connector_binanc.Core.Value.{Time, Value, str, end, field}
use dinapay_connector_binanc.Core.Error.{Result, ok, err, conflict, not_found}
use dinapay_connector_binanc.Core.Model.{CreateRefundCommand, ProviderRefund}
use dinapay_connector_binanc.Core.Encode.{marshal_refund}
use dinapay_connector_binanc.Core.Stored.{decode_refund}
use dinapay_connector_binanc.Store.Schema.{RefundRow}
use dinapay_connector_binanc.Effects.{M, ◌>>=◌, ◌>>◌, pure, fail, lift, get_env}
use dinapay_connector_binanc.Effects.Sql.{Statement, exec, query}

abbrev pub has_refund_key : Text → RefundRow → Bool
has_refund_key key r = r.idempotency_key == key

-- replace($1,'-','')
unfoldable pub request_id_of : Text → Text
request_id_of refund_id = remove_all b'-' refund_id

unfoldable pub new_refund : Text → Text → Value → CreateRefundCommand → Time → RefundRow
unfolding request_id_of
new_refund key hash payload cmd time = record {
  refund_id = cmd.refund_id;
  transaction_id = cmd.transaction_id;
  provider_connection_id = cmd.provider_connection_id;
  provider_refund_id = [];
  refund_request_id = request_id_of cmd.refund_id;
  idempotency_key = key;
  request_hash = hash;
  request_payload = payload;
  amount = cmd.amount;
  currency = cmd.currency;
  status = lit "processing";
  raw_status = [];
  provider_data = field (lit "refundRequestId") (str (request_id_of cmd.refund_id)) end;
  response_payload = none;
  provider_response = none;
  observed_at = time;
  error_message = none;
  updated_at = time;
}

-- The primary key and the two unique columns of the table.
unfoldable pub refund_conflicts : RefundRow → RefundRow → Bool
refund_conflicts a r =
    r.refund_id == a.refund_id
    || r.refund_request_id == a.refund_request_id
    || r.idempotency_key == a.idempotency_key

-- INSERT … ON CONFLICT DO NOTHING, where a conflict is one with any of the unique columns.
unfoldable pub insert_refund : Text → Text → Value → CreateRefundCommand → Time → Statement ℕ
unfolding new_refund
insert_refund key hash payload cmd time d =
    let r = new_refund key hash payload cmd time in
    if any (refund_conflicts r) d.refunds
    then ok (0, d)
    else ok (1, record d { refunds = r ∷ d.refunds })

stored_refund : (Text → Result Text) → Option Value → Result (Option ProviderRefund)
stored_refund float_text none = err conflict
stored_refund float_text (some v) = elim (decode_refund float_text v) [
  | ok r ↦ ok (some r)
  | err e ↦ err e
]

-- No row with the key gives a nil refund and no error, as a new reservation does.
replay_refund : (Text → Result Text) → Text → Option RefundRow → Result (Option ProviderRefund)
unfolding stored_refund
replay_refund float_text hash none = ok none
replay_refund float_text hash (some r) =
    if not (r.request_hash == hash) || r.status == lit "processing"
    then err conflict
    else stored_refund float_text r.response_payload

unfoldable pub replay_reserved : Text → Text → M (Option ProviderRefund)
unfolding replay_refund
replay_reserved key hash = do
  env ← get_env
  found ← query (λ _ d. find? (has_refund_key key) d.refunds)
  lift (replay_refund env.float_text hash found)

-- `none` is the nil refund: the caller goes on to the provider.
unfoldable pub reserve_refund :
    Text → Text → Value → CreateRefundCommand → M (Option ProviderRefund)
unfolding insert_refund replay_reserved
reserve_refund key hash payload cmd = do
  affected ← exec (insert_refund key hash payload cmd)
  if affected == 1 then pure none else replay_reserved key hash

unfoldable pub completed : ProviderRefund → Value → Time → Time → RefundRow → RefundRow
completed r provider_response observed_at time row = record row {
  provider_refund_id = r.provider_refund_id;
  status = r.status;
  raw_status = r.raw_status;
  provider_data = r.provider_data;
  response_payload = marshal_refund r;
  provider_response = some provider_response;
  observed_at = observed_at;
  updated_at = time;
}

-- UPDATE … WHERE idempotency_key=$1
unfoldable pub complete_refund_row : Text → ProviderRefund → Value → Time → Time → Statement ℕ
unfolding completed
complete_refund_row key r provider_response observed_at time d = ok (
  count_where (has_refund_key key) d.refunds,
  record d {
    refunds =
        update_where (has_refund_key key) (completed r provider_response observed_at time)
          d.refunds;
  },
)

unfoldable pub complete_refund : Text → ProviderRefund → Value → M (Unit {0})
unfolding complete_refund_row
complete_refund key r provider_response = do
  env ← get_env
  affected ← exec (complete_refund_row key r provider_response (env.timestamptz r.observed_at))
  if affected == 0 then fail not_found else pure tt

unfoldable pub failed : Text → Time → RefundRow → RefundRow
failed text time row = record row {
  status = lit "failed";
  error_message = some text;
  updated_at = time;
}

unfoldable pub fail_refund_row : Text → Text → Time → Statement ℕ
unfolding failed
fail_refund_row key text time d = ok (
  count_where (has_refund_key key) d.refunds,
  record d { refunds = update_where (has_refund_key key) (failed text time) d.refunds },
)

unfoldable pub fail_refund : Text → Text → M (Unit {0})
unfolding fail_refund_row
fail_refund key text = do exec (fail_refund_row key text); pure tt

has_refund_id : Text → Text → RefundRow → Bool
has_refund_id connection id r =
    r.provider_connection_id == connection && (r.provider_refund_id == id || r.refund_id == id)

unfoldable pub scan_refund : Option RefundRow → M ProviderRefund
scan_refund none = fail not_found
scan_refund (some r) = pure (record {
  refund_id = r.refund_id;
  transaction_id = r.transaction_id;
  provider = lit "binancepay";
  provider_connection_id = r.provider_connection_id;
  provider_refund_id = r.provider_refund_id;
  status = r.status;
  raw_status = r.raw_status;
  amount = r.amount;
  currency = r.currency;
  observed_at = r.observed_at;
  provider_data = r.provider_data;
})

unfoldable pub find_refund : Text → Text → M ProviderRefund
unfolding has_refund_id scan_refund
find_refund connection id = do
  found ← query (λ _ d. find? (has_refund_id connection id) d.refunds)
  scan_refund found
