-- ===== src/Tests/Machine.antt =====
-- The functions that a run of the program computes with, under one name for the tests.
use dinapay_connector_binanc.Shared.{lit, text_beq, any, find?, select, update_where, count_where}
use dinapay_connector_binanc.Strings.{
  to_upper, to_lower, equal_fold, trim_space, trim_right, remove_all, trim_prefix,
}
use dinapay_connector_binanc.Strings.Numbers.{decimal, decimal_int, parse_int, hex, is_number}
use dinapay_connector_binanc.Strings.Rational.{same_rat, set_string}
use dinapay_connector_binanc.Core.Error.{error_text}
use dinapay_connector_binanc.Core.Value.{get_field, as_text, member, nullable_member}
use dinapay_connector_binanc.Core.Decode.{
  decode_text, decode_time, decode_map, decode_number, decode_flexible, decode_bool, decode_int,
  type_error,
}
use dinapay_connector_binanc.Core.Stored.{decode_payment, decode_refund}
use dinapay_connector_binanc.Core.Strict.{decode_some_map, canonical_fields}
use dinapay_connector_binanc.Core.Encode.{
  is_json_time, marshal_payment, marshal_refund, encode_create_command, encode_refund_command,
  encode_payment, encode_refund, encode_event,
}
use dinapay_connector_binanc.Effects.{◌>>=◌, now, observe, observe_provider, http_do, random_bytes}
use dinapay_connector_binanc.Effects.Sql.{exec, exec_at, query, transaction, finish}
use dinapay_connector_binanc.Store.Orders.{
  is_open, order_conflicts, scan_order, find_payment, find_payment_by_reference, update_status,
  update_payment_observation,
}
use dinapay_connector_binanc.Store.Operations.{reserve_create, complete_create, fail_create}
use dinapay_connector_binanc.Store.Schedule.{
  claim_payments_for_reconciliation, retry_payment_reconciliation,
}
use dinapay_connector_binanc.Store.Events.{
  record_provider_event, pending_events, mark_published, mark_failed,
}
use dinapay_connector_binanc.Store.Refunds.{
  request_id_of, refund_conflicts, reserve_refund, complete_refund, fail_refund, find_refund,
}
use dinapay_connector_binanc.BinancePay.Types.{
  amount, decode_response, decode_create_data, decode_query_data, decode_refund_result,
}
use dinapay_connector_binanc.BinancePay.Client.{
  create_order, query_order, close_order, refund_order, query_refund, unix_milli, order_query,
}
use dinapay_connector_binanc.BinancePay.Webhook.{parse_webhook, amounts_equal}
use dinapay_connector_binanc.App.Status.{normalize_status, normalize_refund_status, status_at}
use dinapay_connector_binanc.App.Service.{
  create, get, cancel, client_of, request_hash, validate, after_reserve,
}
use dinapay_connector_binanc.App.Refunds.{create_refund, get_refund}
use dinapay_connector_binanc.App.Webhook.{handle_webhook, mismatch}
use dinapay_connector_binanc.App.Reconciler.{reconcile_batch, reconcile_payment}
use dinapay_connector_binanc.Publisher.{flush}
use dinapay_connector_binanc.Program.{perform, run}

unfoldable pub machine : Unit {0}
unfolding lit text_beq any find? select update_where count_where to_upper to_lower equal_fold
    trim_space trim_right remove_all trim_prefix decimal decimal_int parse_int hex is_number
    same_rat set_string error_text get_field as_text member decode_text decode_time decode_map
    decode_number decode_flexible decode_bool decode_int decode_payment decode_refund type_error
    is_json_time marshal_payment marshal_refund decode_some_map canonical_fields nullable_member
    encode_create_command encode_refund_command encode_payment encode_refund encode_event ◌>>=◌ now
    observe observe_provider http_do random_bytes exec exec_at query transaction finish is_open
    order_conflicts find_payment find_payment_by_reference update_status update_payment_observation
    reserve_create complete_create fail_create claim_payments_for_reconciliation
    retry_payment_reconciliation record_provider_event pending_events mark_published mark_failed
    request_id_of refund_conflicts reserve_refund complete_refund fail_refund find_refund amount
    decode_response decode_create_data decode_query_data decode_refund_result create_order
    query_order close_order refund_order query_refund unix_milli order_query parse_webhook
    amounts_equal normalize_status normalize_refund_status status_at create get cancel client_of
    request_hash create_refund get_refund handle_webhook mismatch reconcile_batch reconcile_payment
    flush perform run validate after_reserve scan_order
machine = tt
