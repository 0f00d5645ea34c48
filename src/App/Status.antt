-- ===== src/App/Status.antt =====
-- NormalizeStatus and normalizeRefundStatus of internal/app/service.go, and the expiry that the
-- webhook handler and the reconciler share.
use dinapay_connector_binanc.Shared.{
  Text, lit, Bool, not, ◌&&◌, ◌||◌, ◌==◌, nat_eq, text_eq, ltb, if◌then◌else◌,
}
use dinapay_connector_binanc.Strings.{to_upper, equal_fold}
use dinapay_connector_binanc.Core.Value.{Time}

unfoldable pub normalize_status : Text → Text
normalize_status status =
    let upper = to_upper status in
    if upper == lit "INITIAL"
    then lit "created"
    else if upper == lit "PENDING" || upper == lit "PAID"
    then lit "pending"
    else if upper == lit "PAY_SUCCESS"
    then lit "confirmed"
    else if upper == lit "PAY_CLOSED"
    then lit "cancelled"
    else if upper == lit "PAY_FAIL"
    then lit "failed"
    else lit "pending"

unfoldable pub normalize_refund_status : Text → Text
normalize_refund_status v =
    let upper = to_upper v in
    if upper == lit "REFUNDED" || upper == lit "REFUND_SUCCESS"
    then lit "confirmed"
    else if upper == lit "CANCELLED" || upper == lit "REFUND_FAIL" || upper == lit "FAILED"
    then lit "failed"
    else lit "pending"

-- EqualFold(status, "PAY_CLOSED") && !expiresAt.IsZero() && !now.Before(expiresAt)
unfoldable pub is_expired : Text → Time → Time → Bool
is_expired status expires_at now =
    equal_fold status (lit "PAY_CLOSED") && not (expires_at == 0) && not (ltb now expires_at)

unfoldable pub status_at : Text → Time → Time → Text
unfolding normalize_status is_expired
status_at status expires_at now =
    if is_expired status expires_at now then lit "expired" else normalize_status status
