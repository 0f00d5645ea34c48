-- ===== src/Store/Schedule.antt =====
-- The reconciliation schedule of store.go: the claim of due orders, and the retry with a growing
-- delay. Also the truncation of the error text that a retry stores.
pub mod Delay
pub mod Claim
use dinapay_connector_binanc.Shared.{
  ℕ, ◌+◌, ◌*◌, ◌^◌, min, Text, List, [], ◌∷◌, map, take, length, Option, none, some, Bool, false,
  ◌&&◌, not, nat_eq, text_eq, leb, if◌then◌else◌, any, select, count_where, update_where,
}
use dinapay_connector_binanc.Core.Value.{Time}
use dinapay_connector_binanc.Core.Error.{ok}
use dinapay_connector_binanc.Core.Model.{ProviderPayment}
use dinapay_connector_binanc.Store.Schema.{Database, Order}
use dinapay_connector_binanc.Store.Orders.{second, is_open, has_id, scan_order}
use dinapay_connector_binanc.Effects.{M, ◌>>=◌, ◌>>◌, pure, gets}
use dinapay_connector_binanc.Effects.Sql.{Statement, exec}

-- next_reconcile_at<=now(), false for NULL
unfoldable pub is_due : Time → Option Time → Bool
is_due time none = false
is_due time (some t) = leb t time

pub or_zero : Option Time → Time
or_zero none = 0
or_zero (some t) = t

-- ORDER BY next_reconcile_at
insert_by_due : Order → List Order → List Order
unfolding or_zero
insert_by_due o [] = o ∷ []
insert_by_due o (p ∷ ps) =
    let rest = insert_by_due o ps in
    if leb (or_zero o.next_reconcile_at) (or_zero p.next_reconcile_at) then o ∷ p ∷ ps else p ∷ rest

unfoldable pub sort_by_due : List Order → List Order
unfolding insert_by_due
sort_by_due [] = []
sort_by_due (o ∷ os) = insert_by_due o (sort_by_due os)

-- The orders that a claim takes; `locked` are those that SKIP LOCKED passes over.
unfoldable pub claimable : (Text → Text → Bool) → Time → Order → Bool
unfolding is_open is_due
claimable locked time o =
    is_open o.status
    && is_due time o.next_reconcile_at
    && not (locked o.provider_connection_id o.provider_payment_id)

-- SET next_reconcile_at=now()+interval '1 minute',reconcile_attempts=reconcile_attempts+1
unfoldable pub claimed : Time → Order → Order
claimed time o = record o {
  next_reconcile_at = some (time + 60 * second);
  reconcile_attempts = o.reconcile_attempts + 1;
}

unfoldable pub same_id : Order → Order → Bool
same_id o p = has_id p.provider_connection_id p.provider_payment_id o

unfoldable pub chosen : (Text → Text → Bool) → ℕ → Time → Database → List Order
unfolding sort_by_due claimable
chosen locked limit time d = take limit (sort_by_due (select (claimable locked time) d.orders))

unfoldable pub claim : (Text → Text → Bool) → ℕ → Time → Statement (List Order)
unfolding chosen claimed same_id
claim locked limit time d = ok (
  map (claimed time) (chosen locked limit time d),
  record d {
    orders =
        update_where (λ o. any (same_id o) (chosen locked limit time d)) (claimed time) d.orders;
  },
)

unfoldable pub claim_payments_for_reconciliation : ℕ → M (List ProviderPayment)
unfolding claim
claim_payments_for_reconciliation limit = do
  locked ← gets (λ w. w.env.locked w.step)
  rows ← exec (claim locked limit)
  pure (map scan_order rows)

-- least(interval '1 hour',interval '10 seconds'*power(2,least(reconcile_attempts,8)))
unfoldable pub retry_delay : ℕ → ℕ
retry_delay attempts = min (3600 * second) (10 * second * 2 ^ min attempts 8)

-- value[:limit] where the text is longer
unfoldable pub truncate : Text → ℕ → Text
truncate value limit = if leb (length value) limit then value else take limit value

unfoldable pub postponed : Text → Time → Order → Order
unfolding retry_delay
postponed text time o = record o {
  last_reconcile_error = some text;
  next_reconcile_at = some (time + retry_delay o.reconcile_attempts);
  updated_at = time;
}

unfoldable pub is_retried : Text → Text → Order → Bool
unfolding is_open
is_retried connection id o = has_id connection id o && is_open o.status

unfoldable pub retry : Text → Text → Text → Time → Statement ℕ
unfolding postponed is_retried
retry connection id text time d = ok (
  count_where (is_retried connection id) d.orders,
  record d { orders = update_where (is_retried connection id) (postponed text time) d.orders },
)

unfoldable pub retry_payment_reconciliation : Text → Text → Text → M (Unit {0})
unfolding retry truncate
retry_payment_reconciliation connection id text = do
  exec (retry connection id (truncate text 1000))
  pure tt
