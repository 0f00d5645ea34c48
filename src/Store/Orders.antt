-- ===== src/Store/Orders.antt =====
-- The orders of store.go: insertion, search, status updates and the reconciliation schedule.
use dinapay_connector_binanc.Shared.{
  ℕ, ◌+◌, ◌*◌, Text, lit, ◌∷◌, Option, none, some, Bool, ◌||◌, ◌&&◌, ◌==◌, nat_eq, text_eq,
  if◌then◌else◌, find?, any, count_where, update_where,
}
use dinapay_connector_binanc.Core.Value.{Time, Value}
use dinapay_connector_binanc.Core.Error.{ok, err, message, not_found}
use dinapay_connector_binanc.Core.Model.{ProviderPayment}
use dinapay_connector_binanc.Store.Schema.{Order}
use dinapay_connector_binanc.Effects.{Env, M, ◌>>=◌, ◌>>◌, pure, fail, get_env}
use dinapay_connector_binanc.Effects.Sql.{Statement, exec, query}

-- A second, in nanoseconds.
abbrev pub second : ℕ
second = 1_000_000_000

-- status IN ('created','pending')
unfoldable pub is_open : Text → Bool
is_open status = status == lit "created" || status == lit "pending"

-- CASE WHEN status IN ('created','pending') THEN now()+delay ELSE NULL END
unfoldable pub next_reconcile : Text → Time → ℕ → Option Time
next_reconcile status time delay = if is_open status then some (time + delay) else none

abbrev pub has_id : Text → Text → Order → Bool
has_id connection id o = o.provider_connection_id == connection && o.provider_payment_id == id

abbrev pub has_reference : Text → Text → Order → Bool
has_reference connection reference o =
    o.provider_connection_id == connection && o.provider_reference == reference

-- The primary key and the two unique constraints of the table.
unfoldable pub order_conflicts : Order → Order → Bool
order_conflicts a o =
    has_id a.provider_connection_id a.provider_payment_id o
    || has_reference a.provider_connection_id a.provider_reference o
    || o.transaction_id == a.transaction_id

unfoldable pub nullable_time : Time → Option Time
nullable_time t = if t == 0 then none else some t

unfoldable pub new_order : Env → ProviderPayment → Value → Time → Order
unfolding nullable_time next_reconcile
new_order env p provider_response time = record {
  provider_connection_id = p.provider_connection_id;
  provider_payment_id = p.provider_payment_id;
  provider_reference = p.provider_reference;
  transaction_id = p.transaction_id;
  amount = p.amount;
  currency = p.currency;
  status = p.status;
  raw_status = p.raw_status;
  expires_at = stored (nullable_time p.expires_at);
  completion = p.completion;
  provider_data = p.provider_data;
  provider_response = provider_response;
  observed_at = env.timestamptz p.observed_at;
  reconcile_attempts = 0;
  next_reconcile_at = next_reconcile p.status time (10 * second);
  last_reconcile_error = none;
  updated_at = time;
}
  where
    stored : Option Time → Option Time
    stored none = none
    stored (some t) = some (env.timestamptz t)

-- INSERT INTO binancepay_v2_orders
unfoldable pub insert_order : Env → ProviderPayment → Value → Time → Statement ℕ
unfolding new_order
insert_order env p provider_response time d =
    let o = new_order env p provider_response time in
    if any (order_conflicts o) d.orders
    then err (message env.violation)
    else ok (1, record d { orders = o ∷ d.orders })

or_zero : Option Time → Time
or_zero none = 0
or_zero (some t) = t

-- The columns that `find` scans.
unfoldable pub scan_order : Order → ProviderPayment
unfolding or_zero
scan_order o = record {
  transaction_id = o.transaction_id;
  provider = lit "binancepay";
  provider_connection_id = o.provider_connection_id;
  provider_payment_id = o.provider_payment_id;
  provider_reference = o.provider_reference;
  status = o.status;
  raw_status = o.raw_status;
  observed_at = o.observed_at;
  expires_at = or_zero o.expires_at;
  completion = o.completion;
  provider_data = o.provider_data;
  amount = o.amount;
  currency = o.currency;
}

unfoldable pub or_not_found : Option Order → M ProviderPayment
or_not_found none = fail not_found
or_not_found (some o) = pure (scan_order o)

unfoldable pub find : (Order → Bool) → M ProviderPayment
unfolding or_not_found
find p = do found ← query (λ _ d. find? p d.orders); or_not_found found

unfoldable pub find_payment : Text → Text → M ProviderPayment
unfolding find
find_payment connection id = find (has_id connection id)

unfoldable pub find_payment_by_reference : Text → Text → M ProviderPayment
unfolding find
find_payment_by_reference connection reference = find (has_reference connection reference)

-- What the three statements that observe a status set.
unfoldable pub observed : Text → Text → Time → Time → Order → Order
unfolding next_reconcile
observed status raw_status observed_at time o = record o {
  status = status;
  raw_status = raw_status;
  observed_at = observed_at;
  next_reconcile_at = next_reconcile status time (60 * second);
  last_reconcile_error = none;
  updated_at = time;
}

unfoldable pub set_status : Text → Text → Text → Text → Time → Time → Statement ℕ
unfolding observed
set_status connection id status raw_status observed_at time d = ok (
  count_where (has_id connection id) d.orders,
  record d {
    orders =
        update_where (has_id connection id) (observed status raw_status observed_at time) d.orders;
  },
)

unfoldable pub update_status : Text → Text → Text → Text → M (Unit {0})
unfolding set_status
update_status connection id status raw_status = do
  affected ← exec (λ time. set_status connection id status raw_status time time)
  if affected == 0 then fail not_found else pure tt

unfoldable pub update_payment_observation : ProviderPayment → M (Unit {0})
unfolding set_status
update_payment_observation p = do
  env ← get_env
  exec (
      set_status p.provider_connection_id p.provider_payment_id p.status p.raw_status
        (env.timestamptz p.observed_at))
  pure tt
