-- ===== src/Store/Stats.antt =====
-- Open, which runs migration.sql, and Stats of store.go.
use dinapay_connector_binanc.Shared.{
  ℕ, ◌-◌, List, [], ◌∷◌, map, Option, none, some, Bool, true, false, ◌&&◌, leb, min, length,
  if◌then◌else◌, select, count_where, update_where,
}
use dinapay_connector_binanc.Shared.Int.{ℤ, pos, negsuc}
use dinapay_connector_binanc.Core.Value.{Time}
use dinapay_connector_binanc.Core.Error.{ok}
use dinapay_connector_binanc.Store.Schema.{Database, Order, OutboxRow, OperationalStats}
use dinapay_connector_binanc.Store.Orders.{is_open}
use dinapay_connector_binanc.Store.Schedule.{is_due, or_zero}
use dinapay_connector_binanc.Store.Events.{is_unpublished}
use dinapay_connector_binanc.Effects.{M, ◌>>=◌, ◌>>◌, pure}
use dinapay_connector_binanc.Effects.Sql.{Statement, exec, query}

is_unscheduled : Option Time → Bool
is_unscheduled none = true
is_unscheduled (some _) = false

unfoldable pub needs_backfill : Order → Bool
unfolding is_unscheduled
needs_backfill o = is_open o.status && is_unscheduled o.next_reconcile_at

-- SET next_reconcile_at=now()
unfoldable pub backfilled : Time → Order → Order
backfilled time o = record o { next_reconcile_at = some time }

-- The statements of migration.sql on tables that are there: only the UPDATE changes rows.
unfoldable pub migrate : Time → Statement ℕ
unfolding needs_backfill backfilled
migrate time d = ok (
  count_where needs_backfill d.orders,
  record d { orders = update_where needs_backfill (backfilled time) d.orders },
)

-- Open, with pgxpool.New and Ping as a statement that reads nothing
unfoldable pub open_store : M (Unit {0})
unfolding migrate
open_store = do query (λ _ _. tt {0}); exec migrate; pure tt

-- now() less a time
unfoldable pub time_since : Time → Time → ℤ
time_since now t = if leb t now then pos (now - t) else negsuc (t - now - 1)

earliest : Time → List Time → Time
earliest t [] = t
earliest t (u ∷ us) = earliest (min t u) us

-- COALESCE(EXTRACT(EPOCH FROM now()-min(…)),0)
unfoldable pub oldest_age : Time → List Time → ℤ
unfolding time_since earliest
oldest_age now [] = pos 0
oldest_age now (t ∷ ts) = time_since now (earliest t ts)

open_orders : Database → List Order
open_orders d = select (λ (o : Order). is_open o.status) d.orders

due_orders : Time → Database → List Order
due_orders now d =
    select (λ (o : Order). is_open o.status && is_due now o.next_reconcile_at) d.orders

waiting_events : Database → List OutboxRow
waiting_events d = select is_unpublished d.outbox

abbrev Figures : Type 0
Figures = ℕ × ℤ

nonterminal_figures : Time → Database → Figures
unfolding open_orders oldest_age
nonterminal_figures now d =
    (length (open_orders d), oldest_age now (map (λ (o : Order). o.updated_at) (open_orders d)))

reconciliation_figures : Time → Database → Figures
unfolding due_orders oldest_age
reconciliation_figures now d = (
  length (due_orders now d),
  oldest_age now (map (λ (o : Order). or_zero o.next_reconcile_at) (due_orders now d)),
)

outbox_figures : Time → Database → Figures
unfolding waiting_events oldest_age
outbox_figures now d = (
  length (waiting_events d),
  oldest_age now (map (λ (r : OutboxRow). r.created_at) (waiting_events d)),
)

-- Stats: three queries, each with a now() of its own
unfoldable pub stats : M OperationalStats
unfolding nonterminal_figures reconciliation_figures outbox_figures
stats = do
  (nonterminal, nonterminal_age) ← query nonterminal_figures
  (reconciliation, reconciliation_age) ← query reconciliation_figures
  (outbox, outbox_age) ← query outbox_figures
  pure (record {
    nonterminal = nonterminal;
    nonterminal_age = nonterminal_age;
    reconciliation = reconciliation;
    reconciliation_age = reconciliation_age;
    outbox = outbox;
    outbox_age = outbox_age;
  })
