-- ===== src/Invariants/Opened.antt =====
-- What Open establishes, whatever the tables hold.
use dinapay_connector_binanc.Shared.{◌≡◌, refl, suc, List, [], ◌∷◌, false, arith, any, update_where}
use dinapay_connector_binanc.Core.Error.{ok}
use dinapay_connector_binanc.Core.Value.{Time}
use dinapay_connector_binanc.Store.Schema.{Order}
use dinapay_connector_binanc.Store.Stats.{needs_backfill, backfilled, migrate, open_store}
use dinapay_connector_binanc.Effects.{World, ◌>>=◌, now, pure}
use dinapay_connector_binanc.Effects.Sql.{exec, exec_at, query}
use dinapay_connector_binanc.App.Service.{Service}
use dinapay_connector_binanc.Publisher.{Publisher}
use dinapay_connector_binanc.Program.{Action, run}
use dinapay_connector_binanc.Invariants.Scheduled.{is_lost, is_null, IsScheduled, run-IsScheduled}

none-lost :
    (t : Time) (os : List Order)
    → any is_lost (update_where needs_backfill (backfilled t) os) ≡ false
unfolding any update_where is_lost is_null needs_backfill backfilled
none-lost t [] = refl
none-lost t (o ∷ os) = ground (arith, none-lost t os)

pub open_store-IsScheduled :
    (w : World) → (open_store w).0 ≡ ok tt → IsScheduled (open_store w).1.db
unfolding open_store migrate exec exec_at query now pure ◌>>=◌
open_store-IsScheduled w h = ground (arith, none-lost (w.env.clock (suc (suc w.step))) w.db.orders)

-- Once Open has succeeded, on tables with whatever rows, every run of requests, webhooks and ticks
-- keeps a due time with each open order: the migration repairs what it finds.
pub opened-IsScheduled :
    (s : Service) (p : Publisher) (actions : List Action) (w : World)
    → (open_store w).0 ≡ ok tt
    → IsScheduled (run s p actions (open_store w).1).db
opened-IsScheduled s p actions w h =
    run-IsScheduled s p actions (open_store w).1 (open_store-IsScheduled w h)
