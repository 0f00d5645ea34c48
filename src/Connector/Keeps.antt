-- ===== src/Connector/Keeps.antt =====
-- Invariants of the store under every run of the connector.
use mathlib.Core.Path.{subst}
use dinapay_connector_binanc.Shared.{List, [], ◌∷◌, sym, ◌⊎◌, inl, inr}
use dinapay_connector_binanc.Core.Error.{Result, ok, err}
use dinapay_connector_binanc.Core.Context.{background}
use dinapay_connector_binanc.Store.Schema.{Database, OperationalStats}
use dinapay_connector_binanc.Store.Stats.{stats}
use dinapay_connector_binanc.Effects.{World}
use dinapay_connector_binanc.Effects.Keeps.{Keeps, keeps_rules}
use dinapay_connector_binanc.Publisher.{Publisher}
use dinapay_connector_binanc.Program.Keeps.{perform-Keeps}
use dinapay_connector_binanc.Program.Ticks.{reconcile_batch-Keeps, flush-Keeps}
use dinapay_connector_binanc.Program.Tables.{StoreKeeps}
use dinapay_connector_binanc.HttpApi.Message.{Request}
use dinapay_connector_binanc.HttpApi.Server.{Server}
use dinapay_connector_binanc.HttpApi.Observe.{serve}
use dinapay_connector_binanc.HttpApi.Effect.{Leaves, Performs}
use dinapay_connector_binanc.HttpApi.Refinement.{serve_refines}
use dinapay_connector_binanc.HttpApi.Demand.{Demanded}
use dinapay_connector_binanc.Connector.{
  Event, arrival, reconcile, publish, collect, after_stats, collect_metrics, handle, run,
}
use dinapay_connector_binanc.Connector.Configuration.{Connector}

module _ {I : Database → Type 0} ⦃k : StoreKeeps I⦄ where
  serve-Keeps : (s : Server) (p : Publisher) (request : Request) → Keeps I (serve s request)
  serve-Keeps s p request = record { at = λ w h. by_refinement w h (serve_refines s p request w) }
    where
      by_refinement :
          (w : World)
          → I w.db
          → Leaves w (serve s request w).1
            ⊎ Performs s.service p (Demanded s w.env request) w (serve s request w).1
          → I (serve s request w).1.db
      by_refinement w h (inl l) = subst I (sym l.db) h
      by_refinement w h (inr q) =
          subst I (sym q.db)
            ((perform-Keeps {I = I} s.service p q.action).at q.from (subst I (sym q.same.db) h))

  after_stats-Keeps : (r : Result OperationalStats) → Keeps I (after_stats r)
  unfolding after_stats
  after_stats-Keeps (ok figures) = search keeps_rules
  after_stats-Keeps (err e) = search keeps_rules

  stats-Keeps : Keeps I stats
  unfolding stats
  stats-Keeps = search keeps_rules depth 10

  collect_metrics-Keeps : Keeps I collect_metrics
  unfolding collect_metrics
  collect_metrics-Keeps = search (keeps_rules, stats-Keeps, after_stats-Keeps)

  pub handle-Keeps : (c : Connector) (e : Event) → Keeps I (handle c e)
  unfolding handle
  handle-Keeps c (arrival request) = search (keeps_rules, serve-Keeps c.server c.publisher request)
  handle-Keeps c reconcile = reconcile_batch-Keeps c.service
  handle-Keeps c publish = flush-Keeps c.publisher background
  handle-Keeps c collect = collect_metrics-Keeps

pub run-Keeps :
    (I : Database → Type 0) ⦃k : StoreKeeps I⦄ (c : Connector) (events : List Event) (w : World)
    → I w.db
    → I (run c events w).db
unfolding run
run-Keeps I c [] w h = h
run-Keeps I c (e ∷ events) w h =
    run-Keeps I c events (handle c e w).1 ((handle-Keeps {I = I} c e).at w h)
