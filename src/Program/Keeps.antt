-- ===== src/Program/Keeps.antt =====
-- Invariants of the store under every run of the program.
use dinapay_connector_binanc.Shared.{List, [], ◌∷◌}
use dinapay_connector_binanc.Store.Schema.{Database}
use dinapay_connector_binanc.Effects.{World}
use dinapay_connector_binanc.Effects.Keeps.{Keeps, keeps_rules}
use dinapay_connector_binanc.App.Service.{Service}
use dinapay_connector_binanc.Publisher.{Publisher}
use dinapay_connector_binanc.Program.{
  Action, create_payment, get_payment, cancel_payment, get_refunded, refund_payment,
  receive_webhook, reconcile_tick, publish_tick, perform, run,
}
use dinapay_connector_binanc.Program.Requests.{
  create-Keeps, get-Keeps, cancel-Keeps, create_refund-Keeps, get_refund-Keeps,
  handle_webhook-Keeps,
}
use dinapay_connector_binanc.Program.Ticks.{reconcile_batch-Keeps, flush-Keeps}
use dinapay_connector_binanc.Program.Tables.{StoreKeeps}

module _ {I : Database → Type 0} ⦃k : StoreKeeps I⦄ where
  pub perform-Keeps : (s : Service) (p : Publisher) (a : Action) → Keeps I (perform s p a)
  unfolding perform
  perform-Keeps s p (create_payment cmd key) = search (keeps_rules, create-Keeps)
  perform-Keeps s p (get_payment c id) = search (keeps_rules, get-Keeps)
  perform-Keeps s p (cancel_payment c id) = search (keeps_rules, cancel-Keeps)
  perform-Keeps s p (get_refunded c id) = search (keeps_rules, get_refund-Keeps)
  perform-Keeps s p (refund_payment id key cmd) = search (keeps_rules, create_refund-Keeps)
  perform-Keeps s p (receive_webhook c body) = search (keeps_rules, handle_webhook-Keeps)
  perform-Keeps s p reconcile_tick = reconcile_batch-Keeps s
  perform-Keeps s p publish_tick = flush-Keeps p _

-- Whatever happens, and in whatever order, an invariant that the store keeps holds.
pub run-Keeps :
    (I : Database → Type 0) ⦃k : StoreKeeps I⦄ (s : Service) (p : Publisher) (actions : List Action)
    (w : World)
    → I w.db
    → I (run s p actions w).db
unfolding run
run-Keeps I s p [] w h = h
run-Keeps I s p (a ∷ rest) w h =
    run-Keeps I s p rest (perform s p a w).1 ((perform-Keeps {I = I} s p a).at w h)
