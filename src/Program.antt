-- ===== src/Program.antt =====
-- The program as its environment drives it: requests, webhooks, ticks of the reconciler and of the
-- publisher, in any order.
pub mod Calls
pub mod Tables
pub mod Requests
pub mod Ticks
pub mod Keeps
use dinapay_connector_binanc.Shared.{Text, List, [], ◌∷◌}
use dinapay_connector_binanc.Core.Model.{CreatePaymentCommand, CreateRefundCommand}
use dinapay_connector_binanc.Core.Context.{background}
use dinapay_connector_binanc.Effects.{World, M, ◌>>=◌, ◌>>◌, pure, ignore}
use dinapay_connector_binanc.App.Service.{Service, create, get, cancel}
use dinapay_connector_binanc.App.Refunds.{create_refund, get_refund}
use dinapay_connector_binanc.App.Webhook.{handle_webhook}
use dinapay_connector_binanc.App.Reconciler.{reconcile_batch}
use dinapay_connector_binanc.Publisher.{Publisher, flush}

pub data Action : Type 0 where
  create_payment : CreatePaymentCommand → Text → Action
  get_payment cancel_payment get_refunded : Text → Text → Action
  refund_payment : Text → Text → CreateRefundCommand → Action
  receive_webhook : Text → Text → Action
  reconcile_tick publish_tick : Action

unfoldable pub perform : Service → Publisher → Action → M (Unit {0})
perform s p (create_payment cmd key) = ignore (create s cmd key)
perform s p (get_payment connection id) = ignore (get s connection id)
perform s p (cancel_payment connection id) = ignore (cancel s connection id)
perform s p (get_refunded connection id) = ignore (get_refund s connection id)
perform s p (refund_payment id key cmd) = ignore (create_refund s id key cmd)
perform s p (receive_webhook connection body) = ignore (handle_webhook connection body)
perform s p reconcile_tick = reconcile_batch s
perform s p publish_tick = flush p background

-- The world after the actions, one after the other.
unfoldable pub run : Service → Publisher → List Action → World → World
run s p [] w = w
run s p (a ∷ rest) w = run s p rest (perform s p a w).1
