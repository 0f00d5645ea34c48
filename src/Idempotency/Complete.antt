-- ===== src/Idempotency/Complete.antt =====
-- What CompleteCreate and a granted reservation write.
use mathlib.Core.Path.{subst}
use dinapay_connector_binanc.Shared.{
  Text, ◌≡◌, refl, ◌∙◌, ap, suc, List, ◌∷◌, true, Option, none, some, arith, any, find?,
  update_where, text_beq_refl,
}
use dinapay_connector_binanc.Core.Error.{Result, ok, err}
use dinapay_connector_binanc.Core.Value.{Time, Value, raw}
use dinapay_connector_binanc.Core.Model.{CreatePaymentCommand, ProviderPayment}
use dinapay_connector_binanc.Core.Encode.{marshal_payment}
use dinapay_connector_binanc.Program.Calls.{create_order-Keeps}
use dinapay_connector_binanc.Store.Schema.{Database, Operation}
use dinapay_connector_binanc.Store.Orders.{has_id, insert_order, new_order}
use dinapay_connector_binanc.Store.Operations.{
  has_key, complete_create, complete_operation, completed, new_operation, insert_operation,
  reserve_create,
}
use dinapay_connector_binanc.BinancePay.Types.{Response, CreateOrderData}
use dinapay_connector_binanc.BinancePay.Client.{Client, create_order}
use dinapay_connector_binanc.App.Service.{
  Service, order_request, created_payment, settle_create, create_reserved,
}
use dinapay_connector_binanc.Idempotency.Canonical.{IsCanonical, created_payment-IsCanonical}
use dinapay_connector_binanc.Effects.{
  World, continue, pure, tick, attempt, observe, observe_provider, ◌>>=◌, now,
}
use dinapay_connector_binanc.Effects.Sql.{exec, exec_at, query, transaction, finish}

complete_create-ok :
    (key : Text) (p : ProviderPayment) (v : Value) (w : World)
    → (complete_create key p v w).0 ≡ ok tt
    → let w' = (complete_create key p v w).1 in
      (w'.db.operations
        ≡ update_where
            (has_key key)
            (completed (marshal_payment p) (w.env.clock w.step))
            w.db.operations)
      × (any (has_id p.provider_connection_id p.provider_payment_id) w'.db.orders ≡ true)
unfolding complete_create insert_order new_order complete_operation exec_at transaction finish now
    ◌>>=◌ any
complete_create-ok key p v w h =
    ground (arith, text_beq_refl p.provider_connection_id, text_beq_refl p.provider_payment_id)

-- The same through the layers of Create: the key's operation gets the payment that is answered.
abbrev IsCompleted : Text → World → ProviderPayment → World → Type 0
IsCompleted key w p w' =
    (t : Time) × (w'.db.operations
      ≡ update_where (has_key key) (completed (marshal_payment p) t) w.db.operations)
    × (any (has_id p.provider_connection_id p.provider_payment_id) w'.db.orders ≡ true)
    × IsCanonical p

-- What holds where the first action succeeds holds at the end.
after-pure :
    (P : ProviderPayment → World → Type 0) (r : Result (Unit {0})) (q p : ProviderPayment)
    (w : World)
    → (r ≡ ok tt → P q w)
    → (continue r (λ _. pure q) w).0 ≡ ok p
    → P p (continue r (λ _. pure q) w).1
unfolding pure
after-pure P (ok u) q p w k h = let e : q ≡ p = cc in subst (λ x. P x w) e (k refl)
after-pure P (err e) q p w k h = cc

settle_create-ok :
    (cmd : CreatePaymentCommand) (key : Text) (r : Result (Response CreateOrderData)) (w : World)
    (p : ProviderPayment)
    → (settle_create cmd key r w).0 ≡ ok p
    → IsCompleted key w p (settle_create cmd key r w).1
unfolding settle_create ◌>>=◌ now
settle_create-ok cmd key (err e) w p h = cc
settle_create-ok cmd key (ok response) w p h =
    let q = created_payment cmd response (w.env.clock w.step) in
    let (r, w2) = complete_create key q (raw response.raw) (tick w) in
    after-pure (IsCompleted key w) r q p w2
      (λ e.
        let (operations, order) = complete_create-ok key q (raw response.raw) (tick w) e in
        (
          w.env.clock (suc w.step),
          operations,
          order,
          created_payment-IsCanonical cmd response (w.env.clock w.step),
        ))
      h

pub create_reserved-ok :
    (s : Service) (c : Client) (cmd : CreatePaymentCommand) (key : Text) (w : World)
    (p : ProviderPayment)
    → (create_reserved s c cmd key w).0 ≡ ok p
    → IsCompleted key w p (create_reserved s c cmd key w).1
unfolding create_reserved ◌>>=◌ now observe_provider observe attempt
create_reserved-ok s c cmd key w p h =
    let (response, w1) = create_order c (order_request s cmd) (tick w) in
    let same = (create_order-Keeps {I = λ d. d ≡ w.db} c (order_request s cmd)).at (tick w) refl in
    let (t, operations, order, maps) = settle_create-ok cmd key response _ p h in
    (
      t,
      operations
          ∙ ap
              (λ (d : Database).
                update_where (has_key key) (completed (marshal_payment p) t) d.operations)
              same,
      order,
      maps,
    )

pub reserve_create-new :
    (key hash : Text) (v : Value) (w : World)
    → (reserve_create key hash v w).0 ≡ ok none
    → (reserve_create key hash v w).1.db.operations
      ≡ new_operation key hash v (w.env.clock w.step) ∷ w.db.operations
unfolding reserve_create insert_operation exec exec_at query now ◌>>=◌
reserve_create-new key hash v w h = ground arith

pub find?-completed :
    (key hash : Text) (v : Value) (x : Option Value) (t u : Time) (os : List Operation)
    → find?
        (has_key key)
        (update_where (has_key key) (completed x t) (new_operation key hash v u ∷ os))
      ≡ some (completed x t (new_operation key hash v u))
unfolding find? update_where completed new_operation
find?-completed key hash v x t u os = ground (arith, text_beq_refl key)
