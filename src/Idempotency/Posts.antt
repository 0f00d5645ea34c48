-- ===== src/Idempotency/Posts.antt =====
-- The requests that the POSTs of one key send: Create of service.go behind server.go.
use mathlib.Core.Path.{subst}
use dinapay_connector_binanc.Shared.{
  ℕ, ◌+◌, ◌-◌, ◌≤◌, Text, List, [], ◌∷◌, ◌≡◌, refl, sym, ◌∙◌, ap, ◌⊎◌, inl, inr, Bool, true, false,
  ◌&&◌, arith, length, ◌==◌, text_eq, text_beq_iff, if◌then◌else◌,
}
use dinapay_connector_binanc.Core.Model.{CreatePaymentCommand}
use dinapay_connector_binanc.Effects.{Env, World, ignore}
use dinapay_connector_binanc.App.Service.{create}
use dinapay_connector_binanc.Publisher.{Publisher}
use dinapay_connector_binanc.Program.{Action, create_payment, perform}
use dinapay_connector_binanc.HttpApi.Message.{Request, header}
use dinapay_connector_binanc.HttpApi.Routes
use dinapay_connector_binanc.HttpApi.Routes.{Route, Found, found, wrong_method, nothing, find_route}
use dinapay_connector_binanc.HttpApi.Server.{Server}
use dinapay_connector_binanc.HttpApi.Observe.{serve}
use dinapay_connector_binanc.HttpApi.Effect.{Leaves, Performs}
use dinapay_connector_binanc.HttpApi.Demand.{Demand, Demanded}
use dinapay_connector_binanc.HttpApi.Refinement.{serve_refines}
use dinapay_connector_binanc.Connector.{Event, arrival, reconcile, publish, collect, handle}
use dinapay_connector_binanc.Connector.Configuration.{Connector}
use dinapay_connector_binanc.Connector.Keeps.{handle-Keeps}
use dinapay_connector_binanc.Invariants.Reserved.{is_reserved, IsReserved, reserved_tables}
use dinapay_connector_binanc.Idempotency.Create.{Effect, create-Effect}

is_create_route : Found → Bool
is_create_route (found Routes.create) = true
is_create_route _ = false

-- A POST of a payment with the key
unfoldable pub is_post : Text → Event → Bool
unfolding is_create_route
is_post key (arrival request) =
    is_create_route (find_route request.method request.path)
    && header "Idempotency-Key" request == key
is_post key _ = false

-- The requests that the POSTs with a key send in a run.
unfoldable pub post_requests : Text → Connector → List Event → World → ℕ
unfolding is_post
post_requests key c [] w = 0
post_requests key c (e ∷ rest) w =
    (if is_post key e then length (handle c e w).1.sent - length w.sent else 0)
    + post_requests key c rest (handle c e w).1

-- What the service's Create does, it does to worlds that differ in time and metrics.
moved-Effect :
    (key : Text) (w v u w' : World)
    → Leaves w v
    → w'.db ≡ u.db
    → w'.sent ≡ u.sent
    → Effect key v u
    → Effect key w w'
moved-Effect key w v u w' l db sent (inl same) = inl (sent ∙ same ∙ l.sent)
moved-Effect key w v u w' l db sent (inr (free, taken, few)) =
    inr (rw (sym l.db) free, rw db taken, rw (sent, sym l.sent) few)

demand-create :
    (s : Server) (e : Env) (request : Request) (route : Route) (a : Action)
    → is_create_route (found route) ≡ true
    → Demand s e request route a
    → (cmd : CreatePaymentCommand) × (a ≡ create_payment cmd (header "Idempotency-Key" request))
unfolding is_create_route
demand-create s e request route a h (Demand.create cmd _ _) = (cmd, refl)
demand-create s e request route a h (Demand.get id _) = cc
demand-create s e request route a h (Demand.cancel id cmd _ _) = cc
demand-create s e request route a h (Demand.refund id cmd _ _) = cc
demand-create s e request route a h (Demand.get_refund id _) = cc
demand-create s e request route a h (Demand.webhook c body k t _ _ _) = cc

serve-Effect :
    (s : Server) (p : Publisher) (request : Request) (w : World)
    → is_create_route (find_route request.method request.path) ≡ true
    → Effect (header "Idempotency-Key" request) w (serve s request w).1
unfolding perform ignore
serve-Effect s p request w h = of_refinement (serve_refines s p request w)
  where
    of_refinement :
        Leaves w (serve s request w).1
          ⊎ Performs s.service p (Demanded s w.env request) w (serve s request w).1
        → Effect (header "Idempotency-Key" request) w (serve s request w).1
    of_refinement (inl l) = inl l.sent
    of_refinement (inr q) =
        let d = q.demanded in
        let (cmd, same) =
          demand-create s w.env request d.route q.action (rw (sym d.matched) h) d.demand in
        let done : World = (create s.service cmd (header "Idempotency-Key" request) q.from).1 in
        let db : (perform s.service p q.action q.from).1.db ≡ done.db =
          ap (λ a. (perform s.service p a q.from).1.db) same in
        let sent : (perform s.service p q.action q.from).1.sent ≡ done.sent =
          ap (λ a. (perform s.service p a q.from).1.sent) same in
        moved-Effect _ w q.from done (serve s request w).1 q.same (q.db ∙ db) (q.sent ∙ sent)
          (create-Effect s.service cmd (header "Idempotency-Key" request) q.from)

both : {a b : Bool} → a && b ≡ true → (a ≡ true) × (b ≡ true)
both {a} {b} h = ground arith

module _ (key : Text) (c : Connector) where
  handle-Effect : (e : Event) (w : World) → is_post key e ≡ true → Effect key w (handle c e w).1
  unfolding handle ignore is_post
  handle-Effect (arrival request) w h =
      let (route, same) = both h in
      subst (λ k. Effect k w (serve c.server request w).1)
        ((text_beq_iff (header "Idempotency-Key" request) key).0 same)
        (serve-Effect c.server c.publisher request w route)
  handle-Effect reconcile w h = cc
  handle-Effect publish w h = cc
  handle-Effect collect w h = cc

  stays_reserved :
      (e : Event) (w : World)
      → is_reserved key w.db ≡ true
      → is_reserved key (handle c e w).1.db ≡ true
  stays_reserved e w h =
      ((handle-Keeps {I = IsReserved key} ⦃k = reserved_tables key⦄ c e).at w
        (record { reserved = h })).reserved

  post_requests-reserved :
      (events : List Event) (w : World)
      → is_reserved key w.db ≡ true
      → post_requests key c events w ≡ 0
  unfolding post_requests
  post_requests-reserved [] w h = refl
  post_requests-reserved (e ∷ rest) w h = ground (
    arith,
    handle-Effect e w,
    stays_reserved e w h,
    post_requests-reserved rest (handle c e w).1 (stays_reserved e w h),
  )

  -- Whatever requests, webhooks and ticks arrive, in any order, and whatever the surroundings do, all
  -- the POSTs of a payment with one idempotency key together send at most one request to the provider.
  pub post_requests-le-one : (events : List Event) (w : World) → post_requests key c events w ≤ 1
  unfolding post_requests
  post_requests-le-one [] w = omega arith
  post_requests-le-one (e ∷ rest) w = ground (
    arith,
    handle-Effect e w,
    post_requests-reserved rest (handle c e w).1,
    post_requests-le-one rest (handle c e w).1,
  )
