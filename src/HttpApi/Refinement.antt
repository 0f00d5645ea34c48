-- ===== src/HttpApi/Refinement.antt =====
-- The server of server.go and the actions of the program.
use dinapay_connector_binanc.Shared.{ℕ, Text, ◌≡◌, refl, ◌⊎◌, Option, none, some, true}
use dinapay_connector_binanc.Core.Error.{Result, ok, err}
use dinapay_connector_binanc.Core.Value.{Value, Time}
use dinapay_connector_binanc.Core.Model.{
  CreatePaymentCommand, CancelPaymentCommand, CreateRefundCommand,
}
use dinapay_connector_binanc.Effects.{Env, World, M, ignore}
use dinapay_connector_binanc.Publisher.{Publisher}
use dinapay_connector_binanc.Program.{Action, receive_webhook, perform}
use dinapay_connector_binanc.HttpApi.Message.{Request, Reply}
use dinapay_connector_binanc.HttpApi.Routes
use dinapay_connector_binanc.HttpApi.Routes.{Route, Found, found, wrong_method, nothing, find_route}
use dinapay_connector_binanc.HttpApi.Body.{create_command, cancel_command, refund_command, read_all}
use dinapay_connector_binanc.HttpApi.Server
use dinapay_connector_binanc.HttpApi.Server.{
  Server, WebhookCredential, Handler, auth, is_authorized,
}
use dinapay_connector_binanc.HttpApi.Handlers
use dinapay_connector_binanc.HttpApi.Observe.{serve, dispatch, handler}
use dinapay_connector_binanc.HttpApi.Silence.{
  invalid-Silent, refuse-Silent, after_handling-Silent, status_page-Silent, metrics-Silent,
  capabilities-Silent, request_id-Silent, trace-Silent,
}
use dinapay_connector_binanc.HttpApi.Demand.{Demand, Demanded}
use dinapay_connector_binanc.HttpApi.Effect.{
  Leaves, Silent-now, Performs, Refines, silent_rules, Refines-Silent, Refines-attempt,
  Refines-after, Refines-before, Refines-env, Refines-if, Refines-weaken,
}

module _ (s : Server) (p : Publisher) (request : Request) where
  module _ {e : Env} {D : Action → Type 0} where
    call-Refines :
        {A : Type 0} (a : Action) (status : ℕ) (encode : A → Option Value) (m : M A) (reply : Reply)
        → D a
        → perform s.service p a ≡ ignore m
        → Refines s.service p e D (Handlers.call status encode m reply)
    unfolding Handlers.call
    call-Refines a status encode m reply d same =
        Refines-before _ _ (Refines-attempt a m d same) (λ r. search silent_rules)

    auth-Refines :
        (next : Handler) (reply : Reply)
        → (is_authorized s request ≡ true → Refines s.service p e D (next request reply))
        → Refines s.service p e D (auth s next request reply)
    unfolding auth Server.unauthorized
    auth-Refines next reply k = Refines-if _ _ _ k (search silent_rules)

  module _ (e : Env) where
    abbrev RefinesRoute : Route → M Reply → Type 0
    RefinesRoute route = Refines s.service p e (Demand s e request route)

    create-Refines :
        (reply : Reply)
        → is_authorized s request ≡ true
        → RefinesRoute Routes.create (Handlers.create s request reply)
    unfolding Handlers.create Handlers.create_decoded perform
    create-Refines reply h = Refines-env _ (decoded (create_command e request) refl)
      where
        decoded :
            (r : Result CreatePaymentCommand)
            → create_command e request ≡ r
            → RefinesRoute Routes.create (Handlers.create_decoded s request r reply)
        decoded (err x) q = Refines-Silent _ (invalid-Silent x reply)
        decoded (ok cmd) q = call-Refines _ 201 _ _ reply (Demand.create cmd h q) refl

    get-Refines :
        (id : Text) (reply : Reply)
        → is_authorized s request ≡ true
        → RefinesRoute (Routes.get id) (Handlers.get s id request reply)
    unfolding Handlers.get perform
    get-Refines id reply h = call-Refines _ 200 _ _ reply (Demand.get id h) refl

    cancel-Refines :
        (id : Text) (reply : Reply)
        → is_authorized s request ≡ true
        → RefinesRoute (Routes.cancel id) (Handlers.cancel s id request reply)
    unfolding Handlers.cancel Handlers.cancel_decoded perform
    cancel-Refines id reply h = Refines-env _ (decoded (cancel_command e request) refl)
      where
        decoded :
            (r : Result CancelPaymentCommand)
            → cancel_command e request ≡ r
            → RefinesRoute (Routes.cancel id) (Handlers.cancel_decoded s id r reply)
        decoded (err x) q = Refines-Silent _ (invalid-Silent x reply)
        decoded (ok cmd) q = call-Refines _ 200 _ _ reply (Demand.cancel id cmd h q) refl

    refund-Refines :
        (id : Text) (reply : Reply)
        → is_authorized s request ≡ true
        → RefinesRoute (Routes.refund id) (Handlers.refund s id request reply)
    unfolding Handlers.refund Handlers.refund_decoded perform
    refund-Refines id reply h = Refines-env _ (decoded (refund_command e request) refl)
      where
        decoded :
            (r : Result CreateRefundCommand)
            → refund_command e request ≡ r
            → RefinesRoute (Routes.refund id) (Handlers.refund_decoded s id request r reply)
        decoded (err x) q = Refines-Silent _ (invalid-Silent x reply)
        decoded (ok cmd) q = call-Refines _ 201 _ _ reply (Demand.refund id cmd h q) refl

    get_refund-Refines :
        (id : Text) (reply : Reply)
        → is_authorized s request ≡ true
        → RefinesRoute (Routes.get_refund id) (Handlers.get_refund s id request reply)
    unfolding Handlers.get_refund perform
    get_refund-Refines id reply h = call-Refines _ 200 _ _ reply (Demand.get_refund id h) refl

    verified-Refines :
        (connection body : Text) (credential : WebhookCredential) (received : Time) (reply : Reply)
        → read_all request ≡ ok body
        → Handlers.credential_of s.webhook_credentials connection ≡ some credential
        → RefinesRoute (Routes.webhook connection) (
            Handlers.after_verification connection body
              (Handlers.verify s credential request body e received)
              reply)
    unfolding Handlers.after_verification perform
    verified-Refines connection body credential received reply b c =
        checked (Handlers.verify s credential request body e received) refl
      where
        checked :
            (r : Result (Unit {0}))
            → Handlers.verify s credential request body e received ≡ r
            → RefinesRoute
                (Routes.webhook connection)
                (Handlers.after_verification connection body r reply)
        checked (err x) q = Refines-Silent _ (refuse-Silent _ _ x reply)
        checked (ok u) q =
            Refines-before _ _
              (Refines-attempt (receive_webhook connection body) _
                (Demand.webhook connection body credential received b c q) refl)
              (λ r. after_handling-Silent r reply)

    credential-Refines :
        (connection body : Text) (o : Option WebhookCredential) (reply : Reply)
        → read_all request ≡ ok body
        → Handlers.credential_of s.webhook_credentials connection ≡ o
        → RefinesRoute
            (Routes.webhook connection)
            (Handlers.with_credential s connection body request o reply)
    unfolding Handlers.with_credential
    credential-Refines connection body none reply b c = Refines-Silent _ (search silent_rules)
    credential-Refines connection body (some credential) reply b c = Refines-env _ (
        Refines-after _ _ Silent-now (λ t. verified-Refines connection body credential t reply b c))

    body-Refines :
        (connection : Text) (r : Result Text) (reply : Reply)
        → read_all request ≡ r
        → RefinesRoute (Routes.webhook connection) (Handlers.with_body s connection request r reply)
    unfolding Handlers.with_body
    body-Refines connection (err x) reply b = Refines-Silent _ (invalid-Silent x reply)
    body-Refines connection (ok body) reply b = credential-Refines connection body _ reply b refl

    webhook-Refines :
        (connection : Text) (reply : Reply)
        → RefinesRoute
            (Routes.webhook connection)
            (Handlers.receive_webhook s connection request reply)
    unfolding Handlers.receive_webhook
    webhook-Refines connection reply = body-Refines connection (read_all request) reply refl

    handler-Refines :
        (route : Route) (reply : Reply) → RefinesRoute route (handler s route request reply)
    unfolding handler
    handler-Refines Routes.health reply = Refines-Silent _ (status_page-Silent _ request reply)
    handler-Refines Routes.ready reply = Refines-Silent _ (status_page-Silent _ request reply)
    handler-Refines Routes.metrics reply = Refines-Silent _ (metrics-Silent s.formats request reply)
    handler-Refines Routes.capabilities reply =
        auth-Refines _ reply (λ h. Refines-Silent _ (capabilities-Silent request reply))
    handler-Refines Routes.create reply = auth-Refines _ reply (create-Refines reply)
    handler-Refines (Routes.get id) reply = auth-Refines _ reply (get-Refines id reply)
    handler-Refines (Routes.cancel id) reply = auth-Refines _ reply (cancel-Refines id reply)
    handler-Refines (Routes.refund id) reply = auth-Refines _ reply (refund-Refines id reply)
    handler-Refines (Routes.get_refund id) reply =
        auth-Refines _ reply (get_refund-Refines id reply)
    handler-Refines (Routes.webhook connection) reply = webhook-Refines connection reply

    dispatch-Refines :
        (f : Found) (reply : Reply)
        → find_route request.method request.path ≡ f
        → Refines s.service p e (Demanded s e request) (dispatch s f request reply)
    unfolding dispatch
    dispatch-Refines (found route) reply q =
        Refines-weaken (λ a d. record { route = route; matched = q; demand = d })
          (handler-Refines route reply)
    dispatch-Refines (wrong_method route) reply q = Refines-Silent _ (search silent_rules)
    dispatch-Refines nothing reply q = Refines-Silent _ (search silent_rules)

-- A served request leaves the tables and the sent requests as they were, or as one action of the
-- program makes them, from a world that differs in time and metrics only: the action of the route,
-- with the request's own arguments, and only with the service token, or for a webhook with a signature
-- of the connection's credential.
pub serve_refines :
    (s : Server) (p : Publisher) (request : Request) (w : World)
    → Leaves w (serve s request w).1
      ⊎ Performs s.service p (Demanded s w.env request) w (serve s request w).1
unfolding serve
serve_refines s p request w = served.at w refl
  where
    served : Refines s.service p w.env (Demanded s w.env request) (serve s request)
    served = Refines-after _ _ Silent-now (λ started.
        Refines-after _ _ (request_id-Silent _) (λ request_id.
          Refines-after _ _ (trace-Silent _) (λ trace.
            Refines-before _ _ (dispatch-Refines s p request w.env _ _ refl)
              (λ reply. search silent_rules depth 8))))
