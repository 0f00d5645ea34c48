-- ===== src/HttpApi/Answers/Routed.antt =====
-- The answers of each handler of server.go.
use mathlib.Core.Path.{subst}
use dinapay_connector_binanc.Shared.{
  ℕ, Text, lit, ◌≡◌, refl, sym, Option, none, some, Bool, false, any, nat_eq,
}
use dinapay_connector_binanc.Core.Error.{Error, Result, ok, err, not_found, conflict, message}
use dinapay_connector_binanc.Core.Value.{Value}
use dinapay_connector_binanc.Core.Model.{
  CreatePaymentCommand, CancelPaymentCommand, CreateRefundCommand,
}
use dinapay_connector_binanc.Effects.{Env, World, M, pure}
use dinapay_connector_binanc.Metrics.Exposition.{Formats}
use dinapay_connector_binanc.HttpApi.Message.{
  Request, Reply, set_header, write_body, page_not_found,
}
use dinapay_connector_binanc.HttpApi.Message.Lookup.{status-set_header}
use dinapay_connector_binanc.HttpApi.Routes
use dinapay_connector_binanc.HttpApi.Routes.{Route, Found, found, wrong_method, nothing}
use dinapay_connector_binanc.HttpApi.Server
use dinapay_connector_binanc.HttpApi.Server.{Server, Handler, WebhookCredential}
use dinapay_connector_binanc.HttpApi.Handlers
use dinapay_connector_binanc.HttpApi.Observe.{handler, dispatch}
use dinapay_connector_binanc.HttpApi.Returns.{
  Gives, Gives-pure, Gives-if, Gives-then, Total-gets, Total-attempt, Total-now, Total-observe,
}
use dinapay_connector_binanc.HttpApi.Answers.{
  IsStatus, IsAnswer, content_type-IsOther, allow-IsOther, after_set-IsAnswer, set-fresh,
  write-IsAnswer, problem-IsAnswer, http_error-IsAnswer, map_error-IsAnswer,
}

module _ (given : Reply) (fresh : given.wrote_header ≡ false) where
  page-Gives :
      (v : Value) (request : Request) (w : World)
      → Gives w (Server.page v request given) (IsAnswer given)
  unfolding Server.page any
  page-Gives v request w =
      Gives-then w _ _ (Total-gets _)
        (λ env. Gives-pure _ _ (write-IsAnswer given fresh env 200 (some v) refl))

  status_page-Gives :
      (text : Text) (request : Request) (w : World)
      → Gives w (Server.status_page text request given) (IsAnswer given)
  unfolding Server.status_page
  status_page-Gives text request w = page-Gives _ request w

  metrics-Gives :
      (formats : Formats) (request : Request) (w : World)
      → IsStatus given.status
      → Gives w (Server.internal_only (Server.metrics_page formats) request given) (IsAnswer given)
  unfolding Server.internal_only Server.metrics_page write_body page_not_found any
  metrics-Gives formats request w started =
      Gives-if w (Server.is_forwarded request) (pure (page_not_found given))
        (Server.metrics_page formats request given)
        (λ b. Gives-pure w _ (http_error-IsAnswer given fresh 404 (lit "404 page not found") refl))
        (λ b. Gives-then w _ _ (Total-gets _) (λ text. Gives-pure _ _ (
          after_set-IsAnswer "Content-Type" _ given _ content_type-IsOther (record {
            status = subst IsStatus (sym (status-set_header "Content-Type" _ given)) started;
            request_id = refl;
            traceparent = refl;
          }))))

  invalid-Gives :
      (e : Error) (w : World) → Gives w (Handlers.invalid_request e given) (IsAnswer given)
  unfolding Handlers.invalid_request any
  invalid-Gives e w =
      Gives-then w _ _ (Total-gets _)
        (λ env. Gives-pure _ _ (problem-IsAnswer given fresh env 400 _ _ refl))

  respond-IsAnswer :
      {A : Type 0} (env : Env) (status : ℕ) (encode : A → Option Value) (r : Result A)
      → IsStatus status
      → IsAnswer given (Server.respond env status encode r given)
  unfolding Server.respond
  respond-IsAnswer env status encode (ok a) h = write-IsAnswer given fresh env status _ h
  respond-IsAnswer env status encode (err e) h = map_error-IsAnswer given fresh env e

  call-Gives :
      {A : Type 0} (status : ℕ) (encode : A → Option Value) (m : M A) (w : World)
      → IsStatus status
      → Gives w (Handlers.call status encode m given) (IsAnswer given)
  unfolding Handlers.call
  call-Gives status encode m w h = Gives-then w _ _ (Total-attempt m) (λ r.
      Gives-then _ _ _ (Total-gets _)
        (λ env. Gives-pure _ _ (respond-IsAnswer env status encode r h)))

  refuse-Gives :
      (status : ℕ) (code : Text) (e : Error) (w : World)
      → IsStatus status
      → Gives w (Handlers.refuse_webhook status code e given) (IsAnswer given)
  unfolding Handlers.refuse_webhook
  refuse-Gives status code e w h = Gives-then w _ _ (Total-observe _) (λ u.
      Gives-then _ _ _ (Total-gets _)
        (λ env. Gives-pure _ _ (problem-IsAnswer given fresh env status _ _ h)))

  accept-Gives : (w : World) → Gives w (Handlers.accept_webhook given) (IsAnswer given)
  unfolding Handlers.accept_webhook any
  accept-Gives w = Gives-then w _ _ (Total-observe _) (λ u.
      Gives-then _ _ _ (Total-gets _)
        (λ env. Gives-pure _ _ (write-IsAnswer given fresh env 200 (some Handlers.success) refl)))

  after_handling-Gives :
      (r : Result Bool) (w : World) → Gives w (Handlers.after_handling r given) (IsAnswer given)
  unfolding Handlers.after_handling any
  after_handling-Gives (ok b) w = accept-Gives w
  after_handling-Gives (err not_found) w = accept-Gives w
  after_handling-Gives (err conflict) w = refuse-Gives 422 _ _ w refl
  after_handling-Gives (err (message m)) w = refuse-Gives 422 _ _ w refl

  after_verification-Gives :
      (connection body : Text) (r : Result (Unit {0})) (w : World)
      → Gives w (Handlers.after_verification connection body r given) (IsAnswer given)
  unfolding Handlers.after_verification any
  after_verification-Gives connection body (err e) w = refuse-Gives 401 _ e w refl
  after_verification-Gives connection body (ok u) w =
      Gives-then w _ _ (Total-attempt _) (λ r. after_handling-Gives r _)

  module _ (s : Server) (request : Request) where
    credential-Gives :
        (connection body : Text) (o : Option WebhookCredential) (w : World)
        → Gives w (Handlers.with_credential s connection body request o given) (IsAnswer given)
    unfolding Handlers.with_credential any
    credential-Gives connection body none w =
        Gives-then w _ _ (Total-gets _)
          (λ env. Gives-pure _ _ (problem-IsAnswer given fresh env 404 _ _ refl))
    credential-Gives connection body (some credential) w =
        Gives-then w _ _ (Total-gets _)
          (λ env. Gives-then _ _ _ Total-now (λ t. after_verification-Gives connection body _ _))

    webhook-Gives :
        (connection : Text) (r : Result Text) (w : World)
        → Gives w (Handlers.with_body s connection request r given) (IsAnswer given)
    unfolding Handlers.with_body
    webhook-Gives connection (err e) w = invalid-Gives e w
    webhook-Gives connection (ok body) w = credential-Gives connection body _ w

    create-Gives :
        (r : Result CreatePaymentCommand) (w : World)
        → Gives w (Handlers.create_decoded s request r given) (IsAnswer given)
    unfolding Handlers.create_decoded any
    create-Gives (err e) w = invalid-Gives e w
    create-Gives (ok cmd) w = call-Gives 201 _ _ w refl

    cancel-Gives :
        (id : Text) (r : Result CancelPaymentCommand) (w : World)
        → Gives w (Handlers.cancel_decoded s id r given) (IsAnswer given)
    unfolding Handlers.cancel_decoded any
    cancel-Gives id (err e) w = invalid-Gives e w
    cancel-Gives id (ok cmd) w = call-Gives 200 _ _ w refl

    refund-Gives :
        (id : Text) (r : Result CreateRefundCommand) (w : World)
        → Gives w (Handlers.refund_decoded s id request r given) (IsAnswer given)
    unfolding Handlers.refund_decoded any
    refund-Gives id (err e) w = invalid-Gives e w
    refund-Gives id (ok cmd) w = call-Gives 201 _ _ w refl

    auth-Gives :
        (next : Handler) (w : World)
        → Gives w (next request given) (IsAnswer given)
        → Gives w (Server.auth s next request given) (IsAnswer given)
    unfolding Server.auth Server.unauthorized any
    auth-Gives next w k =
        Gives-if w (Server.is_authorized s request) (next request given) (Server.unauthorized given)
          (λ b. k)
          (λ b.
            Gives-then w _ _ (Total-gets _)
              (λ env. Gives-pure _ _ (problem-IsAnswer given fresh env 401 _ _ refl)))

    handler-Gives :
        (route : Route) (w : World)
        → IsStatus given.status
        → Gives w (handler s route request given) (IsAnswer given)
    unfolding handler Handlers.capabilities Handlers.create Handlers.get Handlers.cancel
        Handlers.refund Handlers.get_refund Handlers.receive_webhook any
    handler-Gives Routes.health w h = status_page-Gives _ request w
    handler-Gives Routes.ready w h = status_page-Gives _ request w
    handler-Gives Routes.metrics w h = metrics-Gives s.formats request w h
    handler-Gives Routes.capabilities w h = auth-Gives _ w (page-Gives _ request w)
    handler-Gives Routes.create w h =
        auth-Gives _ w (Gives-then w _ _ (Total-gets _) (λ env. create-Gives _ _))
    handler-Gives (Routes.get id) w h = auth-Gives _ w (call-Gives 200 _ _ w refl)
    handler-Gives (Routes.cancel id) w h =
        auth-Gives _ w (Gives-then w _ _ (Total-gets _) (λ env. cancel-Gives id _ _))
    handler-Gives (Routes.refund id) w h =
        auth-Gives _ w (Gives-then w _ _ (Total-gets _) (λ env. refund-Gives id _ _))
    handler-Gives (Routes.get_refund id) w h = auth-Gives _ w (call-Gives 200 _ _ w refl)
    handler-Gives (Routes.webhook connection) w h = webhook-Gives connection _ w

pub dispatch-Gives :
    (s : Server) (request : Request) (given : Reply) (f : Found) (w : World)
    → given.wrote_header ≡ false
    → IsStatus given.status
    → Gives w (dispatch s f request given) (IsAnswer given)
unfolding dispatch page_not_found any
dispatch-Gives s request given (found route) w fresh h =
    handler-Gives given fresh s request route w h
dispatch-Gives s request given (wrong_method route) w fresh h = Gives-pure w _ (
    after_set-IsAnswer "Allow" _ given _ allow-IsOther (
      http_error-IsAnswer (set_header "Allow" _ given) (set-fresh "Allow" _ given fresh) 405 _
        refl))
dispatch-Gives s request given nothing w fresh h =
    Gives-pure w _ (http_error-IsAnswer given fresh 404 _ refl)
