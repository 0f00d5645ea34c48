-- ===== src/HttpApi/Demand.antt =====
-- What a request may ask the program to do.
use dinapay_connector_binanc.Shared.{Text, ◌≡◌, some, true}
use dinapay_connector_binanc.Core.Error.{ok}
use dinapay_connector_binanc.Core.Value.{Time}
use dinapay_connector_binanc.Core.Model.{
  CreatePaymentCommand, CancelPaymentCommand, CreateRefundCommand,
}
use dinapay_connector_binanc.Effects.{Env}
use dinapay_connector_binanc.Program.{
  Action, create_payment, get_payment, cancel_payment, get_refunded, refund_payment,
  receive_webhook,
}
use dinapay_connector_binanc.HttpApi.Message.{Request, header}
use dinapay_connector_binanc.HttpApi.Routes
use dinapay_connector_binanc.HttpApi.Routes.{Route, Found, found, wrong_method, nothing, find_route}
use dinapay_connector_binanc.HttpApi.Body.{create_command, cancel_command, refund_command, read_all}
use dinapay_connector_binanc.HttpApi.Server.{Server, WebhookCredential, is_authorized}
use dinapay_connector_binanc.HttpApi.Handlers

-- The action that a request may demand of a route: with the service token and a command that can be
-- read, or as a webhook that is signed with the connection's credential.
pub data Demand (s : Server) (e : Env) (request : Request) : Route → Action → Type 0 where
  create :
      (cmd : CreatePaymentCommand)
      → is_authorized s request ≡ true
      → create_command e request ≡ ok cmd
      → Demand s e request Routes.create (create_payment cmd (header "Idempotency-Key" request))
  get :
      (id : Text)
      → is_authorized s request ≡ true
      → Demand s e request
          (Routes.get id)
          (get_payment (header "Provider-Connection-Id" request) id)
  cancel :
      (id : Text) (cmd : CancelPaymentCommand)
      → is_authorized s request ≡ true
      → cancel_command e request ≡ ok cmd
      → Demand s e request (Routes.cancel id) (cancel_payment cmd.provider_connection_id id)
  refund :
      (id : Text) (cmd : CreateRefundCommand)
      → is_authorized s request ≡ true
      → refund_command e request ≡ ok cmd
      → Demand s e request
          (Routes.refund id)
          (refund_payment id (header "Idempotency-Key" request) cmd)
  get_refund :
      (id : Text)
      → is_authorized s request ≡ true
      → Demand s e request
          (Routes.get_refund id)
          (get_refunded (header "Provider-Connection-Id" request) id)
  webhook :
      (connection body : Text) (credential : WebhookCredential) (received : Time)
      → read_all request ≡ ok body
      → Handlers.credential_of s.webhook_credentials connection ≡ some credential
      → Handlers.verify s credential request body e received ≡ ok tt
      → Demand s e request (Routes.webhook connection) (receive_webhook connection body)

-- The demand, on the route that the mux finds.
pub record Demanded (s : Server) (e : Env) (request : Request) (action : Action) : Type 0 where
  pub route : Route
  pub matched : find_route request.method request.path ≡ found route
  pub demand : Demand s e request route action
