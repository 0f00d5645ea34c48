-- ===== src/HttpApi/Answers.antt =====
-- Answers with one of eight status codes that keep the headers that observe has set.
pub mod Routed
use mathlib.Core.Path.{subst}
use dinapay_connector_binanc.Shared.{
  ℕ, Text, String, lit, [], ◌∷◌, List, ◌≡◌, refl, sym, ◌∙◌, Option, none, some, Bool, true, false,
  any, ◌==◌, nat_eq, text_beq, arith,
}
use dinapay_connector_binanc.Strings.{equal_fold}
use dinapay_connector_binanc.Core.Error.{Error, Result, ok, err, not_found, conflict, message}
use dinapay_connector_binanc.Core.Value.{Value}
use dinapay_connector_binanc.Core.Model.{
  CreatePaymentCommand, CancelPaymentCommand, CreateRefundCommand,
}
use dinapay_connector_binanc.Effects.{Env, World, M, pure}
use dinapay_connector_binanc.Metrics.Exposition.{Formats}
use dinapay_connector_binanc.HttpApi.Message.{
  Request, Reply, lookup_header, set_header, write_header, write_body, http_error, page_not_found,
}
use dinapay_connector_binanc.HttpApi.Message.Lookup.{
  lookup_header-set_header, wrote_header-set_header, status-set_header,
}
use dinapay_connector_binanc.HttpApi.Body.{create_command, cancel_command, refund_command, read_all}
use dinapay_connector_binanc.HttpApi.Routes
use dinapay_connector_binanc.HttpApi.Routes.{Route, Found, found, wrong_method, nothing}
use dinapay_connector_binanc.HttpApi.Server
use dinapay_connector_binanc.HttpApi.Server.{Server, Handler, WebhookCredential}
use dinapay_connector_binanc.HttpApi.Handlers
use dinapay_connector_binanc.HttpApi.Observe.{handler, dispatch}
use dinapay_connector_binanc.HttpApi.Returns.{
  Gives, Gives-pure, Gives-if, Gives-then, Total-gets, Total-attempt, Total-now, Total-observe,
}

abbrev pub statuses : List ℕ
statuses = 200 ∷ 201 ∷ 400 ∷ 401 ∷ 404 ∷ 405 ∷ 409 ∷ 422 ∷ []

abbrev pub IsStatus : ℕ → Type 0
IsStatus status = any (λ s. status == s) statuses ≡ true

-- A reply that is written from another one, which had no status yet.
pub record IsAnswer (given reply : Reply) : Type 0 where
  pub status : IsStatus reply.status
  pub request_id :
      lookup_header (lit "X-Request-Id") reply.headers
      ≡ lookup_header (lit "X-Request-Id") given.headers
  pub traceparent :
      lookup_header (lit "traceparent") reply.headers
      ≡ lookup_header (lit "traceparent") given.headers

-- Headers of other names than the two that observe sets.
pub IsOther : String → Type 0
IsOther name =
    (equal_fold (lit name) (lit "X-Request-Id") ≡ false)
    × (equal_fold (lit name) (lit "traceparent") ≡ false)

pub content_type-IsOther : IsOther "Content-Type"
unfolding IsOther equal_fold text_beq lit
content_type-IsOther = (refl, refl)

sniff-IsOther : IsOther "X-Content-Type-Options"
unfolding IsOther equal_fold text_beq lit
sniff-IsOther = (refl, refl)

pub allow-IsOther : IsOther "Allow"
unfolding IsOther equal_fold text_beq lit
allow-IsOther = (refl, refl)

-- WriteHeader with one of the status codes, and a body.
written-IsAnswer :
    (status : ℕ) (text : Text) (given : Reply)
    → given.wrote_header ≡ false
    → IsStatus status
    → IsAnswer given (write_body text (write_header status given))
unfolding write_header write_body
written-IsAnswer status text given fresh h = record {
  status = rw fresh h;
  request_id = rw fresh refl;
  traceparent = rw fresh refl;
}

-- The same, after a header of another name.
pub after_set-IsAnswer :
    (name : String) (value : Text) (given reply : Reply)
    → IsOther name
    → IsAnswer (set_header name value given) reply
    → IsAnswer given reply
unfolding IsOther
after_set-IsAnswer name value given reply o a = record {
  status = a.status;
  request_id = a.request_id ∙ lookup_header-set_header _ name value given o.0;
  traceparent = a.traceparent ∙ lookup_header-set_header _ name value given o.1;
}

pub set-fresh :
    (name : String) (value : Text) (given : Reply)
    → given.wrote_header ≡ false
    → (set_header name value given).wrote_header ≡ false
set-fresh name value given fresh = wrote_header-set_header name value given ∙ fresh

module _ (given : Reply) (fresh : given.wrote_header ≡ false) where
  pub write-IsAnswer :
      (env : Env) (status : ℕ) (v : Option Value)
      → IsStatus status
      → IsAnswer given (Server.write env status v given)
  unfolding Server.write
  write-IsAnswer env status v h =
      after_set-IsAnswer "Content-Type" _ given _ content_type-IsOther
        (written-IsAnswer status _ _ (set-fresh "Content-Type" _ given fresh) h)

  pub problem-IsAnswer :
      (env : Env) (status : ℕ) (code text : Text)
      → IsStatus status
      → IsAnswer given (Server.problem env status code text given)
  unfolding Server.problem
  problem-IsAnswer env status code text h =
      after_set-IsAnswer "Content-Type" _ given _ content_type-IsOther
        (written-IsAnswer status _ _ (set-fresh "Content-Type" _ given fresh) h)

  pub http_error-IsAnswer :
      (status : ℕ) (text : Text) → IsStatus status → IsAnswer given (http_error status text given)
  unfolding http_error
  http_error-IsAnswer status text h =
      after_set-IsAnswer "Content-Type" _ given _ content_type-IsOther (
        after_set-IsAnswer "X-Content-Type-Options" _ _ _ sniff-IsOther (
          written-IsAnswer status _ _
            (set-fresh "X-Content-Type-Options" _ _ (set-fresh "Content-Type" _ given fresh)) h))

  pub map_error-IsAnswer : (env : Env) (e : Error) → IsAnswer given (Server.map_error env e given)
  unfolding Server.map_error any
  map_error-IsAnswer env not_found = problem-IsAnswer env 404 _ _ refl
  map_error-IsAnswer env conflict = problem-IsAnswer env 409 _ _ refl
  map_error-IsAnswer env (message m) = problem-IsAnswer env 422 _ _ refl
