-- ===== src/Tests/Http.antt =====
-- Requests over HTTP.
use mathlib.Core.Path.{subst}
use dinapay_connector_binanc.Shared.{
  ℕ, zero, suc, ◌<◌, Text, lit, [], ◌∷◌, none, ◌≡◌, ◌⊎◌, refl, replicate, length, arith,
}
use dinapay_connector_binanc.Effects.{World}
use dinapay_connector_binanc.HttpApi.Message.{Request, Reply, lookup_header}
use dinapay_connector_binanc.HttpApi.Routes
use dinapay_connector_binanc.HttpApi.Routes.{find_route, route_of}
use dinapay_connector_binanc.HttpApi.Server.{Server, is_authorized}
use dinapay_connector_binanc.HttpApi.Observe.{serve}
use dinapay_connector_binanc.HttpApi.Effect.{Leaves, Performs}
use dinapay_connector_binanc.HttpApi.Refinement.{serve_refines}
use dinapay_connector_binanc.HttpApi.Demand.{Demand, Demanded}
use dinapay_connector_binanc.HttpApi.Returns.{Gives}
use dinapay_connector_binanc.HttpApi.Identifiers.{IsRandom, AllBytes}
use dinapay_connector_binanc.HttpApi.Replies.{IsReply, serve_answers}
use dinapay_connector_binanc.HttpApi.Unauthorized.{is_guarded, serve_unauthorized}
use dinapay_connector_binanc.HttpApi.Performed.{Performed, serve_performs}
use dinapay_connector_binanc.Program.{get_payment}
use dinapay_connector_binanc.Tests.Machine.{machine}
use dinapay_connector_binanc.Tests.Setup.{
  service, publisher, random_start, created_answer, crypto, formats,
}

abbrev pub server : Server
server = record {
  service = service;
  service_token = lit "token";
  webhook_credentials = (lit "c1", record { hmac_secret = lit "secret"; public_key = [] }) ∷ [];
  crypto = crypto;
  formats = formats;
}

abbrev pub get_request : Text → Request
get_request authorization = record {
  method = lit "GET";
  path = lit "v1" ∷ lit "payments" ∷ lit "p1" ∷ [];
  headers =
      (lit "authorization", authorization)
      ∷ (lit "Provider-Connection-Id", lit "c1")
      ∷ (lit "x-request-id", lit "r-1")
      ∷ [];
  body = [];
  body_error = none;
}

abbrev pub world : World
world = random_start created_answer

replicated : (n b : ℕ) → b < 256 → (length (replicate n b) ≡ n) × AllBytes (replicate n b)
unfolding AllBytes
replicated zero b small = (refl, tt)
replicated (suc n) b small =
    let (size, bytes) = replicated n b small in (omega arith, (small, bytes))

enough_bytes : IsRandom world.env
enough_bytes = record {
  size = λ step n bytes h.
      let same : replicate n 7 ≡ bytes = cc in
      subst (λ (s : Text). length s ≡ n) same (replicated n 7 (omega arith)).0;
  bytes = λ step n bytes h.
      let same : replicate n 7 ≡ bytes = cc in subst AllBytes same (replicated n 7 (omega arith)).1;
}

serve_refines_example :
    Leaves world (serve server (get_request (lit "Bearer token")) world).1
    ⊎ Performs service publisher
        (Demanded server world.env (get_request (lit "Bearer token")))
        world
        (serve server (get_request (lit "Bearer token")) world).1
serve_refines_example = serve_refines server publisher (get_request (lit "Bearer token")) world

serve_answers_example :
    Gives world
      (serve server (get_request (lit "Bearer token")))
      (IsReply (get_request (lit "Bearer token")))
serve_answers_example = serve_answers server (get_request (lit "Bearer token")) world enough_bytes

serve_unauthorized_example :
    Gives world
      (serve server (get_request (lit "Bearer other")))
      (λ (reply : Reply). reply.status ≡ 401)
    × Leaves world (serve server (get_request (lit "Bearer other")) world).1
unfolding machine find_route route_of is_guarded is_authorized lookup_header
serve_unauthorized_example =
    serve_unauthorized server (get_request (lit "Bearer other")) (Routes.get (lit "p1")) world refl
      refl refl

serve_performs_example :
    Performed server publisher
      (get_payment (lit "c1") (lit "p1"))
      world
      (serve server (get_request (lit "Bearer token")) world).1
unfolding machine find_route route_of is_guarded is_authorized lookup_header
serve_performs_example =
    serve_performs server publisher (get_request (lit "Bearer token")) world (Routes.get (lit "p1"))
      (get_payment (lit "c1") (lit "p1")) refl refl (Demand.get (lit "p1") refl)
