-- ===== src/HttpApi/Unauthorized.antt =====
-- Requests without the service token.
use dinapay_connector_binanc.Shared.{
  ℕ, Text, lit, ◌≡◌, refl, sym, ap, ◌∙◌, ◌⊎◌, [], inl, inr, Bool, true, false,
}
use dinapay_connector_binanc.Effects.{Env, World, pure}
use dinapay_connector_binanc.Publisher.{Publisher}
use dinapay_connector_binanc.Program.{Action}
use dinapay_connector_binanc.HttpApi.Message.{Request, Reply, write_header, write_body}
use dinapay_connector_binanc.HttpApi.Message.Lookup.{wrote_header-set_header}
use dinapay_connector_binanc.HttpApi.Headers.{random_hex, request_id_for, trace_for, new_trace}
use dinapay_connector_binanc.HttpApi.Routes
use dinapay_connector_binanc.HttpApi.Routes.{Route, Found, found, find_route}
use dinapay_connector_binanc.HttpApi.Server.{
  Server, is_authorized, unauthorized, auth, problem, write,
}
use dinapay_connector_binanc.HttpApi.Observe.{serve, dispatch, handler}
use dinapay_connector_binanc.HttpApi.Effect.{Leaves, Performs}
use dinapay_connector_binanc.HttpApi.Refinement.{serve_refines}
use dinapay_connector_binanc.HttpApi.Demand.{Demand, Demanded}
use dinapay_connector_binanc.HttpApi.Returns.{
  Gives, Total, Gives-pure, Gives-if, Gives-then, Total-gets, Total-attempt,
}
use dinapay_connector_binanc.HttpApi.Replies.{identified-fresh, serve-Gives}

-- A publisher for the refinement, of which a request makes no use.
abbrev quiet : Publisher
quiet = record { endpoint = []; token = [] }

-- The routes behind the service token
unfoldable pub is_guarded : Route → Bool
is_guarded Routes.health = false
is_guarded Routes.ready = false
is_guarded Routes.metrics = false
is_guarded (Routes.webhook connection) = false
is_guarded _ = true

random_hex-Total : (n : ℕ) → Total (random_hex n)
unfolding random_hex
random_hex-Total n w = Gives-then w _ _ (Total-attempt _) (λ r. Gives-pure _ _ tt)

pub request_id-Total : (given : Text) → Total (request_id_for given)
unfolding request_id_for
request_id-Total given w =
    Gives-if w _ (pure given) (random_hex 16) (λ b. Gives-pure w _ tt) (λ b. random_hex-Total 16 w)

pub trace-Total : (given : Text) → Total (trace_for given)
unfolding trace_for new_trace
trace-Total given w =
    Gives-if w _ (pure given) new_trace (λ b. Gives-pure w _ tt)
      (λ b.
        Gives-then w _ _ (random_hex-Total 16)
          (λ trace. Gives-then _ _ _ (random_hex-Total 8) (λ span. Gives-pure _ _ tt)))

module _ (s : Server) (request : Request) (denied : is_authorized s request ≡ false) where
  handler-denied :
      (route : Route) (reply : Reply)
      → is_guarded route ≡ true
      → handler s route request reply ≡ unauthorized reply
  unfolding handler auth is_guarded
  handler-denied Routes.health reply g = cc
  handler-denied Routes.ready reply g = cc
  handler-denied Routes.metrics reply g = cc
  handler-denied Routes.capabilities reply g = rw denied refl
  handler-denied Routes.create reply g = rw denied refl
  handler-denied (Routes.get id) reply g = rw denied refl
  handler-denied (Routes.cancel id) reply g = rw denied refl
  handler-denied (Routes.refund id) reply g = rw denied refl
  handler-denied (Routes.get_refund id) reply g = rw denied refl
  handler-denied (Routes.webhook id) reply g = cc

  unauthorized-Gives :
      (reply : Reply) (w : World)
      → reply.wrote_header ≡ false
      → Gives w (unauthorized reply) (λ r. r.status ≡ 401)
  unfolding unauthorized problem write write_header write_body
  unauthorized-Gives reply w fresh = Gives-then w _ _ (Total-gets _) (λ env.
      Gives-pure _ _
        (rw (wrote_header-set_header "Content-Type" (lit "application/json") reply ∙ fresh) refl))

  dispatch-denied :
      (route : Route) (f : Found) (reply : Reply) (w : World)
      → f ≡ found route
      → is_guarded route ≡ true
      → reply.wrote_header ≡ false
      → Gives w (dispatch s f request reply) (λ r. r.status ≡ 401)
  unfolding dispatch
  dispatch-denied route f reply w q g fresh =
      rw (q, handler-denied route reply g) (unauthorized-Gives reply w fresh)

guarded-IsAuthorized :
    (s : Server) (e : Env) (request : Request) (route : Route) (a : Action)
    → Demand s e request route a
    → is_guarded route ≡ true
    → is_authorized s request ≡ true
unfolding is_guarded
guarded-IsAuthorized s e request route a (Demand.create cmd h q) g = h
guarded-IsAuthorized s e request route a (Demand.get id h) g = h
guarded-IsAuthorized s e request route a (Demand.cancel id cmd h q) g = h
guarded-IsAuthorized s e request route a (Demand.refund id cmd h q) g = h
guarded-IsAuthorized s e request route a (Demand.get_refund id h) g = h
guarded-IsAuthorized s e request route a (Demand.webhook c body k t b q v) g = cc

-- A request for one of the six guarded routes whose token is not the service token, or with a server
-- that has no token, is answered with 401, and changes no table and sends nothing.
pub serve_unauthorized :
    (s : Server) (request : Request) (route : Route) (w : World)
    → find_route request.method request.path ≡ found route
    → is_guarded route ≡ true
    → is_authorized s request ≡ false
    → Gives w (serve s request) (λ reply. reply.status ≡ 401) × Leaves w (serve s request w).1
serve_unauthorized s request route w q g denied = (answered, left (serve_refines s quiet request w))
  where
    answered : Gives w (serve s request) (λ reply. reply.status ≡ 401)
    answered = serve-Gives s request w (request_id-Total _ _) (trace-Total _ _) (λ id trace v i t.
        dispatch-denied s request denied route _ _ v q g (identified-fresh id trace))

    left :
        Leaves w (serve s request w).1
          ⊎ Performs s.service quiet (Demanded s w.env request) w (serve s request w).1
        → Leaves w (serve s request w).1
    left (inl h) = h
    left (inr h) =
        let d = h.demanded in
        let same : Routes.found d.route ≡ Routes.found route = sym d.matched ∙ q in
        let again : d.route ≡ route = cc in
        let yes =
          guarded-IsAuthorized s w.env request d.route h.action d.demand
            (ap is_guarded again ∙ g) in
        absurd cc
