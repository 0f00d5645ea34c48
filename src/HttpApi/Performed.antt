-- ===== src/HttpApi/Performed.antt =====
-- The actions that authorized requests demand of server.go.
use mathlib.Core.Path.{subst}
use dinapay_connector_binanc.Shared.{Option, ℕ, ◌≡◌, refl, sym, ◌∙◌, true}
use dinapay_connector_binanc.Core.Error.{Result, ok, err}
use dinapay_connector_binanc.Core.Value.{Value}
use dinapay_connector_binanc.Effects.{
  Env, World, M, ◌>>=◌, continue, gets, attempt, ignore, get_env,
}
use dinapay_connector_binanc.Publisher.{Publisher}
use dinapay_connector_binanc.Program.{Action, perform}
use dinapay_connector_binanc.HttpApi.Message.{Request, Reply}
use dinapay_connector_binanc.HttpApi.Routes.{Route, Found, found, find_route}
use dinapay_connector_binanc.HttpApi.Server.{Server, auth}
use dinapay_connector_binanc.HttpApi.Handlers
use dinapay_connector_binanc.HttpApi.Observe.{serve, dispatch, handler}
use dinapay_connector_binanc.HttpApi.Demand.{Demand}
use dinapay_connector_binanc.HttpApi.Effect.{
  Leaves, Silent, Silent-now, Performs, silent_rules, Leaves-refl, Leaves-trans, continue-Leaves,
}
use dinapay_connector_binanc.HttpApi.Silence.{request_id-Silent, trace-Silent}
use dinapay_connector_binanc.HttpApi.Returns.{Total, Total-now}
use dinapay_connector_binanc.HttpApi.Unauthorized.{is_guarded, request_id-Total, trace-Total}

module _ (s : Server) (p : Publisher) (a : Action) where
  -- The second world has what the action makes of the first.
  abbrev pub Performed : World → World → Type 0
  Performed = Performs s.service p (λ b. b ≡ a)

  record Does {A : Type 0} (e : Env) (m : M A) : Type 0 where
    at : (w : World) → w.env ≡ e → Performed w (m w).1

  module _ {e : Env} where
    Does-attempt : {A : Type 0} (m : M A) → perform s.service p a ≡ ignore m → Does e (attempt m)
    unfolding attempt ignore
    Does-attempt m same = record {
      at = λ w h. record {
        action = a;
        demanded = refl;
        from = w;
        same = Leaves-refl w;
        db = rw same refl;
        sent = rw same refl;
      };
    }

    Does-before :
        {A B : Type 0} (m : M A) (f : A → M B)
        → Does e m
        → ((x : A) → Silent (f x))
        → Does e (m >>= f)
    unfolding ◌>>=◌
    Does-before m f km kf = record {
      at = λ w h.
          let (r, v) = m w in
          let first : Performed w v = km.at w h in
          let then_left = continue-Leaves r f v kf in
          record {
            action = first.action;
            demanded = first.demanded;
            from = first.from;
            same = first.same;
            db = then_left.db ∙ first.db;
            sent = then_left.sent ∙ first.sent;
          };
    }

    Does-after :
        {A B : Type 0} (m : M A) (f : A → M B)
        → Silent m
        → Total m
        → ((x : A) → Does e (f x))
        → Does e (m >>= f)
    unfolding ◌>>=◌
    Does-after {A} m f quiet total k = record {
      at = λ w h.
          let (r, v) = m w in
          let left = quiet.at w in
          let given = total w in moved left (last r given.value v given.returned (left.env ∙ h));
    }
      where
        last :
            (r : Result A) (x : A) (v : World)
            → r ≡ ok x
            → v.env ≡ e
            → Performed v (continue r f v).1
        last (ok y) x v q h = (k y).at v h
        last (err z) x v q h = cc

        moved : {w v u : World} → Leaves w v → Performed v u → Performed w u
        moved l q = record {
          action = q.action;
          demanded = q.demanded;
          from = q.from;
          same = Leaves-trans l q.same;
          db = q.db;
          sent = q.sent;
        }

    Does-env : {B : Type 0} (f : Env → M B) → Does e (f e) → Does e (get_env >>= f)
    unfolding ◌>>=◌ gets
    Does-env f k = record { at = λ w h. subst (λ x. Performed w (f x w).1) (sym h) (k.at w h) }

    call-Does :
        {A : Type 0} (status : ℕ) (encode : A → Option Value) (m : M A) (reply : Reply)
        → perform s.service p a ≡ ignore m
        → Does e (Handlers.call status encode m reply)
    unfolding Handlers.call
    call-Does status encode m reply same =
        Does-before _ _ (Does-attempt m same) (λ r. search silent_rules)

handler-Does :
    (s : Server) (p : Publisher) (e : Env) (request : Request) (route : Route) (a : Action)
    (reply : Reply)
    → is_guarded route ≡ true
    → Demand s e request route a
    → Does s p a e (handler s route request reply)
unfolding handler auth is_guarded perform Handlers.create Handlers.create_decoded Handlers.get
    Handlers.cancel Handlers.cancel_decoded Handlers.refund Handlers.refund_decoded
    Handlers.get_refund
handler-Does s p e request route a reply g (Demand.create cmd h q) =
    rw h (Does-env s p a _ (rw q (call-Does s p a 201 _ _ reply refl)))
handler-Does s p e request route a reply g (Demand.get id h) =
    rw h (call-Does s p a 200 _ _ reply refl)
handler-Does s p e request route a reply g (Demand.cancel id cmd h q) =
    rw h (Does-env s p a _ (rw q (call-Does s p a 200 _ _ reply refl)))
handler-Does s p e request route a reply g (Demand.refund id cmd h q) =
    rw h (Does-env s p a _ (rw q (call-Does s p a 201 _ _ reply refl)))
handler-Does s p e request route a reply g (Demand.get_refund id h) =
    rw h (call-Does s p a 200 _ _ reply refl)
handler-Does s p e request route a reply g (Demand.webhook c body k t b q v) = cc

dispatch-Does :
    (s : Server) (p : Publisher) (e : Env) (request : Request) (route : Route) (f : Found)
    (a : Action) (reply : Reply)
    → f ≡ found route
    → is_guarded route ≡ true
    → Demand s e request route a
    → Does s p a e (dispatch s f request reply)
unfolding dispatch
dispatch-Does s p e request route f a reply q g d =
    rw q (handler-Does s p e request route a reply g d)

-- What a request for a guarded route demands, with the service token and with a command that can be
-- read, is done: the tables and the sent requests are those that the action makes, from a world that
-- differs in time and metrics only.
pub serve_performs :
    (s : Server) (p : Publisher) (request : Request) (w : World) (route : Route) (a : Action)
    → find_route request.method request.path ≡ found route
    → is_guarded route ≡ true
    → Demand s w.env request route a
    → Performed s p a w (serve s request w).1
unfolding serve
serve_performs s p request w route a q g d = done.at w refl
  where
    done : Does s p a w.env (serve s request)
    done = Does-after s p a _ _ Silent-now Total-now (λ started.
        Does-after s p a _ _ (request_id-Silent _) (request_id-Total _) (λ request_id.
          Does-after s p a _ _ (trace-Silent _) (trace-Total _) (λ trace.
            Does-before s p a _ _ (dispatch-Does s p w.env request route _ a _ q g d)
              (λ reply. search silent_rules depth 8))))
