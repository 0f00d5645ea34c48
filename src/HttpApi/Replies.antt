-- ===== src/HttpApi/Replies.antt =====
-- The replies of the server: observe of server.go around the mux.
use mathlib.Core.Path.{subst}
use dinapay_connector_binanc.Shared.{Text, lit, ◌≡◌, refl, sym, ◌∙◌, true, false, text_beq, any}
use dinapay_connector_binanc.Strings.{equal_fold}
use dinapay_connector_binanc.Effects.{World, now}
use dinapay_connector_binanc.HttpApi.Message.{
  Request, Reply, new_reply, header, lookup_header, set_header,
}
use dinapay_connector_binanc.HttpApi.Message.Lookup.{
  lookup_header-set_header, lookup_header-set_header_same, wrote_header-set_header,
  status-set_header,
}
use dinapay_connector_binanc.HttpApi.Headers.{valid_request_id, request_id_for, trace_for}
use dinapay_connector_binanc.HttpApi.Routes.{find_route}
use dinapay_connector_binanc.HttpApi.Server.{Server}
use dinapay_connector_binanc.HttpApi.Observe.{serve, dispatch}
use dinapay_connector_binanc.HttpApi.Effect.{Silent-now}
use dinapay_connector_binanc.HttpApi.Silence.{request_id-Silent}
use dinapay_connector_binanc.HttpApi.Returns.{
  Gives, Gives-pure, Gives-bind, Gives-then, Total-now, Total-observe,
}
use dinapay_connector_binanc.HttpApi.Answers.{IsStatus, IsAnswer}
use dinapay_connector_binanc.HttpApi.Answers.Routed.{dispatch-Gives}
use dinapay_connector_binanc.HttpApi.Identifiers.{IsRandom, request_id-Gives}
use dinapay_connector_binanc.HttpApi.Traces.{IsTrace, trace_for-Gives}

-- What the reply to a request says: a status of the interface, and the two identifiers, which are the
-- request's own where those are valid.
pub record IsReply (request : Request) (reply : Reply) : Type 0 where
  pub status : IsStatus reply.status
  pub id_valid : valid_request_id (lookup_header (lit "X-Request-Id") reply.headers) ≡ true
  pub id_kept :
      valid_request_id (header "X-Request-Id" request) ≡ true
      → lookup_header (lit "X-Request-Id") reply.headers ≡ header "X-Request-Id" request
  pub trace :
      IsTrace (header "traceparent" request) (lookup_header (lit "traceparent") reply.headers)

other_header : equal_fold (lit "traceparent") (lit "X-Request-Id") ≡ false
unfolding equal_fold lit text_beq
other_header = refl

-- The headers that observe sets.
abbrev pub identified : Text → Text → Reply
identified id trace = set_header "traceparent" trace (set_header "X-Request-Id" id new_reply)

pub identified-fresh : (id trace : Text) → (identified id trace).wrote_header ≡ false
identified-fresh id trace =
    wrote_header-set_header "traceparent" trace (set_header "X-Request-Id" id new_reply)
    ∙ wrote_header-set_header "X-Request-Id" id new_reply

identified-status : (id trace : Text) → (identified id trace).status ≡ 200
identified-status id trace =
    status-set_header "traceparent" trace (set_header "X-Request-Id" id new_reply)
    ∙ status-set_header "X-Request-Id" id new_reply

identified-id :
    (id trace : Text) → lookup_header (lit "X-Request-Id") (identified id trace).headers ≡ id
identified-id id trace =
    lookup_header-set_header _ "traceparent" trace (set_header "X-Request-Id" id new_reply)
      other_header
    ∙ lookup_header-set_header_same "X-Request-Id" id new_reply refl

identified-trace :
    (id trace : Text) → lookup_header (lit "traceparent") (identified id trace).headers ≡ trace
identified-trace id trace =
    lookup_header-set_header_same "traceparent" trace (set_header "X-Request-Id" id new_reply)
      (wrote_header-set_header "X-Request-Id" id new_reply)

answer-IsReply :
    (request : Request) (id trace : Text) (reply : Reply)
    → (valid_request_id id ≡ true)
      × (valid_request_id (header "X-Request-Id" request) ≡ true
          → id ≡ header "X-Request-Id" request)
    → IsTrace (header "traceparent" request) trace
    → IsAnswer (identified id trace) reply
    → IsReply request reply
answer-IsReply request id trace reply (valid, kept) t a =
    let same_id = a.request_id ∙ identified-id id trace in
    let same_trace = a.traceparent ∙ identified-trace id trace in
    record {
      status = a.status;
      id_valid = subst (λ x. valid_request_id x ≡ true) (sym same_id) valid;
      id_kept = λ h. same_id ∙ kept h;
      trace = subst (IsTrace (header "traceparent" request)) (sym same_trace) t;
    }

-- The reply is what the mux makes of the headers.
pub serve-Gives :
    {P : Reply → Type 0} {Q R : Text → Type 0} (s : Server) (request : Request) (w : World)
    → Gives (now w).1 (request_id_for (header "X-Request-Id" request)) Q
    → Gives
        (request_id_for (header "X-Request-Id" request) (now w).1).1
        (trace_for (header "traceparent" request))
        R
    → ((id trace : Text) (v : World)
        → Q id
        → R trace
        → Gives v
            (dispatch s (find_route request.method request.path) request (identified id trace))
            P)
    → Gives w (serve s request) P
unfolding serve
serve-Gives s request w hid htrace k = Gives-then w _ _ Total-now (λ started.
    Gives-bind (now w).1 _ _ hid (λ id i. Gives-bind _ _ _ htrace (λ trace t.
      Gives-bind _ _ _ (k id trace _ i t) (λ reply a.
        Gives-then _ _ _ Total-now
          (λ finished. Gives-then _ _ _ (Total-observe _) (λ u. Gives-pure _ _ a))))))

-- Every request is answered, whatever the service, the provider and the database do: with one of eight
-- status codes, and with a valid request identifier and a traceparent of the right form, which are those
-- of the request where they are valid, provided the random source gives as many bytes as it is asked for.
pub serve_answers :
    (s : Server) (request : Request) (w : World)
    → IsRandom w.env
    → Gives w (serve s request) (IsReply request)
unfolding any
serve_answers s request w h =
    let later : IsRandom (now w).1.env = subst IsRandom (sym (Silent-now.at w).env) h in
    let last = subst IsRandom (sym ((request_id-Silent _).at (now w).1).env) later in
    serve-Gives s request w (request_id-Gives (now w).1 (header "X-Request-Id" request) later)
      (trace_for-Gives _ (header "traceparent" request) last)
      (λ id trace v i t.
        let a =
          dispatch-Gives s request (identified id trace) _ v (identified-fresh id trace)
            (subst IsStatus (sym (identified-status id trace)) refl) in
        record {
          value = a.value;
          returned = a.returned;
          holds = answer-IsReply request id trace a.value i t a.holds;
        })
