-- ===== src/HttpApi/Observe.antt =====
-- New of server.go: the mux, and observe around it.
use dinapay_connector_binanc.Shared.{◌-◌, Text, lit, []}
use dinapay_connector_binanc.Effects.{M, served, ◌>>=◌, ◌>>◌, pure, now, observe}
use dinapay_connector_binanc.HttpApi.Message.{
  Request, Reply, new_reply, header, set_header, http_error, page_not_found,
}
use dinapay_connector_binanc.HttpApi.Headers.{request_id_for, trace_for}
use dinapay_connector_binanc.HttpApi.Routes
use dinapay_connector_binanc.HttpApi.Routes.{
  Route, Found, found, wrong_method, nothing, find_route, pattern_of, allowed,
}
use dinapay_connector_binanc.HttpApi.Server.{
  Server, Handler, auth, internal_only, status_page, metrics_page,
}
use dinapay_connector_binanc.HttpApi.Handlers

unfoldable pub handler : Server → Route → Handler
handler s Routes.health = status_page (lit "up")
handler s Routes.ready = status_page (lit "ready")
handler s Routes.metrics = internal_only (metrics_page s.formats)
handler s Routes.capabilities = auth s Handlers.capabilities
handler s Routes.create = auth s (Handlers.create s)
handler s (Routes.get id) = auth s (Handlers.get s id)
handler s (Routes.cancel id) = auth s (Handlers.cancel s id)
handler s (Routes.refund id) = auth s (Handlers.refund s id)
handler s (Routes.get_refund id) = auth s (Handlers.get_refund s id)
handler s (Routes.webhook connection) = Handlers.receive_webhook s connection

-- The mux's ServeHTTP
unfoldable pub dispatch : Server → Found → Handler
unfolding handler
dispatch s (found route) request reply = handler s route request reply
dispatch s (wrong_method route) request reply =
    pure (http_error 405 (lit "Method Not Allowed") (set_header "Allow" (allowed route) reply))
dispatch s nothing request reply = pure (page_not_found reply)

-- request.Pattern, which the mux sets
unfoldable pub matched_pattern : Found → Text
matched_pattern (found route) = pattern_of route
matched_pattern _ = []

-- observe
unfoldable pub serve : Server → Request → M Reply
unfolding dispatch matched_pattern
serve s request = do
  started ← now
  request_id ← request_id_for (header "X-Request-Id" request)
  trace ← trace_for (header "traceparent" request)
  let route = find_route request.method request.path
  let named = set_header "X-Request-Id" request_id new_reply
  reply ← dispatch s route request (set_header "traceparent" trace named)
  finished ← now
  observe (served request.method (matched_pattern route) reply.status (finished - started))
  pure reply
