-- ===== src/HttpApi/Silence.antt =====
-- The parts of the handlers of server.go that only read and write their request.
use dinapay_connector_binanc.Shared.{ℕ, Text, Bool}
use dinapay_connector_binanc.Core.Error.{Error, Result, ok, err, not_found, conflict, message}
use dinapay_connector_binanc.Core.Value.{Value}
use dinapay_connector_binanc.Metrics.Exposition.{Formats}
use dinapay_connector_binanc.HttpApi.Message.{Request, Reply}
use dinapay_connector_binanc.HttpApi.Headers
use dinapay_connector_binanc.HttpApi.Server
use dinapay_connector_binanc.HttpApi.Handlers
use dinapay_connector_binanc.HttpApi.Effect.{Silent, silent_rules}

pub invalid-Silent : (x : Error) (reply : Reply) → Silent (Handlers.invalid_request x reply)
unfolding Handlers.invalid_request
invalid-Silent x reply = search silent_rules

pub refuse-Silent :
    (status : ℕ) (code : Text) (x : Error) (reply : Reply)
    → Silent (Handlers.refuse_webhook status code x reply)
unfolding Handlers.refuse_webhook
refuse-Silent status code x reply = search silent_rules depth 8

pub accept-Silent : (reply : Reply) → Silent (Handlers.accept_webhook reply)
unfolding Handlers.accept_webhook
accept-Silent reply = search silent_rules depth 8

pub after_handling-Silent :
    (r : Result Bool) (reply : Reply) → Silent (Handlers.after_handling r reply)
unfolding Handlers.after_handling
after_handling-Silent (ok b) reply = accept-Silent reply
after_handling-Silent (err not_found) reply = accept-Silent reply
after_handling-Silent (err conflict) reply = refuse-Silent _ _ _ reply
after_handling-Silent (err (message m)) reply = refuse-Silent _ _ _ reply

pub page-Silent :
    (v : Value) (request : Request) (reply : Reply) → Silent (Server.page v request reply)
unfolding Server.page
page-Silent v request reply = search silent_rules

pub status_page-Silent :
    (text : Text) (request : Request) (reply : Reply)
    → Silent (Server.status_page text request reply)
unfolding Server.status_page
status_page-Silent text request reply = page-Silent _ request reply

pub metrics-Silent :
    (formats : Formats) (request : Request) (reply : Reply)
    → Silent (Server.internal_only (Server.metrics_page formats) request reply)
unfolding Server.internal_only Server.metrics_page
metrics-Silent formats request reply = search silent_rules

pub capabilities-Silent :
    (request : Request) (reply : Reply) → Silent (Handlers.capabilities request reply)
unfolding Handlers.capabilities
capabilities-Silent request reply = page-Silent _ request reply

pub random_hex-Silent : (n : ℕ) → Silent (Headers.random_hex n)
unfolding Headers.random_hex
random_hex-Silent n = search silent_rules

pub request_id-Silent : (given : Text) → Silent (Headers.request_id_for given)
unfolding Headers.request_id_for
request_id-Silent given = search (silent_rules, random_hex-Silent)

pub trace-Silent : (given : Text) → Silent (Headers.trace_for given)
unfolding Headers.trace_for Headers.new_trace
trace-Silent given = search (silent_rules, random_hex-Silent) depth 8
