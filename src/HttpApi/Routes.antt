-- ===== src/HttpApi/Routes.antt =====
-- The patterns that New of server.go registers, and the mux of net/http that matches them.
use dinapay_connector_binanc.Shared.{
  Text, lit, [], ◌∷◌, List, Option, none, some, Bool, true, false, ◌&&◌, ◌||◌, not, ◌==◌, text_eq,
  if◌then◌else◌,
}

-- One constructor for each pattern, with the value of its wildcard.
pub data Route : Type 0 where
  health ready metrics capabilities create : Route
  get cancel refund get_refund webhook : Text → Route

-- The pattern of a route, as request.Pattern has it
unfoldable pub pattern_of : Route → Text
pattern_of health = lit "GET /health"
pattern_of ready = lit "GET /ready"
pattern_of metrics = lit "GET /metrics"
pattern_of capabilities = lit "GET /v1/capabilities"
pattern_of create = lit "POST /v1/payments"
pattern_of (get id) = lit "GET /v1/payments/{providerPaymentId}"
pattern_of (cancel id) = lit "POST /v1/payments/{providerPaymentId}/cancel"
pattern_of (refund id) = lit "POST /v1/payments/{providerPaymentId}/refunds"
pattern_of (get_refund id) = lit "GET /v1/refunds/{providerRefundId}"
pattern_of (webhook id) = lit "POST /webhooks/binancepay/{connectionId}"

unfoldable pub is_post : Route → Bool
is_post create = true
is_post (cancel id) = true
is_post (refund id) = true
is_post (webhook id) = true
is_post _ = false

-- A wildcard does not match an empty segment.
filled : (Text → Route) → Text → Option Route
filled route [] = none
filled route (c ∷ id) = some (route (c ∷ id))

only_if : Bool → Option Route → Option Route
only_if b o = if b then o else none

-- The route of a path, whatever the method.
unfoldable pub route_of : List Text → Option Route
unfolding filled only_if
route_of (a ∷ []) =
    if a == lit "health"
    then some health
    else if a == lit "ready"
    then some ready
    else only_if (a == lit "metrics") (some metrics)
route_of (a ∷ b ∷ []) =
    if a == lit "v1" && b == lit "capabilities"
    then some capabilities
    else only_if (a == lit "v1" && b == lit "payments") (some create)
route_of (a ∷ b ∷ c ∷ []) =
    if a == lit "v1" && b == lit "payments"
    then filled get c
    else if a == lit "v1" && b == lit "refunds"
    then filled get_refund c
    else only_if (a == lit "webhooks" && b == lit "binancepay") (filled webhook c)
route_of (a ∷ b ∷ c ∷ d ∷ []) =
    if not (a == lit "v1" && b == lit "payments")
    then none
    else if d == lit "cancel"
    then filled cancel c
    else only_if (d == lit "refunds") (filled refund c)
route_of _ = none

-- A GET pattern matches HEAD, too.
unfoldable pub allows : Route → Text → Bool
unfolding is_post
allows route method =
    if is_post route then method == lit "POST" else method == lit "GET" || method == lit "HEAD"

-- The methods of the Allow header
unfoldable pub allowed : Route → Text
unfolding is_post
allowed route = if is_post route then lit "POST" else lit "GET, HEAD"

-- What the mux finds.
pub data Found : Type 0 where
  found : Route → Found
  wrong_method : Route → Found
  nothing : Found

match_method : Text → Option Route → Found
unfolding allows
match_method method none = nothing
match_method method (some route) = if allows route method then found route else wrong_method route

unfoldable pub find_route : Text → List Text → Found
unfolding route_of match_method
find_route method path = match_method method (route_of path)
