-- ===== src/HttpApi/Message.antt =====
-- Requests as net/http hands them over, and the response writer of server.go.
pub mod Lookup
use dinapay_connector_binanc.Shared.{
  ℕ, Text, String, lit, [], ◌∷◌, ◌++◌, List, Option, Bool, false, true, if◌then◌else◌,
}
use dinapay_connector_binanc.Strings.{equal_fold}

-- A request with a clean path, as its segments without the slashes and without escapes. The body is
-- what arrives of it, and the error, if any, that the connection ends with.
pub record Request : Type 0 where
  pub method : Text
  pub path : List Text
  pub headers : List (Text × Text)
  pub body : Text
  pub body_error : Option Text

-- Header.Get: names match without regard to case, the first value counts.
unfoldable pub lookup_header : Text → List (Text × Text) → Text
unfolding equal_fold
lookup_header name [] = []
lookup_header name ((n, v) ∷ rest) =
    let later = lookup_header name rest in if equal_fold n name then v else later

abbrev pub header : String → Request → Text
header name request = lookup_header (lit name) request.headers

-- statusWriter, and what it has written.
pub record Reply : Type 0 where
  pub status : ℕ
  pub wrote_header : Bool
  pub headers : List (Text × Text)
  pub body : Text

-- A response of which nothing is written, with `status: http.StatusOK`
abbrev pub new_reply : Reply
new_reply = record { status = 200; wrote_header = false; headers = []; body = [] }

unfoldable pub remove_header : Text → List (Text × Text) → List (Text × Text)
unfolding equal_fold
remove_header name [] = []
remove_header name ((n, v) ∷ rest) =
    let later = remove_header name rest in if equal_fold n name then later else (n, v) ∷ later

-- Header().Set, which has no effect after WriteHeader
unfoldable pub set_header : String → Text → Reply → Reply
unfolding remove_header
set_header name value reply =
    if reply.wrote_header
    then reply
    else record reply { headers = (lit name, value) ∷ remove_header (lit name) reply.headers }

-- WriteHeader: only the first call counts.
unfoldable pub write_header : ℕ → Reply → Reply
write_header status reply =
    if reply.wrote_header then reply else record reply { status = status; wrote_header = true }

unfoldable pub write_body : Text → Reply → Reply
write_body text reply = record reply { body = reply.body ++ text }

-- http.Error
unfoldable pub http_error : ℕ → Text → Reply → Reply
unfolding set_header write_header write_body
http_error status text reply =
    let typed = set_header "Content-Type" (lit "text/plain; charset=utf-8") reply in
    let sniffed = set_header "X-Content-Type-Options" (lit "nosniff") typed in
    write_body (text ++ lit "\n") (write_header status sniffed)

-- http.NotFound
unfoldable pub page_not_found : Reply → Reply
unfolding http_error
page_not_found = http_error 404 (lit "404 page not found")
