-- ===== src/HttpApi/Headers.antt =====
-- The request identifier and the trace of a request: validRequestID, validTraceparent and randomHex
-- of server.go.
use dinapay_connector_binanc.Shared.{
  ℕ, suc, Text, lit, [], ◌∷◌, ◌++◌, take, drop, replicate, get_elem?, length, Option, none, some,
  Bool, true, false, not, ◌&&◌, ◌||◌, ◌==◌, nat_eq, text_eq, leb, ltb, if◌then◌else◌,
}
use dinapay_connector_binanc.Strings.Numbers.{hex}
use dinapay_connector_binanc.Core.Error.{Result, ok, err}
use dinapay_connector_binanc.Effects.{M, ◌>>=◌, pure, attempt, random_bytes}

within : ℕ → ℕ → ℕ → Bool
within low high c = leb low c && leb c high

unfoldable pub is_id_byte : ℕ → Bool
unfolding within
is_id_byte c =
    within b'a' b'z' c
    || within b'A' b'Z' c
    || within b'0' b'9' c
    || c == b'-'
    || c == b'_'
    || c == b'.'

unfoldable pub is_hex_byte : ℕ → Bool
unfolding within
is_hex_byte c = within b'0' b'9' c || within b'a' b'f' c

unfoldable pub all : (ℕ → Bool) → Text → Bool
all p [] = true
all p (c ∷ s) = p c && all p s

-- The loop over the runes of a text, of which a byte above 127 is never accepted.
unfoldable pub valid_request_id : Text → Bool
unfolding all is_id_byte
valid_request_id value =
    if value == [] || ltb 128 (length value) then false else all is_id_byte value

unfoldable pub dash_at : ℕ → Text → Bool
dash_at i value = is_dash (get_elem? value i)
  where
    is_dash : Option ℕ → Bool
    is_dash none = false
    is_dash (some c) = c == b'-'

-- The loop over the runes from position `i` on
unfoldable pub hex_from : ℕ → Text → Bool
unfolding is_hex_byte
hex_from i [] = true
hex_from i (c ∷ s) = (i == 2 || i == 35 || i == 52 || is_hex_byte c) && hex_from (suc i) s

unfoldable pub valid_traceparent : Text → Bool
unfolding dash_at hex_from
valid_traceparent value =
    if not (length value == 55)
      || not (dash_at 2 value)
      || not (dash_at 35 value)
      || not (dash_at 52 value)
    then false
    else if not (hex_from 0 value)
    then false
    else not (take 32 (drop 3 value) == replicate 32 b'0')
      && not (take 16 (drop 36 value) == replicate 16 b'0')

-- What randomHex prints: the bytes stay zero where there are no random ones.
unfoldable pub hex_or_zeros : ℕ → Result Text → Text
unfolding hex
hex_or_zeros size (ok bytes) = hex bytes
hex_or_zeros size (err e) = hex (replicate size 0)

unfoldable pub random_hex : ℕ → M Text
unfolding hex_or_zeros
random_hex size = do bytes ← attempt (random_bytes size); pure (hex_or_zeros size bytes)

-- The request's own identifier, or a new one
unfoldable pub request_id_for : Text → M Text
unfolding valid_request_id random_hex
request_id_for given = if valid_request_id given then pure given else random_hex 16

unfoldable pub new_trace : M Text
unfolding random_hex
new_trace = do
  trace ← random_hex 16
  span ← random_hex 8
  pure (lit "00-" ++ trace ++ lit "-" ++ span ++ lit "-01")

unfoldable pub trace_for : Text → M Text
unfolding valid_traceparent new_trace
trace_for given = if valid_traceparent given then pure given else new_trace
