-- ===== src/BinancePay/Webhook/Rsa.antt =====
-- verifyRSA of internal/binancepay/webhook.go, over the packages that it calls.
use dinapay_connector_binanc.Shared.{
  Text, lit, [], ◌∷◌, Option, none, some, Bool, true, false, ◌++◌, ℕ, ◌==◌, nat_eq, if◌then◌else◌,
}
use dinapay_connector_binanc.Strings.{trim_space}
use dinapay_connector_binanc.Core.Error.{Result, ok, err, message}

-- What verifyRSA uses of Go's packages. A key stands for its bytes.
pub record Crypto : Type 0 where
  -- the bytes of the first block
  pub pem_decode : Text → Option Text
  -- the key, if it is one for RSA
  pub parse_public_key : Text → Result (Option Text)
  -- StdEncoding, RawStdEncoding, URLEncoding and RawURLEncoding
  pub base64_std : Text → Result Text
  pub base64_raw_std : Text → Result Text
  pub base64_url : Text → Result Text
  pub base64_raw_url : Text → Result Text
  pub decode_hex : Text → Result Text
  pub sha256 : Text → Text
  -- of a key, a digest and a signature
  pub verify_pkcs1v15 : Text → Text → Text → Bool

-- What stands for a byte after a backslash that is held back, or after none; a backslash is held
-- back itself.
plain_byte : ℕ → Text
plain_byte c = if c == 92 then [] else c ∷ []

next_bytes : Bool → ℕ → Text
unfolding plain_byte
next_bytes true c = if c == b'n' then 10 ∷ [] else 92 ∷ plain_byte c
next_bytes false c = plain_byte c

unescape_from : Bool → Text → Text
unfolding next_bytes
unescape_from held [] = if held then 92 ∷ [] else []
unescape_from held (c ∷ s) = next_bytes held c ++ unescape_from (c == 92) s

-- strings.ReplaceAll(keyText, `\n`, "\n")
unfoldable pub unescape_newlines : Text → Text
unfolding unescape_from
unescape_newlines = unescape_from false

-- The first encoding that decodes the signature.
or_else : Result Text → Result Text → Result Text
or_else (ok bytes) other = ok bytes
or_else (err e) other = other

decode_signature : Crypto → Text → Result Text
unfolding or_else
decode_signature c signature = or_else (c.base64_std signature) (
    or_else (c.base64_raw_std signature) (
      or_else (c.base64_url signature)
        (or_else (c.base64_raw_url signature) (c.decode_hex signature))))

check_signature : Crypto → Text → Text → Result Text → Result (Unit {0})
check_signature c payload key (err e) = err e
check_signature c payload key (ok bytes) =
    if c.verify_pkcs1v15 key (c.sha256 payload) bytes
    then ok tt
    else err (message (lit "invalid signature"))

with_key : Crypto → Text → Text → Result (Option Text) → Result (Unit {0})
unfolding check_signature decode_signature
with_key c payload signature (err e) = err e
with_key c payload signature (ok none) = err (message (lit "public key is not RSA"))
with_key c payload signature (ok (some key)) =
    check_signature c payload key (decode_signature c (trim_space signature))

with_block : Crypto → Text → Text → Option Text → Result (Unit {0})
unfolding with_key
with_block c payload signature none = err (message (lit "invalid public key"))
with_block c payload signature (some bytes) =
    with_key c payload signature (c.parse_public_key bytes)

unfoldable pub verify_rsa : Crypto → Text → Text → Text → Result (Unit {0})
unfolding with_block unescape_newlines
verify_rsa c payload signature key_text =
    with_block c payload signature (c.pem_decode (unescape_newlines key_text))
