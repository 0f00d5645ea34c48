-- ===== src/BinancePay/Webhook/Verified.antt =====
-- What VerifyWebhook accepts.
use mathlib.Core.Path.{subst}
use mathlib.Core.List.{append_assoc}
use dinapay_connector_binanc.Shared.{
  ◌+◌, ◌*◌, ◌≤◌, Text, lit, ◌≡◌, ◌≢◌, ◌↔◌, refl, sym, false, Option, none, some, [], ◌∷◌, ◌++◌,
  arith, text_beq_iff,
}
use dinapay_connector_binanc.Shared.Int.{ℤ, pos, negsuc}
use dinapay_connector_binanc.Strings.{to_upper, trim_space}
use dinapay_connector_binanc.Strings.Numbers.{parse_int, hex}
use dinapay_connector_binanc.Core.Error.{Result, ok}
use dinapay_connector_binanc.Core.Value.{Time}
use dinapay_connector_binanc.BinancePay.Client.{sign, signed_payload}
use dinapay_connector_binanc.BinancePay.Webhook.Rsa.{Crypto, verify_rsa}
use dinapay_connector_binanc.BinancePay.Webhook.{
  is_stale, verify_hmac, verify_fresh, verify_webhook,
}

-- The instant of a Unix time in milliseconds is at most five minutes before `now`, and at most five
-- minutes after it. The Unix epoch is 62135596800 seconds after the zero of `Time`.
abbrev pub IsFresh : Time → ℤ → Type 0
IsFresh now (pos ms) =
    (now ≤ 62_135_596_800_000_000_000 + ms * 1_000_000 + 300_000_000_000)
    × (62_135_596_800_000_000_000 + ms * 1_000_000 ≤ now + 300_000_000_000)
IsFresh now (negsuc ms) =
    (now + (ms + 1) * 1_000_000 ≤ 62_135_596_800_000_000_000 + 300_000_000_000)
    × (62_135_596_800_000_000_000 ≤ now + (ms + 1) * 1_000_000 + 300_000_000_000)

-- What is checked of a webhook that is signed with the shared secret: the header with the time stamp
-- is a number of milliseconds that is fresh, there is a secret, and the signature is the HMAC under it
-- of three lines, each with its line feed.
abbrev pub IsVerified :
    (Text → Text → Text) → (timestamp nonce body signature secret : Text) → Time → Type 0
IsVerified hmac_sha512 timestamp nonce body signature secret now =
    ((millis : ℤ) × (parse_int timestamp ≡ some millis) × IsFresh now millis)
    × (secret ≢ [])
    × (to_upper signature
        ≡ to_upper (
            hex (
              hmac_sha512 secret (timestamp ++ lit "\n" ++ nonce ++ lit "\n" ++ body ++ lit "\n"))))

is_stale-IsFresh : (now : Time) (millis : ℤ) → (is_stale now millis ≡ false) ↔ IsFresh now millis
unfolding is_stale
is_stale-IsFresh now (pos ms) = (λ h. (ground arith, ground arith), λ (a, b). ground arith)
is_stale-IsFresh now (negsuc ms) = (λ h. (ground arith, ground arith), λ (a, b). ground arith)

lines :
    (timestamp nonce body : Text)
    → signed_payload timestamp nonce body
      ≡ timestamp ++ lit "\n" ++ nonce ++ lit "\n" ++ body ++ lit "\n"
unfolding signed_payload lit
lines timestamp nonce body =
    rw
      (
        append_assoc timestamp (10 ∷ []) nonce,
        append_assoc (timestamp ++ (10 ∷ nonce)) (10 ∷ []) body,
      )
      refl

module _ (hmac_sha512 : Text → Text → Text)
    (check_rsa : Text → Text → Text → Result (Unit {0})) where
  verify_hmac-accepts :
      (payload signature secret : Text)
      → (verify_hmac hmac_sha512 payload signature secret ≡ ok tt)
        ↔ ((secret ≢ []) × (to_upper signature ≡ to_upper (hex (hmac_sha512 secret payload))))
  unfolding verify_hmac sign
  verify_hmac-accepts payload signature secret =
      let empty = text_beq_iff secret [] in
      let equal = text_beq_iff (to_upper signature) (to_upper (hex (hmac_sha512 secret payload))) in
      (λ h. ground (arith, empty, equal), λ h. ground (arith, empty, equal))

  -- Without a public key, a time stamp that is read is compared, and then the signature is.
  verify_fresh-some :
      (payload signature secret key : Text) (now : Time) (millis : ℤ)
      → trim_space key ≡ []
      → (verify_fresh hmac_sha512 check_rsa now (some millis) payload signature secret key ≡ ok tt)
        ↔ ((is_stale now millis ≡ false)
            × (verify_hmac hmac_sha512 payload signature secret ≡ ok tt))
  unfolding verify_fresh
  verify_fresh-some payload signature secret key now millis blank =
      let no_key = text_beq_iff (trim_space key) [] in
      (λ h. ground (arith, no_key), λ h. ground (arith, no_key))

  verify_fresh-accepts :
      (payload signature secret key : Text) (now : Time) (stamp : Option ℤ)
      → trim_space key ≡ []
      → (verify_fresh hmac_sha512 check_rsa now stamp payload signature secret key ≡ ok tt) ↔ (
          ((millis : ℤ) × (stamp ≡ some millis) × IsFresh now millis)
          × (secret ≢ [])
          × (to_upper signature ≡ to_upper (hex (hmac_sha512 secret payload))))
  unfolding verify_fresh
  verify_fresh-accepts payload signature secret key now none blank = (λ h. cc, λ h. cc (h.0.1))
  verify_fresh-accepts payload signature secret key now (some millis) blank =
      let fresh = verify_fresh-some payload signature secret key now millis blank in
      let signed = verify_hmac-accepts payload signature secret in
      let young = is_stale-IsFresh now millis in
      (
        λ h.
            let (some_secret, equal) = signed.0 (fresh.0 h).1 in
            ((millis, refl, young.0 (fresh.0 h).0), some_secret, equal),
        λ ((x, same, recent), some_secret, equal).
            let e : x ≡ millis = cc in
            fresh.1 (young.1 (subst (IsFresh now) e recent), signed.1 (some_secret, equal)),
      )

-- A webhook of a connection without a public key is accepted if and only if its time stamp is a
-- number of milliseconds at most five minutes before and at most five minutes after the clock, the
-- connection has a secret, and the signature is, in any case, the hexadecimal HMAC under the secret of
-- the time stamp, the nonce and the body, each followed by a line feed.
pub verify_webhook-IsVerified :
    (hmac_sha512 : Text → Text → Text) (crypto : Crypto)
    (timestamp nonce signature body hmac_secret public_key : Text) (now : Time)
    → trim_space public_key ≡ []
    → (verify_webhook hmac_sha512 crypto timestamp nonce signature body hmac_secret public_key now
        ≡ ok tt)
      ↔ IsVerified hmac_sha512 timestamp nonce body signature hmac_secret now
unfolding verify_webhook
verify_webhook-IsVerified hmac_sha512 crypto timestamp nonce signature body hmac_secret public_key
      now blank =
    rw (sym (lines timestamp nonce body)) (
      verify_fresh-accepts hmac_sha512 (verify_rsa crypto) (signed_payload timestamp nonce body)
        signature hmac_secret public_key now (parse_int timestamp) blank)
