-- ===== src/HttpApi/Identifiers.antt =====
-- The identifiers that observe of server.go gives to a request.
use dinapay_connector_binanc.Shared.{
  ℕ, zero, suc, ◌*◌, ◌/◌, ◌%◌, ◌<◌, Text, [], ◌∷◌, length, replicate, ◌≡◌, refl, ◌∙◌, ap, true,
  text_beq, arith,
}
use dinapay_connector_binanc.Strings.Numbers.{hex, hex_digit}
use dinapay_connector_binanc.Core.Error.{Result, ok, err}
use dinapay_connector_binanc.Effects.{Env, World, ◌>>=◌, pure, attempt, random_bytes}
use dinapay_connector_binanc.HttpApi.Headers.{
  valid_request_id, is_id_byte, is_hex_byte, all, hex_or_zeros, random_hex, request_id_for,
}
use dinapay_connector_binanc.HttpApi.Returns.{Gives, Gives-pure, Gives-if}

unfoldable pub AllBytes : Text → Type 0
AllBytes [] = Unit
AllBytes (b ∷ s) = (b < 256) × AllBytes s

-- crypto/rand: as many bytes as are asked for.
pub record IsRandom (e : Env) : Type 0 where
  pub size : (step size : ℕ) (bytes : Text) → e.random step size ≡ ok bytes → length bytes ≡ size
  pub bytes : (step size : ℕ) (bytes : Text) → e.random step size ≡ ok bytes → AllBytes bytes

length-hex : (bytes : Text) → length (hex bytes) ≡ 2 * length bytes
unfolding hex
length-hex [] = refl
length-hex (b ∷ bytes) = let later = length-hex bytes in omega arith

hex_digit-IsHex : (n : ℕ) → n < 16 → is_hex_byte (hex_digit n) ≡ true
unfolding hex_digit is_hex_byte
hex_digit-IsHex n h = ground arith

all-hex : (bytes : Text) → AllBytes bytes → all is_hex_byte (hex bytes) ≡ true
unfolding hex all AllBytes
all-hex [] h = refl
all-hex (b ∷ bytes) (small, h) = ground (
  arith,
  hex_digit-IsHex (b / 16) (omega arith),
  hex_digit-IsHex (b % 16) (omega arith),
  all-hex bytes h,
)

replicate-AllBytes : (n : ℕ) → AllBytes (replicate n 0)
unfolding AllBytes
replicate-AllBytes zero = tt
replicate-AllBytes (suc n) = (omega arith, replicate-AllBytes n)

length-replicate : (n b : ℕ) → length (replicate n b) ≡ n
length-replicate zero b = refl
length-replicate (suc n) b = ap suc (length-replicate n b)

-- A text of two hexadecimal digits for each of `n` bytes.
pub record IsHex (n : ℕ) (s : Text) : Type 0 where
  pub size : length s ≡ 2 * n
  pub digits : all is_hex_byte s ≡ true

hex_or_zeros-IsHex :
    (e : Env) (step n : ℕ) → IsRandom e → IsHex n (hex_or_zeros n (e.random step n))
unfolding hex_or_zeros
hex_or_zeros-IsHex e step n h = printed (e.random step n) refl
  where
    printed : (r : Result Text) → e.random step n ≡ r → IsHex n (hex_or_zeros n r)
    printed (ok bytes) q = record {
      size = length-hex bytes ∙ ap (λ m. 2 * m) (h.size step n bytes q);
      digits = all-hex bytes (h.bytes step n bytes q);
    }
    printed (err x) q = record {
      size = length-hex (replicate n 0) ∙ ap (λ m. 2 * m) (length-replicate n 0);
      digits = all-hex (replicate n 0) (replicate-AllBytes n);
    }

pub random_hex-IsHex : (w : World) (n : ℕ) → IsRandom w.env → Gives w (random_hex n) (IsHex n)
unfolding random_hex random_bytes attempt pure ◌>>=◌
random_hex-IsHex w n h = record {
  value = hex_or_zeros n (w.env.random w.step n);
  returned = refl;
  holds = hex_or_zeros-IsHex w.env w.step n h;
}

hex-is_id : (c : ℕ) → is_hex_byte c ≡ true → is_id_byte c ≡ true
unfolding is_hex_byte is_id_byte
hex-is_id c h = ground arith

all_hex-is_id : (s : Text) → all is_hex_byte s ≡ true → all is_id_byte s ≡ true
unfolding all
all_hex-is_id [] h = refl
all_hex-is_id (c ∷ s) h = ground (arith, hex-is_id c, all_hex-is_id s)

new_id-IsValid : (s : Text) → IsHex 16 s → valid_request_id s ≡ true
unfolding valid_request_id text_beq
new_id-IsValid [] h = let e = h.size in absurd (omega arith)
new_id-IsValid (c ∷ s) h =
    let size : length (c ∷ s) ≡ 32 = h.size in
    let digits = all_hex-is_id (c ∷ s) h.digits in ground arith

-- The identifier is valid, and the request's own if that is.
pub request_id-Gives :
    (w : World) (given : Text)
    → IsRandom w.env
    → Gives w
        (request_id_for given)
        (λ id. (valid_request_id id ≡ true) × (valid_request_id given ≡ true → id ≡ given))
unfolding request_id_for
request_id-Gives w given h =
    Gives-if w (valid_request_id given) (pure given) (random_hex 16)
      (λ v. Gives-pure w given (v, λ _. refl))
      (λ v.
        let r = random_hex-IsHex w 16 h in
        record {
          value = r.value;
          returned = r.returned;
          holds = (new_id-IsValid r.value r.holds, λ t. cc);
        })
