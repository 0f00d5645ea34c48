-- ===== src/HttpApi/Traces.antt =====
-- The traceparent that observe of server.go gives to a request.
use mathlib.Core.Path.{subst}
use mathlib.Core.List.{append_assoc}
use dinapay_connector_binanc.Shared.{
  ℕ, zero, suc, ◌+◌, Text, lit, [], ◌∷◌, ◌++◌, List, length, get_elem?, some, ◌≡◌, refl, sym, ◌∙◌,
  ap, Bool, true, ◌&&◌, ◌==◌, nat_eq, arith,
}
use dinapay_connector_binanc.Effects.{World, pure}
use dinapay_connector_binanc.HttpApi.Silence.{random_hex-Silent}
use dinapay_connector_binanc.HttpApi.Headers.{
  valid_traceparent, is_hex_byte, all, dash_at, hex_from, new_trace, trace_for,
}
use dinapay_connector_binanc.HttpApi.Identifiers.{IsRandom, IsHex, random_hex-IsHex}
use dinapay_connector_binanc.HttpApi.Returns.{Gives, Gives-pure, Gives-if, Gives-bind}

-- What validTraceparent asks for but that the identifiers are not zero.
unfoldable pub has_trace_shape : Text → Bool
has_trace_shape t = length t == 55 && dash_at 2 t && dash_at 35 t && dash_at 52 t && hex_from 0 t

module _ {A : Type 0} where
  length-append : (xs ys : List A) → length (xs ++ ys) ≡ length xs + length ys
  length-append [] ys = omega arith
  length-append (x ∷ xs) ys = let later = length-append xs ys in omega arith

  get_elem?-append :
      (xs ys : List A) (n i m : ℕ)
      → length xs ≡ n
      → n + i ≡ m
      → get_elem? (xs ++ ys) m ≡ get_elem? ys i
  get_elem?-append [] ys n i m h k = ap (get_elem? ys) (omega arith)
  get_elem?-append (x ∷ xs) ys n i zero h k = absurd (omega arith)
  get_elem?-append (x ∷ xs) ys zero i (suc m) h k = absurd (omega arith)
  get_elem?-append (x ∷ xs) ys (suc n) i (suc m) h k =
      get_elem?-append xs ys n i m (omega arith) (omega arith)

hex_from-append :
    (s t : Text) (k n : ℕ)
    → all is_hex_byte s ≡ true
    → k + length s ≡ n
    → hex_from k (s ++ t) ≡ hex_from n t
unfolding hex_from all
hex_from-append [] t k n h e = ap (λ i. hex_from i t) (omega arith)
hex_from-append (c ∷ s) t k n h e = let later = hex_from-append s t (suc k) n in ground arith

hex_of_trace :
    (a b : Text)
    → IsHex 16 a
    → IsHex 8 b
    → hex_from 0 (b'0' ∷ b'0' ∷ b'-' ∷ (a ++ b'-' ∷ (b ++ b'-' ∷ b'0' ∷ b'1' ∷ []))) ≡ true
unfolding hex_from is_hex_byte
hex_of_trace a b ha hb =
    let sa : length a ≡ 32 = ha.size in
    let sb : length b ≡ 16 = hb.size in
    hex_from-append a _ 3 35 ha.digits (omega arith)
    ∙ hex_from-append b _ 36 52 hb.digits (omega arith)

is_dash : (t : Text) (i : ℕ) → get_elem? t i ≡ some b'-' → dash_at i t ≡ true
unfolding dash_at
is_dash t i h = rw h refl

shape_of :
    (t : Text)
    → length t ≡ 55
    → dash_at 2 t ≡ true
    → dash_at 35 t ≡ true
    → dash_at 52 t ≡ true
    → hex_from 0 t ≡ true
    → has_trace_shape t ≡ true
unfolding has_trace_shape
shape_of t size first second third digits = rw (size, first, second, third, digits) refl

as_bytes :
    (a b : Text)
    → lit "00-" ++ a ++ lit "-" ++ b ++ lit "-01"
      ≡ b'0' ∷ b'0' ∷ b'-' ∷ (a ++ b'-' ∷ (b ++ b'-' ∷ b'0' ∷ b'1' ∷ []))
unfolding lit
as_bytes a b = simp append_assoc

trace_shape :
    (a b : Text)
    → IsHex 16 a
    → IsHex 8 b
    → has_trace_shape (lit "00-" ++ a ++ lit "-" ++ b ++ lit "-01") ≡ true
trace_shape a b ha hb =
    let last : Text = b'-' ∷ b'0' ∷ b'1' ∷ [] in
    let middle : Text = b'-' ∷ (b ++ last) in
    let t : Text = b'0' ∷ b'0' ∷ b'-' ∷ (a ++ middle) in
    let sa : length a ≡ 32 = ha.size in
    let sb : length b ≡ 16 = hb.size in
    let la = length-append a middle in
    let lb = length-append b last in
    let size : length t ≡ 55 = omega arith in
    let first : dash_at 2 t ≡ true = is_dash t 2 refl in
    let second : dash_at 35 t ≡ true = is_dash t 35 (get_elem?-append a middle 32 0 32 sa refl) in
    let third : dash_at 52 t ≡ true =
      is_dash t 52
        (get_elem?-append a middle 32 17 49 sa refl ∙ get_elem?-append b last 16 0 16 sb refl) in
    let digits : hex_from 0 t ≡ true = hex_of_trace a b ha hb in
    subst (λ s. has_trace_shape s ≡ true) (sym (as_bytes a b))
      (shape_of t size first second third digits)

valid_shape : (t : Text) → valid_traceparent t ≡ true → has_trace_shape t ≡ true
unfolding valid_traceparent has_trace_shape
valid_shape t h = ground arith

-- The trace is the request's own if that is valid, and else one that is valid unless the random
-- identifiers are zero.
pub IsTrace : Text → Text → Type 0
IsTrace given t = (valid_traceparent given ≡ true → t ≡ given) × (has_trace_shape t ≡ true)

pub trace_for-Gives :
    (w : World) (given : Text) → IsRandom w.env → Gives w (trace_for given) (IsTrace given)
unfolding trace_for new_trace IsTrace
trace_for-Gives w given h =
    Gives-if w (valid_traceparent given) (pure given) new_trace
      (λ v. Gives-pure w given (λ _. refl, valid_shape given v))
      (λ v. Gives-bind w _ _ (random_hex-IsHex w 16 h) (λ a ha.
        Gives-bind _ _ _
          (random_hex-IsHex _ 8 (subst IsRandom (sym ((random_hex-Silent 16).at w).env) h))
          (λ b hb. Gives-pure _ _ (λ t. cc, trace_shape a b ha hb))))
