-- ===== src/Strings.antt =====
-- What the program uses of Go's package strings, on ASCII text: no byte above 127 has a case or is
-- a space here.
pub mod Numbers
pub mod Rational
use dinapay_connector_binanc.Shared.{
  ℕ, ◌+◌, ◌-◌, Text, List, [], ◌∷◌, map, Bool, true, false, ◌&&◌, ◌||◌, ◌==◌, nat_eq, text_eq, leb,
  ltb, if◌then◌else◌, Option, none, some,
}

is_lower : ℕ → Bool
is_lower c = leb b'a' c && leb c b'z'

is_upper : ℕ → Bool
is_upper c = leb b'A' c && leb c b'Z'

unfoldable pub upper_byte : ℕ → ℕ
unfolding is_lower
upper_byte c = if is_lower c then c - 32 else c

unfoldable pub lower_byte : ℕ → ℕ
unfolding is_upper
lower_byte c = if is_upper c then c + 32 else c

-- strings.ToUpper
unfoldable pub to_upper : Text → Text
unfolding upper_byte
to_upper = map upper_byte

-- strings.ToLower
unfoldable pub to_lower : Text → Text
unfolding lower_byte
to_lower = map lower_byte

-- strings.EqualFold
unfoldable pub equal_fold : Text → Text → Bool
unfolding to_lower
equal_fold s t = to_lower s == to_lower t

is_space : ℕ → Bool
is_space c = c == b' ' || leb 9 c && leb c 13

trim_left_space : Text → Text
unfolding is_space
trim_left_space [] = []
trim_left_space (c ∷ s) = let rest = trim_left_space s in if is_space c then rest else c ∷ s

-- The text without the longest suffix whose bytes all pass the test.
unfoldable pub trim_right_by : (ℕ → Bool) → Text → Text
trim_right_by p [] = []
trim_right_by p (c ∷ s) = keep (trim_right_by p s)
  where
    keep : Text → Text
    keep [] = if p c then [] else c ∷ []
    keep (d ∷ r) = c ∷ d ∷ r

-- strings.TrimRight with a cutset of one byte
unfoldable pub trim_right : ℕ → Text → Text
unfolding trim_right_by
trim_right b = trim_right_by (λ c. c == b)

-- strings.TrimSpace
unfoldable pub trim_space : Text → Text
unfolding trim_left_space trim_right_by is_space
trim_space s = trim_right_by is_space (trim_left_space s)

-- strings.ReplaceAll of a one-byte text by the empty one
unfoldable pub remove_all : ℕ → Text → Text
remove_all b [] = []
remove_all b (c ∷ s) = let rest = remove_all b s in if c == b then rest else c ∷ rest

-- strings.TrimPrefix
strip_prefix : Text → Text → Option Text
strip_prefix [] s = some s
strip_prefix (a ∷ p) [] = none
strip_prefix (a ∷ p) (c ∷ s) = let rest = strip_prefix p s in if a == c then rest else none

unfoldable pub trim_prefix : Text → Text → Text
unfolding strip_prefix
trim_prefix s p = elim (strip_prefix p s) [ none ↦ s | some rest ↦ rest ]

-- Lexicographic order of texts, by bytes.
unfoldable pub text_leb : Text → Text → Bool
text_leb [] t = true
text_leb (a ∷ s) [] = false
text_leb (a ∷ s) (b ∷ t) = let rest = text_leb s t in if a == b then rest else ltb a b
