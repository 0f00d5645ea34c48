-- ===== src/Strings/Rational.antt =====
-- Rational numbers of package math/big: SetString on plain decimals, and Cmp as far as equality.
use dinapay_connector_binanc.Shared.{
  ℕ, suc, ◌+◌, ◌-◌, ◌*◌, ◌^◌, Text, [], ◌∷◌, Option, none, some, Bool, true, false, ◌&&◌, ◌||◌,
  ◌==◌, not, nat_eq, if◌then◌else◌,
}
use dinapay_connector_binanc.Strings.Numbers.{is_digit}

-- ± numerator / (below + 1)
pub record Rat : Type 0 where
  pub negative : Bool
  pub numerator : ℕ
  pub below : ℕ

same_sign : Bool → Bool → Bool
same_sign true b = b
same_sign false true = false
same_sign false false = true

-- a.Cmp(b) == 0
unfoldable pub same_rat : Rat → Rat → Bool
unfolding same_sign
same_rat a b =
    a.numerator * suc b.below == b.numerator * suc a.below
    && (a.numerator == 0 || same_sign a.negative b.negative)

-- Digits with at most one point: the digits' value, how many follow the point, how many there are.
record Mantissa : Type 0 where
  value : ℕ
  scale : ℕ
  count : ℕ
  pointed : Bool

-- The mantissa with one more digit, or with the point.
next_mantissa : Mantissa → ℕ → Mantissa
unfolding is_digit
next_mantissa m c =
    if is_digit c
    then record m {
      value = m.value * 10 + (c - 48);
      scale = if m.pointed then suc m.scale else m.scale;
      count = suc m.count;
    }
    else record m { pointed = true }

mantissa : Mantissa → Text → Option Mantissa
unfolding next_mantissa is_digit
mantissa m [] = some m
mantissa m (c ∷ s) =
    let rest = mantissa (next_mantissa m c) s in
    if is_digit c || c == b'.' && not m.pointed then rest else none

abbrev empty_mantissa : Mantissa
empty_mantissa = record { value = 0; scale = 0; count = 0; pointed = false }

signed : Bool → Option Mantissa → Option Rat
signed negative none = none
signed negative (some m) =
    if m.count == 0
    then none
    else some (record { negative = negative; numerator = m.value; below = 10 ^ m.scale - 1 })

-- A sign, digits with at most one point among or around them, and at least one digit.
unfoldable pub plain_decimal : Text → Option Rat
unfolding mantissa signed
plain_decimal [] = none
plain_decimal (c ∷ s) =
    if c == b'-'
    then signed true (mantissa empty_mantissa s)
    else if c == b'+'
    then signed false (mantissa empty_mantissa s)
    else signed false (mantissa empty_mantissa (c ∷ s))

-- big.Rat.SetString; `other` reads the texts that are no plain decimals
unfoldable pub set_string : (Text → Option Rat) → Text → Option Rat
unfolding plain_decimal
set_string other s = elim (plain_decimal s) [ none ↦ other s | some r ↦ some r ]
