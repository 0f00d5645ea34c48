-- ===== src/Strings/Numbers.antt =====
-- Numbers as text: %d and strconv.ParseInt in base 10, %x of bytes, and the grammar of JSON numbers.
use dinapay_connector_binanc.Shared.{
  ℕ, zero, suc, ◌+◌, ◌-◌, ◌*◌, ◌/◌, ◌%◌, ◌^◌, Text, List, [], ◌∷◌, Option, none, some, Bool, true,
  false, ◌&&◌, ◌||◌, ◌==◌, nat_eq, leb, ltb, if◌then◌else◌,
}
use dinapay_connector_binanc.Shared.Int.{ℤ, pos, negsuc}

-- The decimal digits of a number, before `rest`; the number is below its fuel.
digits_before : ℕ → ℕ → Text → Text
digits_before zero n rest = rest
digits_before (suc fuel) n rest =
    let more = digits_before fuel (n / 10) ((48 + n % 10) ∷ rest) in
    if ltb n 10 then (48 + n) ∷ rest else more

-- %d
unfoldable pub decimal : ℕ → Text
unfolding digits_before
decimal n = digits_before (suc n) n []

unfoldable pub decimal_int : ℤ → Text
unfolding decimal
decimal_int (pos n) = decimal n
decimal_int (negsuc n) = b'-' ∷ decimal (suc n)

unfoldable pub is_digit : ℕ → Bool
is_digit c = leb b'0' c && leb c b'9'

-- The value of digits that follow a prefix of value `acc`.
unfoldable pub digits_value : ℕ → Text → Option ℕ
unfolding is_digit
digits_value acc [] = some acc
digits_value acc (c ∷ s) =
    let rest = digits_value (acc * 10 + (c - 48)) s in if is_digit c then rest else none

natural : Text → Option ℕ
natural [] = none
natural (c ∷ s) = digits_value 0 (c ∷ s)

in_int64 : Option ℕ → Option ℤ
in_int64 none = none
in_int64 (some n) = if ltb n (2 ^ 63) then some (pos n) else none

negated : Option ℕ → Option ℤ
negated none = none
negated (some zero) = some (pos 0)
negated (some (suc n)) = if ltb n (2 ^ 63) then some (negsuc n) else none

-- strconv.ParseInt(s, 10, 64)
unfoldable pub parse_int : Text → Option ℤ
unfolding digits_value natural in_int64 negated
parse_int [] = none
parse_int (c ∷ s) =
    if c == b'-'
    then negated (natural s)
    else if c == b'+'
    then in_int64 (natural s)
    else in_int64 (natural (c ∷ s))

unfoldable pub hex_digit : ℕ → ℕ
hex_digit n = if ltb n 10 then 48 + n else 87 + n

-- %x and hex.EncodeToString
unfoldable pub hex : List ℕ → Text
unfolding hex_digit
hex [] = []
hex (b ∷ bs) = hex_digit (b / 16) ∷ hex_digit (b % 16) ∷ hex bs

-- The states of a reader of a JSON number.
pub data Numeral : Type 0 where
  start sign leading integer point fraction exponent exponent_sign power bad : Numeral

numeral_step : Numeral → ℕ → Numeral
unfolding is_digit
numeral_step start c =
    if c == b'-' then sign else if c == b'0' then leading else if is_digit c then integer else bad
numeral_step sign c = if c == b'0' then leading else if is_digit c then integer else bad
numeral_step leading c =
    if c == b'.' then point else if c == b'e' || c == b'E' then exponent else bad
numeral_step integer c =
    if is_digit c
    then integer
    else if c == b'.'
    then point
    else if c == b'e' || c == b'E'
    then exponent
    else bad
numeral_step point c = if is_digit c then fraction else bad
numeral_step fraction c =
    if is_digit c then fraction else if c == b'e' || c == b'E' then exponent else bad
numeral_step exponent c =
    if c == b'+' || c == b'-' then exponent_sign else if is_digit c then power else bad
numeral_step exponent_sign c = if is_digit c then power else bad
numeral_step power c = if is_digit c then power else bad
numeral_step bad c = bad

accepts : Numeral → Bool
accepts leading = true
accepts integer = true
accepts fraction = true
accepts power = true
accepts _ = false

number_from : Numeral → Text → Bool
unfolding numeral_step accepts
number_from state [] = accepts state
number_from state (c ∷ s) = number_from (numeral_step state c) s

-- isValidNumber of package encoding/json
unfoldable pub is_number : Text → Bool
unfolding number_from
is_number s = number_from start s
