-- ===== src/Core/Decode.antt =====
-- json.Unmarshal of the structs of internal/core/model.go, by their field tags.
use dinapay_connector_binanc.Shared.{
  Text, String, [], Option, none, some, lit, Bool, false, if◌then◌else◌,
}
use dinapay_connector_binanc.Shared.Int.{ℤ, pos}
use dinapay_connector_binanc.Strings.Numbers.{is_number, parse_int}
use dinapay_connector_binanc.Core.Error.{Error, Result, ok, err, message}
use dinapay_connector_binanc.Core.Value.{
  Time, Value, null, bool, num, str, time, obj, Fields, end, member,
}

infixl 5 ◌>>=◌
abbrev pub ◌>>=◌ {ℓ κ} : {A : Type ℓ} {B : Type κ} → Result A → (A → Result B) → Result B
ok a >>= f = f a
err e >>= f = err e

-- The error of a value of another JSON type than the field's.
unfoldable pub type_error : Error
type_error = message (lit "json: cannot unmarshal value into Go struct field")

-- A field that is missing or null keeps its zero value.
unfoldable pub decode_text : Option Value → Result Text
decode_text none = ok []
decode_text (some null) = ok []
decode_text (some (str s)) = ok s
decode_text _ = err type_error

unfoldable pub decode_time : Option Value → Result Time
decode_time none = ok 0
decode_time (some null) = ok 0
decode_time (some (time t)) = ok t
decode_time _ = err type_error

unfoldable pub decode_map : Option Value → Result Fields
decode_map none = ok end
decode_map (some null) = ok end
decode_map (some (obj m)) = ok m
decode_map _ = err type_error

-- A field of type json.Number takes a number, or a string that is one.
unfoldable pub decode_number : Option Value → Result Text
unfolding is_number
decode_number none = ok []
decode_number (some null) = ok []
decode_number (some (num s)) = ok s
decode_number (some (str s)) = if is_number s then ok s else err type_error
decode_number _ = err type_error

-- flexibleString: a string, or else a number as it is written.
unfoldable pub decode_flexible : Option Value → Result Text
decode_flexible none = ok []
decode_flexible (some null) = ok []
decode_flexible (some (str s)) = ok s
decode_flexible (some (num s)) = ok s
decode_flexible _ = err (message (lit "invalid string value"))

unfoldable pub decode_bool : Option Value → Result Bool
decode_bool none = ok false
decode_bool (some null) = ok false
decode_bool (some (bool b)) = ok b
decode_bool _ = err type_error

or_type_error : Option ℤ → Result ℤ
or_type_error none = err type_error
or_type_error (some n) = ok n

-- A field of type int64
unfoldable pub decode_int : Option Value → Result ℤ
unfolding or_type_error parse_int
decode_int none = ok (pos 0)
decode_int (some null) = ok (pos 0)
decode_int (some (num s)) = or_type_error (parse_int s)
decode_int _ = err type_error

abbrev pub text_at : String → Fields → Result Text
text_at name m = decode_text (member (lit name) m)
