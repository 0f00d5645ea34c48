-- ===== src/Core/Strict.antt =====
-- json.Decoder with DisallowUnknownFields, and the values of maps and times that it decodes. The
-- texts of the errors are not those of the package.
use dinapay_connector_binanc.Shared.{
  Text, String, lit, [], ◌∷◌, ◌++◌, List, Option, none, some, Bool, true, false, any, ◌||◌, ◌==◌,
  text_eq, if◌then◌else◌,
}
use dinapay_connector_binanc.Strings.{equal_fold, text_leb}
use dinapay_connector_binanc.Core.Error.{Result, ok, err, message}
use dinapay_connector_binanc.Core.Value.{
  Time, Value, null, num, str, arr, obj, Values, nil, cons, Fields, end, field,
}
use dinapay_connector_binanc.Core.Decode.{◌>>=◌, type_error, decode_text}

names_field : List String → Text → Bool
unfolding equal_fold
names_field [] key = false
names_field (n ∷ ns) key = equal_fold key (lit n) || names_field ns key

-- DisallowUnknownFields
unfoldable pub require_known : List String → Fields → Result (Unit {0})
unfolding names_field
require_known names end = ok tt
require_known names (field key v rest) =
    let later = require_known names rest in
    if names_field names key then later else err (message (lit "json: unknown field " ++ key))

-- A struct that is decoded from null keeps its zero value.
unfoldable pub struct_fields : Value → Result Fields
struct_fields null = ok end
struct_fields (obj m) = ok m
struct_fields _ = err type_error

-- m[key] = value, with the keys in the order in which Marshal writes a map
unfoldable pub set_field : Text → Value → Fields → Fields
unfolding text_leb
set_field key v end = field key v end
set_field key v (field k u rest) =
    let later = set_field key v rest in
    if key == k
    then field k v rest
    else if text_leb key k
    then field key v (field k u rest)
    else field k u later

absent_field : Text → Fields → Bool
absent_field key end = true
absent_field key (field k v rest) =
    let later = absent_field key rest in if k == key then false else later

-- How a float64 is printed that a number is read as
module _ (float_text : Text → Result Text) where
  unfoldable mutual
    unfolding set_field absent_field

    -- A value of type any: numbers are read as float64, and the last entry of a key counts.
    pub canonical : Value → Result Value
    canonical (num s) = do text ← float_text s; ok (num text)
    canonical (arr vs) = do values ← canonical_values vs; ok (arr values)
    canonical (obj m) = do fields ← canonical_fields m; ok (obj fields)
    canonical v = ok v

    canonical_values : Values → Result Values
    canonical_values nil = ok nil
    canonical_values (cons v vs) = do
      value ← canonical v
      values ← canonical_values vs
      ok (cons value values)

    pub canonical_fields : Fields → Result Fields
    canonical_fields end = ok end
    canonical_fields (field key v rest) = do
      value ← canonical v
      fields ← canonical_fields rest
      ok (if absent_field key fields then set_field key value fields else fields)

  -- A field of type map[string]any: it may be nil.
  unfoldable pub decode_any_map : Option Value → Result (Option Fields)
  unfolding canonical
  decode_any_map none = ok none
  decode_any_map (some null) = ok none
  decode_any_map (some (obj m)) = do fields ← canonical_fields m; ok (some fields)
  decode_any_map (some _) = err type_error

  -- One that is tagged omitempty: nil and empty are written alike.
  unfoldable pub decode_some_map : Option Value → Result Fields
  unfolding decode_any_map
  decode_some_map v = do m ← decode_any_map v; ok (or_empty m)
    where
      or_empty : Option Fields → Fields
      or_empty none = end
      or_empty (some m) = m

-- A field of type time.Time, with its UnmarshalJSON
unfoldable pub decode_instant : (Text → Result Time) → Option Value → Result Time
decode_instant parse_time none = ok 0
decode_instant parse_time (some (str s)) = parse_time s
decode_instant parse_time (some _) = err type_error

-- A field of type map[string]string, with its keys in order; the last entry of a key counts.
insert_entry : Text → Text → List (Text × Text) → List (Text × Text)
unfolding text_leb
insert_entry key text [] = (key, text) ∷ []
insert_entry key text ((k, t) ∷ rest) =
    let later = insert_entry key text rest in
    if text_leb key k then (key, text) ∷ (k, t) ∷ rest else (k, t) ∷ later

unfoldable pub decode_entries : Fields → Result (List (Text × Text))
unfolding decode_text insert_entry any
decode_entries end = ok []
decode_entries (field key v rest) = do
  text ← decode_text (some v)
  later ← decode_entries rest
  ok (if any (λ e. e.0 == key) later then later else insert_entry key text later)

unfoldable pub decode_text_map : Option Value → Result (List (Text × Text))
unfolding decode_entries
decode_text_map none = ok []
decode_text_map (some null) = ok []
decode_text_map (some (obj m)) = decode_entries m
decode_text_map (some _) = err type_error
