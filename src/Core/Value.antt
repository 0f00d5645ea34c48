-- ===== src/Core/Value.antt =====
-- JSON values, as package encoding/json and PostgreSQL's jsonb carry them. A time is kept as the
-- instant that its RFC 3339 text names.
use dinapay_connector_binanc.Strings.{equal_fold}
use dinapay_connector_binanc.Shared.{
  ℕ, Text, [], Bool, Option, none, some, ◌==◌, text_eq, if◌then◌else◌,
}

-- Nanoseconds since the zero time, 1 January of year 1.
abbrev pub Time : Type 0
Time = ℕ

mutual
  pub data Value : Type 0 where
    null : Value
    bool : Bool → Value
    num : Text → Value
    str : Text → Value
    time : Time → Value
    -- json.RawMessage: bytes that are JSON already
    raw : Text → Value
    arr : Values → Value
    obj : Fields → Value

  pub data Values : Type 0 where
    nil : Values
    cons : Value → Values → Values

  pub data Fields : Type 0 where
    end : Fields
    field : Text → Value → Fields → Fields

-- m[key], with the comma-ok result
unfoldable pub get_field : Text → Fields → Option Value
get_field key end = none
get_field key (field name value rest) =
    let later = get_field key rest in if name == key then some value else later

-- value.(string), with "" where the value is missing or not a string
unfoldable pub as_text : Option Value → Text
as_text (some (str s)) = s
as_text _ = []

-- The value that json.Unmarshal gives to a struct field: names match without regard to case, the
-- last match wins, and null leaves the field as it is.
member_from : Option Value → Text → Fields → Option Value
member_from found name end = found
member_from found name (field key null rest) = member_from found name rest
member_from found name (field key value rest) =
    member_from (if equal_fold key name then some value else found) name rest

unfoldable pub member : Text → Fields → Option Value
unfolding member_from equal_fold
member name m = member_from none name m

-- The same for a field that is a pointer or a map: null sets it to nil.
nullable_from : Option Value → Text → Fields → Option Value
nullable_from found name end = found
nullable_from found name (field key value rest) =
    nullable_from (if equal_fold key name then some value else found) name rest

unfoldable pub nullable_member : Text → Fields → Option Value
unfolding nullable_from equal_fold
nullable_member name m = nullable_from none name m
