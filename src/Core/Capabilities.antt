-- ===== src/Core/Capabilities.antt =====
-- json.Marshal of the capabilities of internal/core/model.go, by their field tags.
use dinapay_connector_binanc.Shared.{
  Text, String, [], ◌∷◌, List, Option, none, some, lit, Bool, true, false,
}
use dinapay_connector_binanc.Core.Value.{
  Value, bool, str, arr, obj, Values, nil, cons, Fields, end, field,
}
use dinapay_connector_binanc.Core.Model.{BindingRequirement, Capability, Capabilities}
use dinapay_connector_binanc.Core.Encode.{text_field, text_or_omit}

texts : List Text → Values
texts [] = nil
texts (s ∷ rest) = cons (str s) (texts rest)

-- A list that is tagged omitempty.
abbrev list_or_omit : String → Values → Fields → Fields
list_or_omit name nil rest = rest
list_or_omit name (cons v vs) rest = field (lit name) (arr (cons v vs)) rest

abbrev flag_or_omit : String → Bool → Fields → Fields
flag_or_omit name false rest = rest
flag_or_omit name true rest = field (lit name) (bool true) rest

unfoldable pub encode_requirement : BindingRequirement → Value
encode_requirement r = obj (
    text_or_omit "code" r.code (
      text_field "entityType" r.entity_type (
        text_field "externalEntityType" r.external_entity_type (
          flag_or_omit "required" r.required (
            text_or_omit "cardinality" r.cardinality
              (text_or_omit "provisioningMode" r.provisioning_mode end))))))

requirement_or_omit : Option BindingRequirement → Fields → Fields
unfolding encode_requirement
requirement_or_omit none rest = rest
requirement_or_omit (some r) rest = field (lit "bindingRequirement") (encode_requirement r) rest

requirements : List BindingRequirement → Values
unfolding encode_requirement
requirements [] = nil
requirements (r ∷ rest) = cons (encode_requirement r) (requirements rest)

unfoldable pub encode_capability : Capability → Value
unfolding texts requirement_or_omit requirements
encode_capability c = obj (
    text_field "operation" c.operation (
      field (lit "countries") (arr (texts c.countries)) (
        field (lit "currencies") (arr (texts c.currencies)) (
          field (lit "paymentMethods") (arr (texts c.payment_methods)) (
            field (lit "rails") (arr (texts c.rails)) (
              list_or_omit "features" (texts c.features) (
                requirement_or_omit c.binding_requirement (
                  list_or_omit "bindingRequirements" (requirements c.binding_requirements)
                    end))))))))

encode_all : List Capability → Values
unfolding encode_capability
encode_all [] = nil
encode_all (c ∷ rest) = cons (encode_capability c) (encode_all rest)

unfoldable pub encode_capabilities : Capabilities → Value
unfolding encode_all
encode_capabilities c = obj (
    text_field "provider" c.provider (
      text_field "contractVersion" c.contract_version
        (field (lit "capabilities") (arr (encode_all c.capabilities)) end)))
