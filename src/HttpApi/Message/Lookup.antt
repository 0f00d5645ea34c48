-- ===== src/HttpApi/Message/Lookup.antt =====
-- Which headers Header().Set changes.
use dinapay_connector_binanc.Shared.{
  Text, String, lit, [], ◌∷◌, List, ◌≡◌, refl, ap, inl, inr, true, false, text_eq, text_beq,
  text_beq_iff, text_beq_refl, Bool-cases, arith,
}
use dinapay_connector_binanc.Strings.{equal_fold, to_lower}
use dinapay_connector_binanc.HttpApi.Message.{Reply, lookup_header, remove_header, set_header}

equal_fold-transport :
    (n other name : Text) → equal_fold n other ≡ true → equal_fold n name ≡ equal_fold other name
unfolding equal_fold
equal_fold-transport n other name h =
    ap (λ s. text_beq s (to_lower name)) ((text_beq_iff (to_lower n) (to_lower other)).0 h)

lookup_header-remove_header :
    (name other : Text) (headers : List (Text × Text))
    → equal_fold other name ≡ false
    → lookup_header name (remove_header other headers) ≡ lookup_header name headers
unfolding lookup_header remove_header
lookup_header-remove_header name other [] h = refl
lookup_header-remove_header name other ((n, v) ∷ rest) h =
    let later = lookup_header-remove_header name other rest h in
    elim (Bool-cases (equal_fold n other)) [
      | inl e ↦ (let f = equal_fold-transport n other name e in ground arith)
      | inr e ↦ ground arith
    ]

-- Setting a header leaves the others as they are.
pub lookup_header-set_header :
    (name : Text) (other : String) (value : Text) (reply : Reply)
    → equal_fold (lit other) name ≡ false
    → lookup_header name (set_header other value reply).headers ≡ lookup_header name reply.headers
unfolding set_header lookup_header
lookup_header-set_header name other value reply h =
    let later = lookup_header-remove_header name (lit other) reply.headers h in ground arith

-- A header that is set is there, as long as nothing is written.
pub lookup_header-set_header_same :
    (name : String) (value : Text) (reply : Reply)
    → reply.wrote_header ≡ false
    → lookup_header (lit name) (set_header name value reply).headers ≡ value
unfolding set_header lookup_header equal_fold
lookup_header-set_header_same name value reply fresh =
    rw (fresh, text_beq_refl (to_lower (lit name))) refl

pub wrote_header-set_header :
    (name : String) (value : Text) (reply : Reply)
    → (set_header name value reply).wrote_header ≡ reply.wrote_header
unfolding set_header
wrote_header-set_header name value reply = ground arith

pub status-set_header :
    (name : String) (value : Text) (reply : Reply)
    → (set_header name value reply).status ≡ reply.status
unfolding set_header
status-set_header name value reply = ground arith
