-- ===== src/Core/Error.antt =====
-- Go's error values (internal/core/ports.go, lines 8 to 11), and results that may be errors.
use dinapay_connector_binanc.Shared.{Text, Bool, true, false, lit}

-- The two sentinels, and every error that is made from a text.
pub data Error : Type 0 where
  not_found conflict : Error
  message : Text → Error

-- err.Error()
unfoldable pub error_text : Error → Text
error_text not_found = lit "not found"
error_text conflict = lit "idempotency conflict"
error_text (message m) = m

pub data Result {ℓ} (A : Type ℓ) : Type ℓ where
  ok : A → Result A
  err : Error → Result A

-- err == nil
abbrev pub is_ok {ℓ} : {A : Type ℓ} → Result A → Bool
is_ok (ok _) = true
is_ok (err _) = false
