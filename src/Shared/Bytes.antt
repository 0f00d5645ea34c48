-- ===== src/Shared/Bytes.antt =====
-- Go strings as lists of bytes.
use Prim.Native.Nat.{ℕ}
use Prim.Native.Char.{code}
use Prim.Native.String.{String}
use mathlib.Core.Path.{◌≡◌, refl}
use mathlib.Core.Logic.{◌↔◌}
use mathlib.Core.Bool.{Bool, true, false, ◌&&◌}
use mathlib.Core.List.{List, [], ◌∷◌}
use native.Mathlib.Omega.{arith}
use dinapay_connector_binanc.Shared.Tests.{Comparable, nat_eq, nat_beq}

abbrev pub Text : Type 0
Text = List ℕ

-- A literal of the source, shut so that proofs do not walk its bytes.
unfoldable pub lit : String → Text
lit String.[] = []
lit (String.◌∷◌ c s) = code c ∷ lit s

unfoldable pub text_beq : Text → Text → Bool
text_beq [] [] = true
text_beq (a ∷ s) (b ∷ t) = nat_beq a b && text_beq s t
text_beq _ _ = false

pub text_beq_iff : (s t : Text) → (text_beq s t ≡ true) ↔ (s ≡ t)
unfolding text_beq
text_beq_iff [] [] = (λ h. refl, λ h. refl)
text_beq_iff [] (b ∷ t) = (λ h. cc, λ h. cc)
text_beq_iff (a ∷ s) [] = (λ h. cc, λ h. cc)
text_beq_iff (a ∷ s) (b ∷ t) =
    (λ h. ground (arith, text_beq_iff s t), λ h. ground (arith, text_beq_iff s t))

pub text_beq_refl : (s : Text) → text_beq s s ≡ true
text_beq_refl s = (text_beq_iff s s).1 refl

instance abbrev pub text_eq : Comparable Text
text_eq = record {
  equal = text_beq;
  equal_sound = λ s t. (text_beq_iff s t).0;
  equal_refl = text_beq_refl;
}
