-- ===== src/HttpApi/Returns.antt =====
-- What an action returns, where it does not fail.
use dinapay_connector_binanc.Shared.{◌≡◌, refl, Bool, true, false, if◌then◌else◌}
use dinapay_connector_binanc.Core.Error.{Result, ok}
use dinapay_connector_binanc.Effects.{
  World, M, Metric, ◌>>=◌, continue, pure, gets, attempt, now, observe,
}

-- From the world `w`, the action returns a value of which `P` holds.
pub record Gives {A : Type 0} (w : World) (m : M A) (P : A → Type 0) : Type 0 where
  pub value : A
  pub returned : (m w).0 ≡ ok value
  pub holds : P value

continue-ok :
    {A B : Type 0} (r : Result A) (a : A) (f : A → M B) (w : World) (b : B)
    → r ≡ ok a
    → (f a w).0 ≡ ok b
    → (continue r f w).0 ≡ ok b
continue-ok r a f w b h k = rw h k

module _ {A : Type 0} {P : A → Type 0} where
  pub Gives-pure : (w : World) (a : A) → P a → Gives w (pure a) P
  unfolding pure
  Gives-pure w a h = record { value = a; returned = refl; holds = h }

  pub Gives-if :
      (w : World) (b : Bool) (m n : M A)
      → (b ≡ true → Gives w m P)
      → (b ≡ false → Gives w n P)
      → Gives w (if b then m else n) P
  Gives-if w true m n km kn = km refl
  Gives-if w false m n km kn = kn refl

  pub Gives-bind :
      {B : Type 0} {Q : B → Type 0} (w : World) (m : M B) (f : B → M A)
      → Gives w m Q
      → ((b : B) → Q b → Gives (m w).1 (f b) P)
      → Gives w (m >>= f) P
  unfolding ◌>>=◌
  Gives-bind w m f h k =
      let r = k h.value h.holds in
      record {
        value = r.value;
        returned = continue-ok (m w).0 h.value f (m w).1 r.value h.returned r.returned;
        holds = r.holds;
      }

-- Actions that never fail.
abbrev pub Total : {A : Type 0} → M A → Type 0
Total m = (w : World) → Gives w m (λ _. Unit {0})

module _ {A : Type 0} where
  pub Total-gets : (f : World → A) → Total (gets f)
  unfolding gets
  Total-gets f w = record { value = f w; returned = refl; holds = tt }

  pub Total-attempt : (m : M A) → Total (attempt m)
  unfolding attempt
  Total-attempt m w = record { value = (m w).0; returned = refl; holds = tt }

pub Total-now : Total now
unfolding now
Total-now w = record { value = _; returned = refl; holds = tt }

pub Total-observe : (m : Metric) → Total (observe m)
unfolding observe
Total-observe m w = record { value = _; returned = refl; holds = tt }

-- After an action that never fails
pub Gives-then :
    {A B : Type 0} {P : B → Type 0} (w : World) (m : M A) (f : A → M B)
    → Total m
    → ((a : A) → Gives (m w).1 (f a) P)
    → Gives w (m >>= f) P
Gives-then w m f t k = Gives-bind w m f (t w) (λ a u. k a)
