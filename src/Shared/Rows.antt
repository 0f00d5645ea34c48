-- ===== src/Shared/Rows.antt =====
-- Laws of the table operations.
use mathlib.Core.Path.{◌≡◌, refl}
use mathlib.Core.Bool.{Bool, true, false}
use mathlib.Core.Option.{none, some}
use mathlib.Core.List.{List, [], ◌∷◌, map}
use native.Mathlib.Omega.{arith}
use dinapay_connector_binanc.Shared.Lists.{find?, any, update_where, count_where}

-- No two rows of the table conflict.
abbrev pub Unique {ℓ} : {A : Type ℓ} → (A → A → Bool) → List A → Type ℓ
Unique c [] = Unit
Unique c (x ∷ xs) = (any (c x) xs ≡ false) × Unique c xs

module _ {ℓ} {A : Type ℓ} where
  -- A test that an update does not change finds the same rows.
  pub any-update_where :
      (q p : A → Bool) (f : A → A) (xs : List A)
      → ((x : A) → q (f x) ≡ q x)
      → any q (update_where p f xs) ≡ any q xs
  unfolding any update_where
  any-update_where q p f [] same = refl
  any-update_where q p f (x ∷ xs) same = ground (arith, same x, any-update_where q p f xs same)

  any-ext : (q r : A → Bool) (xs : List A) → ((x : A) → q x ≡ r x) → any q xs ≡ any r xs
  unfolding any
  any-ext q r [] same = refl
  any-ext q r (x ∷ xs) same = cc (same x, any-ext q r xs same)

  -- An update that keeps the columns of a constraint keeps the constraint.
  pub Unique-update_where :
      (c : A → A → Bool) (p : A → Bool) (f : A → A) (xs : List A)
      → ((x y : A) → c (f x) y ≡ c x y)
      → ((x y : A) → c x (f y) ≡ c x y)
      → Unique c xs
      → Unique c (update_where p f xs)
  unfolding update_where
  Unique-update_where c p f [] left right u = tt
  Unique-update_where c p f (x ∷ xs) left right u = ground (
    arith,
    any-update_where (c x) p f xs (right x),
    any-update_where (c (f x)) p f xs (right (f x)),
    any-ext (c (f x)) (c x) xs (left x),
    Unique-update_where c p f xs left right u.1,
  )

  pub map-update_where {κ} :
      {B : Type κ} (g : A → B) (p : A → Bool) (f : A → A) (xs : List A)
      → ((x : A) → g (f x) ≡ g x)
      → map g (update_where p f xs) ≡ map g xs
  unfolding update_where
  map-update_where g p f [] same = refl
  map-update_where g p f (x ∷ xs) same = ground (arith, same x, map-update_where g p f xs same)

  pub count_where-any : (p : A → Bool) (xs : List A) → any p xs ≡ false → count_where p xs ≡ 0
  unfolding any count_where
  count_where-any p [] h = refl
  count_where-any p (x ∷ xs) h = ground (arith, count_where-any p xs)

  pub find?-any : (p : A → Bool) (xs : List A) → any p xs ≡ false → find? p xs ≡ none
  unfolding any find?
  find?-any p [] h = refl
  find?-any p (x ∷ xs) h = ground (arith, find?-any p xs)

  pub find?-sound : (p : A → Bool) (xs : List A) (x : A) → find? p xs ≡ some x → p x ≡ true
  unfolding find?
  find?-sound p [] x h = cc
  find?-sound p (y ∷ xs) x h = ground (arith, find?-sound p xs x)
