-- ===== src/HttpApi/Effect.antt =====
-- What a handler does to the tables and to the requests that are sent: nothing, or what one action of
-- the program does.
use mathlib.Core.Path.{subst}
use dinapay_connector_binanc.Shared.{
  ℕ, ◌≡◌, refl, sym, ◌∙◌, ◌⊎◌, inl, inr, Bool, true, false, if◌then◌else◌,
}
use dinapay_connector_binanc.Core.Error.{Result, ok, err}
use dinapay_connector_binanc.Effects.{
  Env, World, M, Metric, ◌>>=◌, continue, pure, gets, attempt, ignore, now, observe, random_bytes,
  get_env,
}
use dinapay_connector_binanc.App.Service.{Service}
use dinapay_connector_binanc.Publisher.{Publisher}
use dinapay_connector_binanc.Program.{Action, perform}

-- The second world has the tables, the sent requests and the surroundings of the first.
pub record Leaves (w v : World) : Type 0 where
  pub db : v.db ≡ w.db
  pub sent : v.sent ≡ w.sent
  pub env : v.env ≡ w.env

pub record Silent {A : Type 0} (m : M A) : Type 0 where
  pub at : (w : World) → Leaves w (m w).1

-- The second world has the tables and the sent requests that an action makes of the first.
pub record Performs (s : Service) (p : Publisher) (D : Action → Type 0) (w w' : World)
    : Type 0 where
  pub action : Action
  pub demanded : D action
  pub from : World
  pub same : Leaves w from
  pub db : w'.db ≡ (perform s p action from).1.db
  pub sent : w'.sent ≡ (perform s p action from).1.sent

-- In the surroundings `e`, an action of the kind `D` is all that happens.
pub record Refines {A : Type 0} (s : Service) (p : Publisher) (e : Env) (D : Action → Type 0)
    (m : M A) : Type 0 where
  pub at : (w : World) → w.env ≡ e → Leaves w (m w).1 ⊎ Performs s p D w (m w).1

pub Leaves-refl : (w : World) → Leaves w w
Leaves-refl w = record { db = refl; sent = refl; env = refl }

pub Leaves-trans : {u v w : World} → Leaves u v → Leaves v w → Leaves u w
Leaves-trans h k = record { db = k.db ∙ h.db; sent = k.sent ∙ h.sent; env = k.env ∙ h.env }

module _ {A : Type 0} where
  pub Silent-pure : (a : A) → Silent (pure a)
  unfolding pure
  Silent-pure a = record { at = λ w. Leaves-refl w }

  pub Silent-gets : (f : World → A) → Silent (gets f)
  unfolding gets
  Silent-gets f = record { at = λ w. Leaves-refl w }

  pub Silent-attempt : (m : M A) → Silent m → Silent (attempt m)
  unfolding attempt
  Silent-attempt m k = record { at = λ w. k.at w }

  pub Silent-if : (b : Bool) (m n : M A) → Silent m → Silent n → Silent (if b then m else n)
  Silent-if true m n km kn = km
  Silent-if false m n km kn = kn

pub Silent-now : Silent now
unfolding now
Silent-now = record { at = λ w. record { db = refl; sent = refl; env = refl } }

pub Silent-observe : (m : Metric) → Silent (observe m)
unfolding observe
Silent-observe m = record { at = λ w. record { db = refl; sent = refl; env = refl } }

pub Silent-random_bytes : (n : ℕ) → Silent (random_bytes n)
unfolding random_bytes
Silent-random_bytes n = record { at = λ w. record { db = refl; sent = refl; env = refl } }

pub continue-Leaves :
    {A B : Type 0} (r : Result A) (f : A → M B) (w : World)
    → ((a : A) → Silent (f a))
    → Leaves w (continue r f w).1
continue-Leaves (ok a) f w k = (k a).at w
continue-Leaves (err e) f w k = Leaves-refl w

pub Silent-bind :
    {A B : Type 0} (m : M A) (f : A → M B) → Silent m → ((a : A) → Silent (f a)) → Silent (m >>= f)
unfolding ◌>>=◌
Silent-bind m f km kf = record {
  at = λ w. let (r, w') = m w in Leaves-trans (km.at w) (continue-Leaves r f w' kf);
}

pub ruleset silent_rules = (
  Silent-pure, Silent-gets, Silent-attempt, Silent-if, Silent-now, Silent-observe,
  Silent-random_bytes, Silent-bind,
)

module _ {s : Service} {p : Publisher} {D : Action → Type 0} where
  before :
      {w v w' : World}
      → Leaves w v
      → Leaves v w' ⊎ Performs s p D v w'
      → Leaves w w' ⊎ Performs s p D w w'
  before h (inl k) = inl (Leaves-trans h k)
  before h (inr k) = inr (record {
    action = k.action;
    demanded = k.demanded;
    from = k.from;
    same = Leaves-trans h k.same;
    db = k.db;
    sent = k.sent;
  })

  after :
      {w v w' : World}
      → Leaves w v ⊎ Performs s p D w v
      → Leaves v w'
      → Leaves w w' ⊎ Performs s p D w w'
  after (inl h) k = inl (Leaves-trans h k)
  after (inr h) k = inr (record {
    action = h.action;
    demanded = h.demanded;
    from = h.from;
    same = h.same;
    db = k.db ∙ h.db;
    sent = k.sent ∙ h.sent;
  })

module _ {s : Service} {p : Publisher} {e : Env} {D : Action → Type 0} where
  pub Refines-Silent : {A : Type 0} (m : M A) → Silent m → Refines s p e D m
  Refines-Silent m k = record { at = λ w h. inl (k.at w) }

  -- An attempt at what an action does.
  pub Refines-attempt :
      {A : Type 0} (a : Action) (m : M A)
      → D a
      → perform s p a ≡ ignore m
      → Refines s p e D (attempt m)
  unfolding attempt ignore
  Refines-attempt a m d same = record {
    at = λ w h. inr (record {
      action = a;
      demanded = d;
      from = w;
      same = Leaves-refl w;
      db = rw same refl;
      sent = rw same refl;
    });
  }

  module _ {A B : Type 0} where
    continue-Refines :
        (r : Result A) (f : A → M B) (w : World)
        → w.env ≡ e
        → ((a : A) → Refines s p e D (f a))
        → Leaves w (continue r f w).1 ⊎ Performs s p D w (continue r f w).1
    continue-Refines (ok a) f w h k = (k a).at w h
    continue-Refines (err x) f w h k = inl (Leaves-refl w)

    -- Nothing happens first.
    pub Refines-after :
        (m : M A) (f : A → M B)
        → Silent m
        → ((a : A) → Refines s p e D (f a))
        → Refines s p e D (m >>= f)
    unfolding ◌>>=◌
    Refines-after m f km kf = record {
      at = λ w h.
          let (r, v) = m w in before (km.at w) (continue-Refines r f v ((km.at w).env ∙ h) kf);
    }

    -- Nothing happens last.
    pub Refines-before :
        (m : M A) (f : A → M B)
        → Refines s p e D m
        → ((a : A) → Silent (f a))
        → Refines s p e D (m >>= f)
    unfolding ◌>>=◌
    Refines-before m f km kf = record {
      at = λ w h. let (r, v) = m w in after (km.at w h) (continue-Leaves r f v kf);
    }

  -- What is read of the surroundings is `e`.
  pub Refines-env :
      {B : Type 0} (f : Env → M B) → Refines s p e D (f e) → Refines s p e D (get_env >>= f)
  unfolding ◌>>=◌ gets
  Refines-env f k = record {
    at = λ w h. subst (λ x. Leaves w (f x w).1 ⊎ Performs s p D w (f x w).1) (sym h) (k.at w h);
  }

  pub Refines-if :
      {A : Type 0} (b : Bool) (m n : M A)
      → (b ≡ true → Refines s p e D m)
      → Silent n
      → Refines s p e D (if b then m else n)
  Refines-if true m n km kn = km refl
  Refines-if false m n km kn = Refines-Silent n kn

pub Refines-weaken :
    {A : Type 0} {s : Service} {p : Publisher} {e : Env} {D E : Action → Type 0} {m : M A}
    → ((a : Action) → D a → E a)
    → Refines s p e D m
    → Refines s p e E m
Refines-weaken {A} {s} {p} {e} {D} {E} {m} f k = record { at = λ w h. weaken (k.at w h) }
  where
    weaken : {w v : World} → Leaves w v ⊎ Performs s p D w v → Leaves w v ⊎ Performs s p E w v
    weaken (inl h) = inl h
    weaken (inr h) = inr (record {
      action = h.action;
      demanded = f h.action h.demanded;
      from = h.from;
      same = h.same;
      db = h.db;
      sent = h.sent;
    })
