-- ===== src/Effects/Keeps.antt =====
-- Invariants of actions: one rule for each way to build an action.
use dinapay_connector_binanc.Shared.{
  ℕ, suc, Text, ◌≡◌, refl, Bool, true, false, Option, none, some, if◌then◌else◌,
}
use dinapay_connector_binanc.Core.Value.{Time}
use dinapay_connector_binanc.Core.Error.{Error, Result, ok, err}
use dinapay_connector_binanc.Store.Schema.{Database}
use dinapay_connector_binanc.Effects.{
  World, M, Metric, HttpRequest, ◌>>=◌, continue, pure, fail, lift, attempt, ignore, gets, tick,
  now, observe, http_do, random_bytes,
}
use dinapay_connector_binanc.Effects.Sql.{
  Statement, exec_at, exec, query, transaction, finish, unless_fault, applied, commit,
}

-- The tables satisfy `I` after the action if they did before, whether it succeeds or not.
pub record Keeps {A : Type 0} (I : Database → Type 0) (m : M A) : Type 0 where
  pub at : (w : World) → I w.db → I (m w).1.db

-- The same of a statement that is applied.
pub record Safe {A : Type 0} (I : Database → Type 0) (stmt : Statement A) : Type 0 where
  pub after : (d d' : Database) (a : A) → stmt d ≡ ok (a, d') → I d → I d'

module _ (I : Database → Type 0) where
  unless_fault-db :
      {A : Type 0} (o : Option Text) (m : M A) (w : World)
      → I w.db
      → (I w.db → I (m w).1.db)
      → I (unless_fault o m w).1.db
  unless_fault-db none m w h k = k h
  unless_fault-db (some text) m w h k = h

  applied-db :
      {A : Type 0} (r : Result (A × Database)) (w : World)
      → ((a : A) (d : Database) → r ≡ ok (a, d) → I d)
      → I w.db
      → I (applied r w).1.db
  applied-db (ok (a, d)) w k h = k a d refl
  applied-db (err e) w k h = h

  commit-db :
      {A : Type 0} (o : Option Text) (before : Database) (a : A) (w : World)
      → I before
      → I w.db
      → I (commit o before a w).1.db
  commit-db none before a w hb h = h
  commit-db (some text) before a w hb h = hb

  finish-db :
      {A : Type 0} (before : Database) (r : Result (Bool × A)) (w : World)
      → I before
      → I w.db
      → I (finish before (r, w)).1.db
  unfolding finish
  finish-db before (ok (true, a)) w hb h = commit-db (w.env.fault w.step) before a (tick w) hb h
  finish-db before (ok (false, a)) w hb h = hb
  finish-db before (err e) w hb h = hb

  continue-db :
      {A B : Type 0} (r : Result A) (f : A → M B) (w : World)
      → ((a : A) → Keeps I (f a))
      → I w.db
      → I (continue r f w).1.db
  continue-db (ok a) f w k h = (k a).at w h
  continue-db (err e) f w k h = h

module _ {I : Database → Type 0} where
  module _ {A : Type 0} where
    pub Keeps-pure : (a : A) → Keeps I (pure a)
    unfolding pure
    Keeps-pure a = record { at = λ w h. h }

    pub Keeps-fail : (e : Error) → Keeps I (fail {A = A} e)
    unfolding fail
    Keeps-fail e = record { at = λ w h. h }

    pub Keeps-lift : (r : Result A) → Keeps I (lift r)
    unfolding lift
    Keeps-lift r = record { at = λ w h. h }

    pub Keeps-gets : (f : World → A) → Keeps I (gets f)
    unfolding gets
    Keeps-gets f = record { at = λ w h. h }

    pub Keeps-attempt : (m : M A) → Keeps I m → Keeps I (attempt m)
    unfolding attempt
    Keeps-attempt m k = record { at = λ w h. k.at w h }

    pub Keeps-ignore : (m : M A) → Keeps I m → Keeps I (ignore m)
    unfolding ignore
    Keeps-ignore m k = record { at = λ w h. k.at w h }

    pub Keeps-if : (b : Bool) (m n : M A) → Keeps I m → Keeps I n → Keeps I (if b then m else n)
    Keeps-if true m n km kn = km
    Keeps-if false m n km kn = kn

    pub Keeps-query : (read : Time → Database → A) → Keeps I (query read)
    unfolding query ◌>>=◌ now
    Keeps-query read = record {
      at = λ w h.
          unless_fault-db I (w.env.fault (suc w.step))
            (λ v. (ok (read (w.env.clock w.step) v.db), v)) (tick (tick w)) h (λ x. x);
    }

    pub Keeps-exec_at : (stmt : Statement A) → Safe I stmt → Keeps I (exec_at stmt)
    unfolding exec_at
    Keeps-exec_at stmt s = record {
      at = λ w h.
          unless_fault-db I (w.env.fault w.step) (applied (stmt w.db)) (tick w) h
            (applied-db I (stmt w.db) (tick w) (λ a d e. s.after w.db d a e h));
    }

    pub Keeps-exec :
        (stmt : Time → Statement A) → ((t : Time) → Safe I (stmt t)) → Keeps I (exec stmt)
    unfolding exec ◌>>=◌ now
    Keeps-exec stmt s = record {
      at =
          λ w h. (Keeps-exec_at (stmt (w.env.clock w.step)) (s (w.env.clock w.step))).at (tick w) h;
    }

    pub Keeps-transaction :
        (body : Time → M (Bool × A)) → ((t : Time) → Keeps I (body t)) → Keeps I (transaction body)
    unfolding transaction ◌>>=◌ now
    Keeps-transaction body k = record {
      at = λ w h.
          unless_fault-db I (w.env.fault (suc w.step))
            (λ v. finish w.db (body (w.env.clock w.step) v)) (tick (tick w)) h
            (λ x.
              let (r, w') = body (w.env.clock w.step) (tick (tick w)) in
              finish-db I w.db r w' h ((k (w.env.clock w.step)).at (tick (tick w)) h));
    }

  module _ {A B : Type 0} where
    pub Keeps-bind :
        (m : M A) (f : A → M B) → Keeps I m → ((a : A) → Keeps I (f a)) → Keeps I (m >>= f)
    unfolding ◌>>=◌
    Keeps-bind m f km kf = record {
      at = λ w h. let (r, w') = m w in continue-db I r f w' kf (km.at w h);
    }

  pub Keeps-now : Keeps I now
  unfolding now
  Keeps-now = record { at = λ w h. h }

  pub Keeps-observe : (m : Metric) → Keeps I (observe m)
  unfolding observe
  Keeps-observe m = record { at = λ w h. h }

  pub Keeps-http_do : (r : HttpRequest) → Keeps I (http_do r)
  unfolding http_do
  Keeps-http_do r = record { at = λ w h. h }

  pub Keeps-random_bytes : (n : ℕ) → Keeps I (random_bytes n)
  unfolding random_bytes
  Keeps-random_bytes n = record { at = λ w h. h }

pub ruleset keeps_rules = (
  Keeps-pure, Keeps-fail, Keeps-lift, Keeps-gets, Keeps-attempt, Keeps-ignore, Keeps-if,
  Keeps-query, Keeps-exec_at, Keeps-exec, Keeps-transaction, Keeps-bind, Keeps-now, Keeps-observe,
  Keeps-http_do, Keeps-random_bytes,
)
