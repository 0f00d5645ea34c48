-- ===== src/Effects/Sent.antt =====
-- What an action sends: nothing, or at most one request.
use dinapay_connector_binanc.Shared.{
  ℕ, suc, ◌≤◌, Text, ◌≡◌, refl, ◌∙◌, Bool, true, false, Option, none, some, if◌then◌else◌, arith,
  length, ap,
}
use dinapay_connector_binanc.Core.Value.{Time}
use dinapay_connector_binanc.Core.Error.{Error, Result, ok, err}
use dinapay_connector_binanc.Store.Schema.{Database}
use dinapay_connector_binanc.Effects.{
  World, M, Metric, HttpRequest, tick, ◌>>=◌, continue, pure, fail, lift, attempt, ignore, gets,
  now, observe, http_do, random_bytes,
}
use dinapay_connector_binanc.Effects.Sql.{
  Statement, exec_at, exec, query, transaction, finish, unless_fault,
}

pub record Quiet {A : Type 0} (m : M A) : Type 0 where
  pub at : (w : World) → (m w).1.sent ≡ w.sent

pub record Once {A : Type 0} (m : M A) : Type 0 where
  pub at : (w : World) → length (m w).1.sent ≤ suc (length w.sent)

module _ {A : Type 0} where
  pub Quiet-pure : (a : A) → Quiet (pure a)
  unfolding pure
  Quiet-pure a = record { at = λ w. refl }

  pub Quiet-fail : (e : Error) → Quiet (fail {A = A} e)
  unfolding fail
  Quiet-fail e = record { at = λ w. refl }

  pub Quiet-lift : (r : Result A) → Quiet (lift r)
  unfolding lift
  Quiet-lift r = record { at = λ w. refl }

  pub Quiet-gets : (f : World → A) → Quiet (gets f)
  unfolding gets
  Quiet-gets f = record { at = λ w. refl }

  pub Quiet-attempt : (m : M A) → Quiet m → Quiet (attempt m)
  unfolding attempt
  Quiet-attempt m q = record { at = λ w. q.at w }

  pub Once-attempt : (m : M A) → Once m → Once (attempt m)
  unfolding attempt
  Once-attempt m q = record { at = λ w. q.at w }

  pub Quiet-ignore : (m : M A) → Quiet m → Quiet (ignore m)
  unfolding ignore
  Quiet-ignore m q = record { at = λ w. q.at w }

  pub Quiet-if : (b : Bool) (m n : M A) → Quiet m → Quiet n → Quiet (if b then m else n)
  Quiet-if true m n qm qn = qm
  Quiet-if false m n qm qn = qn

  pub Once-if : (b : Bool) (m n : M A) → Once m → Once n → Once (if b then m else n)
  Once-if true m n qm qn = qm
  Once-if false m n qm qn = qn

  pub Once-Quiet : (m : M A) → Quiet m → Once m
  Once-Quiet m q = record { at = λ w. omega (arith, ap length (q.at w)) }

  pub Quiet-query : (read : Time → Database → A) → Quiet (query read)
  unfolding query ◌>>=◌ now
  Quiet-query read = record { at = λ w. ground arith }

  pub Quiet-exec_at : (stmt : Statement A) → Quiet (exec_at stmt)
  unfolding exec_at
  Quiet-exec_at stmt = record { at = λ w. ground arith }

  pub Quiet-exec : (stmt : Time → Statement A) → Quiet (exec stmt)
  unfolding exec exec_at ◌>>=◌ now
  Quiet-exec stmt = record { at = λ w. ground arith }

  unless_fault-sent :
      (o : Option Text) (m : M A) (w : World)
      → (m w).1.sent ≡ w.sent
      → (unless_fault o m w).1.sent ≡ w.sent
  unless_fault-sent none m w h = h
  unless_fault-sent (some text) m w h = refl

  finish-sent :
      (before : Database) (r : Result (Bool × A)) (w : World)
      → (finish before (r, w)).1.sent ≡ w.sent
  unfolding finish
  finish-sent before (ok (true, a)) w = ground arith
  finish-sent before (ok (false, a)) w = refl
  finish-sent before (err e) w = refl

  pub Quiet-transaction :
      (body : Time → M (Bool × A)) → ((t : Time) → Quiet (body t)) → Quiet (transaction body)
  unfolding transaction ◌>>=◌ now
  Quiet-transaction body q = record {
    at = λ w.
        unless_fault-sent (w.env.fault (suc w.step))
          (λ v. finish w.db (body (w.env.clock w.step) v)) (tick (tick w))
          (let (r, w') = body (w.env.clock w.step) (tick (tick w)) in
            finish-sent w.db r w' ∙ (q (w.env.clock w.step)).at (tick (tick w)));
  }

module _ {A B : Type 0} where
  continue-Quiet :
      (r : Result A) (f : A → M B) (w : World)
      → ((a : A) → Quiet (f a))
      → (continue r f w).1.sent ≡ w.sent
  continue-Quiet (ok a) f w q = (q a).at w
  continue-Quiet (err e) f w q = refl

  continue-Once :
      (r : Result A) (f : A → M B) (w : World)
      → ((a : A) → Once (f a))
      → length (continue r f w).1.sent ≤ suc (length w.sent)
  continue-Once (ok a) f w q = (q a).at w
  continue-Once (err e) f w q = omega arith

  pub Quiet-bind : (m : M A) (f : A → M B) → Quiet m → ((a : A) → Quiet (f a)) → Quiet (m >>= f)
  unfolding ◌>>=◌
  Quiet-bind m f qm qf = record {
    at = λ w. let (r, w') = m w in continue-Quiet r f w' qf ∙ qm.at w;
  }

  -- The request is sent by the first action, or by the rest.
  pub Once-first : (m : M A) (f : A → M B) → Once m → ((a : A) → Quiet (f a)) → Once (m >>= f)
  unfolding ◌>>=◌
  Once-first m f om qf = record {
    at = λ w. let (r, w') = m w in omega (arith, ap length (continue-Quiet r f w' qf), om.at w);
  }

  pub Once-rest : (m : M A) (f : A → M B) → Quiet m → ((a : A) → Once (f a)) → Once (m >>= f)
  unfolding ◌>>=◌
  Once-rest m f qm of = record {
    at = λ w. let (r, w') = m w in omega (arith, continue-Once r f w' of, ap length (qm.at w));
  }

pub Quiet-now : Quiet now
unfolding now
Quiet-now = record { at = λ w. refl }

pub Quiet-observe : (m : Metric) → Quiet (observe m)
unfolding observe
Quiet-observe m = record { at = λ w. refl }

pub Once-http_do : (r : HttpRequest) → Once (http_do r)
unfolding http_do
Once-http_do r = record { at = λ w. omega arith }

pub Quiet-random_bytes : (n : ℕ) → Quiet (random_bytes n)
unfolding random_bytes
Quiet-random_bytes n = record { at = λ w. refl }

pub ruleset quiet_rules = (
  Quiet-pure, Quiet-fail, Quiet-lift, Quiet-gets, Quiet-attempt, Quiet-ignore, Quiet-if,
  Quiet-query, Quiet-exec_at, Quiet-exec, Quiet-transaction, Quiet-bind, Quiet-now, Quiet-observe,
  Quiet-random_bytes,
)
