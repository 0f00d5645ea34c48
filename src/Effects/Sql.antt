-- ===== src/Effects/Sql.antt =====
-- Statements and transactions of pgx. A statement that fails changes nothing, and a transaction
-- that fails, its commit included, leaves the tables as they were at its begin.
use dinapay_connector_binanc.Shared.{Text, Option, none, some, Bool, true, false}
use dinapay_connector_binanc.Core.Value.{Time}
use dinapay_connector_binanc.Core.Error.{Result, ok, err, message}
use dinapay_connector_binanc.Store.Schema.{Database}
use dinapay_connector_binanc.Effects.{World, M, tick, ◌>>=◌, now}

-- What a statement answers: its rows, or their number, and the new tables, or a violated constraint.
abbrev pub Statement : Type 0 → Type 0
Statement A = Database → Result (A × Database)

module _ {A : Type 0} where
  abbrev pub applied : Result (A × Database) → M A
  applied (ok (a, d)) w = (ok a, record w { db = d })
  applied (err e) w = (err e, w)

  abbrev pub unless_fault : Option Text → M A → M A
  unless_fault none m w = m w
  unless_fault (some text) m w = (err (message text), w)

  -- tx.Exec
  unfoldable pub exec_at : Statement A → M A
  exec_at stmt w = unless_fault (w.env.fault w.step) (applied (stmt w.db)) (tick w)

  -- pool.Exec, or pool.Query with RETURNING: a transaction of its own, whose now() is read at its
  -- start.
  unfoldable pub exec : (Time → Statement A) → M A
  unfolding exec_at now
  exec stmt = do time ← now; exec_at (stmt time)

-- pool.Query and pool.QueryRow
unfoldable pub query : {A : Type 0} → (Time → Database → A) → M A
unfolding now
query read = do
  time ← now
  λ w. unless_fault (w.env.fault w.step) (λ v. (ok (read time v.db), v)) (tick w)

abbrev pub restore : Database → World → World
restore d w = record w { db = d }

-- tx.Commit
abbrev pub commit : {A : Type 0} → Option Text → Database → A → M A
commit none before a w = (ok a, w)
commit (some text) before a w = (err (message text), restore before w)

-- The end of a transaction that began with the tables `before`.
unfoldable pub finish : {A : Type 0} → Database → Result (Bool × A) × World → Result A × World
finish before (ok (true, a), w) = commit (w.env.fault w.step) before a (tick w)
finish before (ok (false, a), w) = (ok a, restore before w)
finish before (err e, w) = (err e, restore before w)

-- pool.Begin, the body, then tx.Commit if the body asks for it; the deferred tx.Rollback otherwise.
unfoldable pub transaction : {A : Type 0} → (Time → M (Bool × A)) → M A
unfolding finish now
transaction body = do
  time ← now
  λ w. unless_fault (w.env.fault w.step) (λ v. finish w.db (body time v)) (tick w)
