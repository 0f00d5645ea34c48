-- ===== src/Connector/Sound.antt =====
-- The tables of a connector that main has started.
use dinapay_connector_binanc.Shared.{List, ◌≡◌, refl, arith, Unique-update_where}
use dinapay_connector_binanc.Core.Error.{Result, ok, err}
use dinapay_connector_binanc.Core.Value.{Time}
use dinapay_connector_binanc.Store.Schema.{Database}
use dinapay_connector_binanc.Store.Stats.{migrate, open_store, needs_backfill, backfilled}
use dinapay_connector_binanc.Effects.{World, M, ◌>>=◌, continue}
use dinapay_connector_binanc.Effects.Keeps.{Keeps, Safe, keeps_rules}
use dinapay_connector_binanc.Invariants.Outbox.{IsMirrored, mirrored_tables}
use dinapay_connector_binanc.Invariants.Unique.{IsUnique, same_order, unique_tables}
use dinapay_connector_binanc.Invariants.Scheduled.{IsScheduled, scheduled_tables}
use dinapay_connector_binanc.Invariants.Opened.{open_store-IsScheduled}
use dinapay_connector_binanc.Connector.{Event, run, boot}
use dinapay_connector_binanc.Connector.Configuration.{Process, Connector}
use dinapay_connector_binanc.Connector.Keeps.{run-Keeps}

-- Where the action succeeds, the tables have the property.
record Establishes {A : Type 0} (I : Database → Type 0) (m : M A) : Type 0 where
  at : (w : World) (a : A) → (m w).0 ≡ ok a → I (m w).1.db

module _ {I : Database → Type 0} {A B : Type 0} (m : M A) (f : A → M B) where
  Establishes-last : ((a : A) → Establishes I (f a)) → Establishes I (m >>= f)
  unfolding ◌>>=◌
  Establishes-last k = record { at = λ w b h. let (r, v) = m w in last r v b h }
    where
      last :
          (r : Result A) (v : World) (b : B) → (continue r f v).0 ≡ ok b → I (continue r f v).1.db
      last (ok a) v b h = (k a).at v b h
      last (err e) v b h = cc

  Establishes-first : Establishes I m → ((a : A) → Keeps I (f a)) → Establishes I (m >>= f)
  unfolding ◌>>=◌
  Establishes-first e k = record { at = λ w b h. let (r, v) = m w in last r v (e.at w) b h }
    where
      last :
          (r : Result A) (v : World)
          → ((a : A) → r ≡ ok a → I v.db)
          → (b : B) → (continue r f v).0 ≡ ok b
          → I (continue r f v).1.db
      last (ok a) v i b h = (k a).at v (i a refl)
      last (err e) v i b h = cc

migrate-IsMirrored : (t : Time) → Safe IsMirrored (migrate t)
unfolding migrate
migrate-IsMirrored t = record { after = λ d d' n e i. ground arith }

migrate-IsUnique : (t : Time) → Safe IsUnique (migrate t)
unfolding migrate backfilled
migrate-IsUnique t = record {
  after = λ d d' n e u. ground (
    arith,
    Unique-update_where same_order needs_backfill (backfilled t) d.orders (λ x y. refl)
        (λ x y. refl) u.orders,
  );
}

boot-Keeps :
    (I : Database → Type 0) (p : Process) → ((t : Time) → Safe I (migrate t)) → Keeps I (boot p)
unfolding boot open_store
boot-Keeps I p safe = search (keeps_rules, safe) depth 30

boot-IsScheduled : (p : Process) → Establishes IsScheduled (boot p)
unfolding boot
boot-IsScheduled p = Establishes-last _ _ (λ database. Establishes-last _ _ (λ token.
    Establishes-last _ _ (λ text. Establishes-last _ _ (λ env. Establishes-last _ _ (λ connections.
      Establishes-last _ _ (λ connected.
        Establishes-first _ _ (record { at = λ w a h. open_store-IsScheduled w h })
          (λ opened. search keeps_rules depth 12)))))))

-- However main starts the connector, and whatever requests, webhooks and ticks follow: from tables in
-- which the outbox mirrors the accepted events and the constraints hold, and whatever the due times,
-- these two stay so and each open order has a due time.
pub connector-IsSound :
    (p : Process) (w : World) (c : Connector) (events : List Event)
    → IsMirrored w.db
    → IsUnique w.db
    → (boot p w).0 ≡ ok c
    → IsMirrored (run c events (boot p w).1).db
      × IsUnique (run c events (boot p w).1).db
      × IsScheduled (run c events (boot p w).1).db
connector-IsSound p w c events mirrored unique h = (
  run-Keeps IsMirrored c events _ ((boot-Keeps IsMirrored p migrate-IsMirrored).at w mirrored),
  run-Keeps IsUnique c events _ ((boot-Keeps IsUnique p migrate-IsUnique).at w unique),
  run-Keeps IsScheduled c events _ ((boot-IsScheduled p).at w c h),
)
