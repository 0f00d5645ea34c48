-- ===== src/Idempotency/Reserve.antt =====
-- What ReserveCreate answers: a key is granted to one caller, and to the others what it has led to.
use dinapay_connector_binanc.Shared.{Text, ◌≡◌, ◌≢◌, true, false, none, arith, any, text_beq_refl}
use dinapay_connector_binanc.Core.Value.{Value}
use dinapay_connector_binanc.Core.Error.{ok}
use dinapay_connector_binanc.Store.Operations.{insert_operation, reserve_create}
use dinapay_connector_binanc.Effects.{World, ◌>>=◌, now}
use dinapay_connector_binanc.Effects.Sql.{exec, exec_at, query}
use dinapay_connector_binanc.Invariants.Reserved.{is_reserved}

-- A key is granted only if no operation has it, and is taken then.
pub reserve_granted :
    (key hash : Text) (v : Value) (w : World)
    → (reserve_create key hash v w).0 ≡ ok none
    → (is_reserved key w.db ≡ false) × (is_reserved key (reserve_create key hash v w).1.db ≡ true)
unfolding reserve_create insert_operation exec exec_at query now ◌>>=◌ any
reserve_granted key hash v w h = ground (arith, text_beq_refl key)

-- A reservation that is not granted changes no table.
pub reserve_refused :
    (key hash : Text) (v : Value) (w : World)
    → (reserve_create key hash v w).0 ≢ ok none
    → (reserve_create key hash v w).1.db ≡ w.db
unfolding reserve_create insert_operation exec exec_at query now ◌>>=◌
reserve_refused key hash v w h = ground arith
