-- ===== src/Store/Refunds/Taken.antt =====
-- ReserveRefund where the refund's identifier is taken by another key.
use dinapay_connector_binanc.Shared.{
  suc, Text, ◌≡◌, true, false, none, arith, any, ◌==◌, nat_eq, text_eq, List, [], ◌∷◌, find?-any,
}
use dinapay_connector_binanc.Core.Value.{Time, Value}
use dinapay_connector_binanc.Core.Error.{ok}
use dinapay_connector_binanc.Core.Model.{CreateRefundCommand}
use dinapay_connector_binanc.Store.Schema.{RefundRow}
use dinapay_connector_binanc.Store.Refunds.{
  has_refund_key, refund_conflicts, new_refund, insert_refund, replay_reserved, replay_refund,
  reserve_refund,
}
use dinapay_connector_binanc.Effects.{World, ◌>>=◌, now, lift, pure}
use dinapay_connector_binanc.Effects.Sql.{exec, exec_at, query}

taken-conflicts :
    (key hash : Text) (payload : Value) (cmd : CreateRefundCommand) (t : Time)
    (rows : List RefundRow)
    → any (λ (r : RefundRow). r.refund_id == cmd.refund_id) rows ≡ true
    → any (refund_conflicts (new_refund key hash payload cmd t)) rows ≡ true
unfolding any refund_conflicts new_refund
taken-conflicts key hash payload cmd t [] h = cc
taken-conflicts key hash payload cmd t (r ∷ rows) h =
    ground (arith, taken-conflicts key hash payload cmd t rows)

-- A refund whose identifier stands in the table under other keys only is answered with no refund and
-- no error, as a new reservation is, though no row is written for its key. The two statements that
-- run must not fail.
pub reserve_refund_taken :
    (key hash : Text) (payload : Value) (cmd : CreateRefundCommand) (w : World)
    → any (λ (r : RefundRow). r.refund_id == cmd.refund_id) w.db.refunds ≡ true
    → any (has_refund_key key) w.db.refunds ≡ false
    → w.env.fault (suc w.step) ≡ none
    → w.env.fault (suc (suc (suc w.step))) ≡ none
    → ((reserve_refund key hash payload cmd w).0 ≡ ok none)
      × ((reserve_refund key hash payload cmd w).1.db ≡ w.db)
unfolding reserve_refund insert_refund replay_reserved replay_refund exec exec_at query now lift
    pure ◌>>=◌
reserve_refund_taken key hash payload cmd w taken fresh calm quiet = ground (
  arith,
  taken-conflicts key hash payload cmd (w.env.clock w.step) w.db.refunds taken,
  find?-any (has_refund_key key) w.db.refunds fresh,
)
