-- ===== src/Invariants/Offered.antt =====
-- What PendingEvents of internal/adapters/postgres/store.go offers to the publisher.
use dinapay_connector_binanc.Shared.{
  ℕ, zero, suc, Text, List, [], ◌∷◌, map, take, select, ◌≡◌, refl, Bool, true, false, ◌==◌, text_eq,
  arith, any, update_where, any-update_where,
}
use dinapay_connector_binanc.Core.Error.{ok}
use dinapay_connector_binanc.Core.Value.{Time}
use dinapay_connector_binanc.Store.Schema.{OutboxRow}
use dinapay_connector_binanc.Store.Events.{
  OutboxItem, has_event, is_unpublished, is_pending, insert_by_age, sort_by_age, outbox_item,
  pending_events, published, set_published, mark_published,
}
use dinapay_connector_binanc.Effects.{World, ◌>>=◌, now, pure}
use dinapay_connector_binanc.Effects.Sql.{exec, exec_at, query}
use dinapay_connector_binanc.Connector.{Event, run}
use dinapay_connector_binanc.Connector.Configuration.{Connector}
use dinapay_connector_binanc.Connector.Keeps.{run-Keeps}
use dinapay_connector_binanc.Invariants.Delivered.{waits, IsDelivered, delivered_tables}

-- Is the event among the items?
abbrev pub offers : Text → List OutboxItem → Bool
offers id items = any (λ (i : OutboxItem). i.event_id == id) items

module _ (id : Text) where
  due-absent :
      (t : Time) (rows : List OutboxRow)
      → any (waits id) rows ≡ false
      → any (has_event id) (select (is_pending t) rows) ≡ false
  unfolding any select is_pending is_unpublished
  due-absent t [] h = refl
  due-absent t (r ∷ rows) h = ground (arith, due-absent t rows)

  insert-absent :
      (r : OutboxRow) (rows : List OutboxRow)
      → has_event id r ≡ false
      → any (has_event id) rows ≡ false
      → any (has_event id) (insert_by_age r rows) ≡ false
  unfolding any insert_by_age
  insert-absent r [] h k = ground arith
  insert-absent r (q ∷ rows) h k = ground (arith, insert-absent r rows)

  sorted-absent :
      (rows : List OutboxRow)
      → any (has_event id) rows ≡ false
      → any (has_event id) (sort_by_age rows) ≡ false
  unfolding any sort_by_age
  sorted-absent [] h = refl
  sorted-absent (r ∷ rows) h =
      ground (arith, insert-absent r (sort_by_age rows), sorted-absent rows)

  taken-absent :
      (n : ℕ) (rows : List OutboxRow)
      → any (has_event id) rows ≡ false
      → offers id (map outbox_item (take n rows)) ≡ false
  unfolding any outbox_item
  taken-absent zero rows h = refl
  taken-absent (suc n) [] h = refl
  taken-absent (suc n) (r ∷ rows) h = ground (arith, taken-absent n rows)

  pending-absent :
      (limit : ℕ) (w : World) (items : List OutboxItem)
      → IsDelivered id w.db
      → (pending_events limit w).0 ≡ ok items
      → offers id items ≡ false
  unfolding pending_events query now ◌>>=◌
  pending-absent limit w items d h =
      let time = w.env.clock w.step in
      let absent =
        taken-absent limit (sort_by_age (select (is_pending time) w.db.outbox))
          (sorted-absent _ (due-absent time w.db.outbox d.delivered)) in
      ground arith

  all-published :
      (t : Time) (rows : List OutboxRow)
      → any (waits id) (update_where (has_event id) (published t) rows) ≡ false
  unfolding any update_where published is_unpublished
  all-published t [] = refl
  all-published t (r ∷ rows) = ground (arith, all-published t rows)

  mark_published-IsDelivered :
      (w : World)
      → any (has_event id) w.db.outbox ≡ true
      → (mark_published id w).0 ≡ ok tt
      → IsDelivered id (mark_published id w).1.db
  unfolding mark_published set_published exec exec_at now pure ◌>>=◌
  mark_published-IsDelivered w present h = ground (
    arith,
    any-update_where (has_event id) (has_event id) (published (w.env.clock w.step)) w.db.outbox
        (λ x. refl),
    all-published (w.env.clock w.step) w.db.outbox,
  )

-- Once MarkPublished has succeeded for an event of the outbox, PendingEvents never offers the event
-- again, whatever requests, webhooks and ticks follow.
pub mark_published-offers :
    (id : Text) (c : Connector) (events : List Event) (w : World) (limit : ℕ)
    (items : List OutboxItem)
    → any (has_event id) w.db.outbox ≡ true
    → (mark_published id w).0 ≡ ok tt
    → (pending_events limit (run c events (mark_published id w).1)).0 ≡ ok items
    → offers id items ≡ false
mark_published-offers id c events w limit items present marked h =
    pending-absent id limit (run c events (mark_published id w).1) items
      (run-Keeps (IsDelivered id) ⦃k = delivered_tables id⦄ c events _
        (mark_published-IsDelivered id w present marked))
      h
