-- ===== src/Store/Schedule/Claim.antt =====
-- Which orders ClaimPaymentsForReconciliation takes.
use mathlib.Core.List.Permᴰ
use mathlib.Core.List.{Permᴰ}
use dinapay_connector_binanc.Shared.{
  ℕ, zero, suc, ◌∙◌, ap, ◌≤◌, ◌++◌, ◌&&◌, ◌||◌, ◌==◌, text_eq, lit, leb, drop, none, some,
  Bool-cases, Option-cases, inl, inr, Text, List, [], ◌∷◌, ◌≡◌, refl, Bool, false, not, arith, any,
  take, select, length, count_where, min, ltb,
}
use dinapay_connector_binanc.Core.Value.{Time}
use dinapay_connector_binanc.Store.Schema.{Order, Database}
use dinapay_connector_binanc.Store.Schedule.{
  or_zero, insert_by_due, sort_by_due, claimable, chosen, is_due,
}
use dinapay_connector_binanc.Store.Orders.{is_open}

-- In the order of their due times.
unfoldable pub IsOrdered : List Order → Type 0
IsOrdered [] = Unit
IsOrdered (o ∷ os) =
    (any (λ p. ltb (or_zero p.next_reconcile_at) (or_zero o.next_reconcile_at)) os ≡ false)
    × IsOrdered os

any-insert :
    (q : Order → Bool) (o : Order) (os : List Order) → any q (insert_by_due o os) ≡ any q (o ∷ os)
unfolding any insert_by_due
any-insert q o [] = refl
any-insert q o (p ∷ ps) = ground (arith, any-insert q o ps)

-- The orders that are due before an earlier time are due before a later one.
any-later :
    (t u : Time) (os : List Order)
    → t ≤ u
    → any (λ p. ltb (or_zero p.next_reconcile_at) u) os ≡ false
    → any (λ p. ltb (or_zero p.next_reconcile_at) t) os ≡ false
unfolding any
any-later t u [] le h = refl
any-later t u (p ∷ ps) le h = ground (arith, any-later t u ps)

insert-IsOrdered : (o : Order) (os : List Order) → IsOrdered os → IsOrdered (insert_by_due o os)
unfolding IsOrdered insert_by_due any
insert-IsOrdered o [] h = (refl, tt)
insert-IsOrdered o (p ∷ ps) h = ground (
  arith,
  any-later (or_zero o.next_reconcile_at) (or_zero p.next_reconcile_at) ps,
  any-insert (λ x. ltb (or_zero x.next_reconcile_at) (or_zero p.next_reconcile_at)) o ps,
  insert-IsOrdered o ps h.1,
)

sort-IsOrdered : (os : List Order) → IsOrdered (sort_by_due os)
unfolding IsOrdered sort_by_due
sort-IsOrdered [] = tt
sort-IsOrdered (o ∷ os) = insert-IsOrdered o (sort_by_due os) (sort-IsOrdered os)

length-insert : (o : Order) (os : List Order) → length (insert_by_due o os) ≡ suc (length os)
unfolding insert_by_due
length-insert o [] = refl
length-insert o (p ∷ ps) = ground (arith, length-insert o ps)

length-sort : (os : List Order) → length (sort_by_due os) ≡ length os
unfolding sort_by_due
length-sort [] = refl
length-sort (o ∷ os) = ground (arith, length-insert o (sort_by_due os), length-sort os)

any-take :
    (q : Order → Bool) (n : ℕ) (os : List Order) → any q os ≡ false → any q (take n os) ≡ false
unfolding any
any-take q zero os h = refl
any-take q (suc n) [] h = refl
any-take q (suc n) (o ∷ os) h = ground (arith, any-take q n os)

take-IsOrdered : (n : ℕ) (os : List Order) → IsOrdered os → IsOrdered (take n os)
unfolding IsOrdered
take-IsOrdered zero os h = tt
take-IsOrdered (suc n) [] h = tt
take-IsOrdered (suc n) (o ∷ os) h = (any-take _ n os h.0, take-IsOrdered n os h.1)

length-take : (n : ℕ) (os : List Order) → length (take n os) ≡ min n (length os)
length-take zero os = omega arith
length-take (suc n) [] = omega arith
length-take (suc n) (o ∷ os) = ground (arith, length-take n os)

length-select : (p : Order → Bool) (os : List Order) → length (select p os) ≡ count_where p os
unfolding select count_where
length-select p [] = refl
length-select p (o ∷ os) = ground (arith, length-select p os)

-- The sort keeps the rows.
insert-perm : (o : Order) (os : List Order) → Permᴰ (o ∷ os) (insert_by_due o os)
unfolding insert_by_due
insert-perm o [] = Permᴰ.refl (o ∷ [])
insert-perm o (p ∷ ps) =
    elim (Bool-cases (leb (or_zero o.next_reconcile_at) (or_zero p.next_reconcile_at))) [
      | inl e ↦ rw e (Permᴰ.refl (o ∷ p ∷ ps))
      | inr e ↦ rw e (Permᴰ.trans (Permᴰ.swap refl refl) (Permᴰ.cons refl (insert-perm o ps)))
    ]

sort-perm : (os : List Order) → Permᴰ os (sort_by_due os)
unfolding sort_by_due
sort-perm [] = Permᴰ.nil
sort-perm (o ∷ os) = Permᴰ.trans (Permᴰ.cons refl (sort-perm os)) (insert-perm o (sort_by_due os))

-- What the limit cuts off.
take-append-drop : (n : ℕ) (os : List Order) → take n os ++ drop n os ≡ os
take-append-drop zero os = refl
take-append-drop (suc n) [] = refl
take-append-drop (suc n) (o ∷ os) = ap (◌∷◌ o) (take-append-drop n os)

any-drop :
    (q : Order → Bool) (n : ℕ) (os : List Order) → any q os ≡ false → any q (drop n os) ≡ false
unfolding any
any-drop q zero os h = h
any-drop q (suc n) [] h = h
any-drop q (suc n) (o ∷ os) h = ground (arith, any-drop q n os)

any-or :
    (q r : Order → Bool) (os : List Order)
    → any q os ≡ false
    → any r os ≡ false
    → any (λ o. q o || r o) os ≡ false
unfolding any
any-or q r [] h k = refl
any-or q r (o ∷ os) h k = ground (arith, any-or q r os)

any-never : (os : List Order) → any (λ o. false) os ≡ false
unfolding any
any-never [] = refl
any-never (o ∷ os) = any-never os

-- Is `p` due before one of the orders?
unfoldable pub is_before : List Order → Order → Bool
is_before os p = any (λ o. ltb (or_zero p.next_reconcile_at) (or_zero o.next_reconcile_at)) os

cut-IsOrdered :
    (n : ℕ) (os : List Order) → IsOrdered os → any (is_before (take n os)) (drop n os) ≡ false
unfolding IsOrdered is_before any
cut-IsOrdered zero os h = any-never os
cut-IsOrdered (suc n) [] h = refl
cut-IsOrdered (suc n) (o ∷ os) h =
    any-or (λ p. ltb (or_zero p.next_reconcile_at) (or_zero o.next_reconcile_at))
      (is_before (take n os)) (drop n os) (any-drop _ n os h.0) (cut-IsOrdered n os h.1)

-- The rows that a claim may take: open, due at the given time, and not locked.
unfoldable pub may_be_claimed : (Text → Text → Bool) → Time → Order → Bool
may_be_claimed locked time o =
    (o.status == lit "created" || o.status == lit "pending")
    && elim o.next_reconcile_at [ none ↦ false | some due ↦ leb due time ]
    && not (locked o.provider_connection_id o.provider_payment_id)

claimable_lem :
    (locked : Text → Text → Bool) (time : Time) (o : Order)
    → claimable locked time o ≡ may_be_claimed locked time o
unfolding claimable may_be_claimed is_due is_open
claimable_lem locked time o = elim (Option-cases o.next_reconcile_at) [
  | inl e ↦ rw e refl
  | inr (t, e) ↦ rw e refl
]

select_ext :
    (p q : Order → Bool) → ((o : Order) → p o ≡ q o) → (os : List Order) → select p os ≡ select q os
unfolding select
select_ext p q h [] = refl
select_ext p q h (o ∷ os) = rw (h o, select_ext p q h os) refl

-- The rows that may be claimed are those that a claim takes, each once, and others. Those that it takes
-- are in the order of their due times, and none of the others is due before one of them. They are as
-- many as the limit, or all of them where these are fewer.
pub chosen-IsOrdered :
    (locked : Text → Text → Bool) (limit : ℕ) (time : Time) (d : Database)
    → let rows = chosen locked limit time d in
      ((others : List Order) × Permᴰ (select (may_be_claimed locked time) d.orders) (rows ++ others)
        × (any (is_before rows) others ≡ false))
      × IsOrdered rows
      × (length rows ≡ min limit (count_where (may_be_claimed locked time) d.orders))
unfolding chosen
chosen-IsOrdered locked limit time d =
    let rows = select (may_be_claimed locked time) d.orders in
    let sorted = sort_by_due rows in
    let ordered = sort-IsOrdered rows in
    rw (select_ext _ _ (claimable_lem locked time) d.orders) (
      (
        drop limit sorted,
        rw (take-append-drop limit sorted) (sort-perm rows),
        cut-IsOrdered limit sorted ordered,
      ),
      take-IsOrdered limit sorted ordered,
      length-take limit sorted
          ∙ ap (min limit) (length-sort rows ∙ length-select (may_be_claimed locked time) d.orders),
    )
