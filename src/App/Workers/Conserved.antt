-- ===== src/App/Workers/Conserved.antt =====
-- The items of parallelEach of reconciler.go.
use mathlib.Core.List.Permᴰ
use mathlib.Core.List.{Permᴰ, append-nil}
use mathlib.Core.Path.{subst}
use dinapay_connector_binanc.Shared.{
  ℕ, suc, ◌+◌, ◌≤◌, min, List, [], ◌∷◌, ◌++◌, ◌≡◌, refl, ◌∙◌, ap, length, Bool, true, false, arith,
}
use dinapay_connector_binanc.App.Workers.{Pool, Step, started, Steps, IsOver}

module _ {T : Type 0} where
  -- All items, wherever they are.
  abbrev pub items_of : Pool T → List T
  items_of p = p.done ++ (p.busy ++ p.pending)

  Step-conserved : {c : Bool} {p q : Pool T} → Step c p q → Permᴰ (items_of p) (items_of q)
  Step-conserved {p} (Step.hand x rest n o e i r) =
      rw (r, e) (Permᴰ.append_left p.done (Permᴰ.middle x p.busy rest))
  Step-conserved {p} (Step.finish x before after e r) =
      rw (r, e)
        (Permᴰ.trans
          (Permᴰ.append_left p.done (Permᴰ.append_right p.pending (Permᴰ.middle x before after)))
          (Permᴰ.middle x p.done ((before ++ after) ++ p.pending)))
  Step-conserved {p} (Step.close o e r) = rw r (Permᴰ.refl _)
  Step-conserved {p} (Step.cancel x rest c o e r) = rw r (Permᴰ.refl _)
  Step-conserved {p} (Step.leave n o i r) = rw r (Permᴰ.refl _)

  Steps-conserved :
      {c : Bool} {p : Pool T} {n : ℕ} {q : Pool T} → Steps c p n q → Permᴰ (items_of p) (items_of q)
  Steps-conserved Steps.here = Permᴰ.refl _
  Steps-conserved (Steps.next r st) = Permᴰ.trans (Steps-conserved r) (Step-conserved st)

  pub length-middle :
      (x : T) (before after : List T)
      → length (before ++ x ∷ after) ≡ suc (length (before ++ after))
  length-middle x [] after = refl
  length-middle x (y ∷ before) after = ap suc (length-middle x before after)

  -- The number of workers does not grow, and does not change while the channel is open.
  Step-workers :
      {c : Bool} {p q : Pool T}
      → Step c p q
      → (length q.busy + q.idle ≤ length p.busy + p.idle)
        × (q.closed ≡ false → length q.busy + q.idle ≡ length p.busy + p.idle)
        × (q.closed ≡ false → p.closed ≡ false)
  Step-workers {p} (Step.hand x rest n o e i r) = rw (r, i) (omega arith, λ h. omega arith, λ h. o)
  Step-workers {p} (Step.finish x before after e r) =
      rw (r, e) (let k = length-middle x before after in (omega arith, λ h. omega arith, λ h. h))
  Step-workers {p} (Step.close o e r) = rw r (omega arith, λ h. cc, λ h. cc)
  Step-workers {p} (Step.cancel x rest c o e r) = rw r (omega arith, λ h. cc, λ h. cc)
  Step-workers {p} (Step.leave n o i r) = rw (r, i) (omega arith, λ h. cc, λ h. cc)

  -- From the start, at most `k` workers are there, and as long as the channel is open, all of them.
  pub Steps-workers :
      {c : Bool} (k : ℕ) (items : List T) {n : ℕ} {q : Pool T}
      → Steps c (started k items) n q
      → (length q.busy + q.idle ≤ min k (length items))
        × (q.closed ≡ false → length q.busy + q.idle ≡ min k (length items))
  unfolding started
  Steps-workers k items Steps.here = (omega arith, λ h. omega arith)
  Steps-workers k items (Steps.next r st) =
      let (few, all) = Steps-workers k items r in
      let (less, same, open_before) = Step-workers st in
      (omega arith, λ h. let e = same h in let f = all (open_before h) in omega arith)

  -- Without cancellation the channel is closed after the last item.
  Step-emptied :
      {p q : Pool T}
      → Step false p q
      → (p.closed ≡ true → p.pending ≡ [])
      → q.closed ≡ true
      → q.pending ≡ []
  Step-emptied (Step.hand x rest n o e i r) k h = ground (arith, r)
  Step-emptied (Step.finish x before after e r) k h = ground (arith, r)
  Step-emptied (Step.close o e r) k h = ground (arith, r)
  Step-emptied (Step.cancel x rest c o e r) k h = cc
  Step-emptied (Step.leave n o i r) k h = ground (arith, r)

  Steps-emptied :
      (k : ℕ) (items : List T) {n : ℕ} {q : Pool T}
      → Steps false (started k items) n q
      → q.closed ≡ true
      → q.pending ≡ []
  unfolding started
  Steps-emptied k items Steps.here h = cc
  Steps-emptied k items (Steps.next r st) h = Step-emptied st (Steps-emptied k items r) h

  -- At every moment of parallelEach, cancelled or not, no item is lost and none is there twice, and no
  -- more than `k` items are worked on at a time.
  pub parallel_each-conserved :
      (c : Bool) (k : ℕ) (items : List T) (n : ℕ) (p : Pool T)
      → Steps c (started k items) n p
      → Permᴰ items (items_of p) × (length p.busy ≤ k)
  unfolding started
  parallel_each-conserved c k items n p r =
      let (few, all) = Steps-workers k items r in (Steps-conserved r, omega arith)

  -- When parallelEach returns without having been cancelled, it has worked on each item exactly once.
  pub parallel_each-done :
      (k : ℕ) (items : List T) (n : ℕ) (p : Pool T)
      → Steps false (started k items) n p
      → IsOver p
      → Permᴰ items p.done
  unfolding started
  parallel_each-done k items n p r over =
      let kept : Permᴰ items (items_of p) = Steps-conserved r in
      let e : items_of p ≡ p.done ++ [] =
        rw (over.free, Steps-emptied k items r over.closed) refl in
      subst (Permᴰ items) (e ∙ append-nil p.done) kept
