-- ===== src/App/Workers/Progress.antt =====
-- The steps of parallelEach of reconciler.go, and their number.
use dinapay_connector_binanc.Shared.{
  ℕ, zero, suc, ◌+◌, ◌*◌, ◌≤◌, List, [], ◌∷◌, ◌≡◌, refl, ap, ◌⊎◌, inl, inr, length, Bool, true,
  false, arith, if◌then◌else◌,
}
use dinapay_connector_binanc.App.Workers.{Pool, Step, started, Steps, IsOver}
use dinapay_connector_binanc.App.Workers.Conserved.{length-middle, Steps-workers}

module _ {T : Type 0} where
  -- What is left to do: each pending item is handed over, worked on, and its worker leaves.
  abbrev measure : Pool T → ℕ
  measure p = 3 * length p.pending + 2 * length p.busy + p.idle + (if p.closed then 0 else 1)

  Step-measure : {c : Bool} {p q : Pool T} → Step c p q → suc (measure q) ≤ measure p
  Step-measure {p} (Step.hand x rest n o e i r) = rw (r, e, i) (omega arith)
  Step-measure {p} (Step.finish x before after e r) =
      rw (r, e) (let k = length-middle x before after in omega arith)
  Step-measure {p} (Step.close o e r) = rw (r, e, o) (omega arith)
  Step-measure {p} (Step.cancel x rest c o e r) = rw (r, o) (omega arith)
  Step-measure {p} (Step.leave n o i r) = rw (r, i) (omega arith)

  Steps-measure :
      {c : Bool} {p : Pool T} {n : ℕ} {q : Pool T} → Steps c p n q → n + measure q ≤ measure p
  Steps-measure Steps.here = omega arith
  Steps-measure (Steps.next r st) =
      let a = Steps-measure r in let b = Step-measure st in omega arith

  -- No run of parallelEach, cancelled or not, is longer than four steps for each item and one.
  pub parallel_each-bound :
      (c : Bool) (k : ℕ) (items : List T) (n : ℕ) (p : Pool T)
      → Steps c (started k items) n p
      → n ≤ 4 * length items + 1
  unfolding started
  parallel_each-bound c k items n p r = let a = Steps-measure r in omega arith

  Step-pending : {c : Bool} {p q : Pool T} → Step c p q → length q.pending ≤ length p.pending
  Step-pending {p} (Step.hand x rest n o e i r) = rw (r, e) (omega arith)
  Step-pending {p} (Step.finish x before after e r) = rw r (omega arith)
  Step-pending {p} (Step.close o e r) = rw r (omega arith)
  Step-pending {p} (Step.cancel x rest c o e r) = rw r (omega arith)
  Step-pending {p} (Step.leave n o i r) = rw r (omega arith)

  Steps-pending :
      {c : Bool} {p : Pool T} {n : ℕ} {q : Pool T}
      → Steps c p n q
      → length q.pending ≤ length p.pending
  Steps-pending Steps.here = omega arith
  Steps-pending (Steps.next r st) =
      let a = Steps-pending r in let b = Step-pending st in omega arith

  -- A pool has a step, where items that are left find a worker.
  pool-step :
      (c : Bool) (p : Pool T) (pending : List T) (busy : List T) (idle : ℕ) (closed : Bool)
      → p.pending ≡ pending
      → p.busy ≡ busy
      → p.idle ≡ idle
      → p.closed ≡ closed
      → (closed ≡ false → busy ≡ [] → idle ≡ 0 → length pending ≡ 0)
      → IsOver p ⊎ ((q : Pool T) × Step c p q)
  pool-step c p pending (x ∷ rest) idle closed e b i o h = inr (_, Step.finish x [] rest b refl)
  pool-step c p pending [] zero true e b i o h = inl (record { closed = o; free = b; left = i })
  pool-step c p pending [] (suc n) true e b i o h = inr (_, Step.leave n o i refl)
  pool-step c p [] [] idle false e b i o h = inr (_, Step.close o e refl)
  pool-step c p (x ∷ rest) [] (suc n) false e b i o h = inr (_, Step.hand x rest n o e i refl)
  pool-step c p (x ∷ rest) [] zero false e b i o h =
      let none_left : suc (length rest) ≡ 0 = h refl refl refl in absurd (omega arith)

  -- parallelEach, cancelled or not, never comes to a stop before it is over.
  pub parallel_each-progress :
      (c : Bool) (k : ℕ) (items : List T) (n : ℕ) (p : Pool T)
      → 1 ≤ k
      → Steps c (started k items) n p
      → IsOver p ⊎ ((q : Pool T) × Step c p q)
  unfolding started
  parallel_each-progress c k items n p h r =
      let (few, all) = Steps-workers k items r in
      let less = Steps-pending r in
      pool-step c p p.pending p.busy p.idle p.closed refl refl refl refl
        (λ o b e. let f = all o in let g : length p.busy ≡ 0 = ap length b in omega arith)
