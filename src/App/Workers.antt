-- ===== src/App/Workers.antt =====
-- parallelEach of internal/app/reconciler.go: the loop that hands the items over, its workers, and the
-- context that may be done at any moment, as a step relation.
pub mod Conserved
pub mod Progress
use dinapay_connector_binanc.Shared.{
  ℕ, zero, suc, min, List, [], ◌∷◌, ◌++◌, ◌≡◌, length, Bool, true, false,
}
use dinapay_connector_binanc.Shared.Int.{ℤ, pos, negsuc}

-- RunReconciler: a concurrency below one is one.
unfoldable pub at_least_one : ℤ → ℕ
at_least_one (pos zero) = 1
at_least_one (pos (suc n)) = suc n
at_least_one (negsuc n) = 1

-- The items that the loop still has, those on which a worker is, and those that are done; how many
-- workers wait for an item, and whether the channel is closed.
pub record Pool (T : Type 0) : Type 0 where
  pub pending : List T
  pub busy : List T
  pub done : List T
  pub idle : ℕ
  pub closed : Bool

module _ {T : Type 0} where
  -- One worker for each item, up to the concurrency. With no item, or with a context that is done
  -- before, parallelEach returns at once, without these steps.
  unfoldable pub started : ℕ → List T → Pool T
  started concurrency items = record {
    pending = items;
    busy = [];
    done = [];
    idle = min concurrency (length items);
    closed = false;
  }

  -- `cancelled` says that the context may be done.
  pub data Step (cancelled : Bool) (p q : Pool T) : Type 0 where
    -- jobs <- item, and the worker's range over jobs
    hand :
        (x : T) (rest : List T) (n : ℕ)
        → p.closed ≡ false
        → p.pending ≡ x ∷ rest
        → p.idle ≡ suc n
        → q ≡ record p { pending = rest; busy = x ∷ p.busy; idle = n }
        → Step cancelled p q
    -- work(item) returns
    finish :
        (x : T) (before after : List T)
        → p.busy ≡ before ++ x ∷ after
        → q ≡ record p { busy = before ++ after; done = x ∷ p.done; idle = suc p.idle }
        → Step cancelled p q
    -- close(jobs), after the last item
    close : p.closed ≡ false → p.pending ≡ [] → q ≡ record p { closed = true } → Step cancelled p q
    -- case <-ctx.Done(), instead of handing the next item over
    cancel :
        (x : T) (rest : List T)
        → cancelled ≡ true
        → p.closed ≡ false
        → p.pending ≡ x ∷ rest
        → q ≡ record p { closed = true }
        → Step cancelled p q
    -- a worker leaves its loop and calls workers.Done()
    leave :
        (n : ℕ) → p.closed ≡ true → p.idle ≡ suc n → q ≡ record p { idle = n } → Step cancelled p q

  -- workers.Wait() returns, and with it parallelEach.
  pub record IsOver (p : Pool T) : Type 0 where
    pub closed : p.closed ≡ true
    pub free : p.busy ≡ []
    pub left : p.idle ≡ 0

  -- Some steps, one after the other.
  pub data Steps (cancelled : Bool) (p : Pool T) : ℕ → Pool T → Type 0 where
    here : Steps cancelled p 0 p
    next :
        {n : ℕ} {q r : Pool T}
        → Steps cancelled p n q
        → Step cancelled q r
        → Steps cancelled p (suc n) r
