-- ===== src/Tests/Workers.antt =====
-- Two workers on three items.
use mathlib.Core.List.{Permᴰ}
use dinapay_connector_binanc.Shared.{
  ℕ, ◌+◌, ◌*◌, ◌≤◌, List, [], ◌∷◌, ◌⊎◌, refl, length, true, false, arith,
}
use dinapay_connector_binanc.App.Workers.{Pool, Step, Steps, IsOver, started}
use dinapay_connector_binanc.App.Workers.Conserved.{
  items_of, parallel_each-conserved, parallel_each-done,
}
use dinapay_connector_binanc.App.Workers.Progress.{parallel_each-bound, parallel_each-progress}

abbrev items : List ℕ
items = 7 ∷ 8 ∷ 9 ∷ []

-- Two items are handed over, and the first is finished; then the context is done.
abbrev cancelled_pool : Pool ℕ
cancelled_pool = record { pending = 9 ∷ []; busy = 8 ∷ []; done = 7 ∷ []; idle = 1; closed = true }

cancelled_run : Steps true (started 2 items) 4 cancelled_pool
unfolding started
cancelled_run =
    Steps.next
      (Steps.next
        (Steps.next (Steps.next Steps.here (Step.hand 7 (8 ∷ 9 ∷ []) 1 refl refl refl refl))
          (Step.hand 8 (9 ∷ []) 0 refl refl refl refl))
        (Step.finish 7 (8 ∷ []) [] refl refl))
      (Step.cancel 9 [] refl refl refl refl)

parallel_each-conserved_example :
    Permᴰ items (items_of cancelled_pool) × (length cancelled_pool.busy ≤ 2)
parallel_each-conserved_example =
    parallel_each-conserved true 2 items 4 cancelled_pool cancelled_run

parallel_each-bound_example : 4 ≤ 4 * length items + 1
parallel_each-bound_example = parallel_each-bound true 2 items 4 cancelled_pool cancelled_run

parallel_each-progress_example : IsOver cancelled_pool ⊎ ((q : Pool ℕ) × Step true cancelled_pool q)
parallel_each-progress_example =
    parallel_each-progress true 2 items 4 cancelled_pool (omega arith) cancelled_run

-- One worker on two items, to the end.
abbrev pair : List ℕ
pair = 7 ∷ 8 ∷ []

abbrev over_pool : Pool ℕ
over_pool = record { pending = []; busy = []; done = 8 ∷ 7 ∷ []; idle = 0; closed = true }

over_run : Steps false (started 1 pair) 6 over_pool
unfolding started
over_run =
    Steps.next
      (Steps.next
        (Steps.next
          (Steps.next
            (Steps.next (Steps.next Steps.here (Step.hand 7 (8 ∷ []) 0 refl refl refl refl))
              (Step.finish 7 [] [] refl refl))
            (Step.hand 8 [] 0 refl refl refl refl))
          (Step.finish 8 [] [] refl refl))
        (Step.close refl refl refl))
      (Step.leave 0 refl refl refl)

parallel_each-done_example : Permᴰ pair over_pool.done
parallel_each-done_example =
    parallel_each-done 1 pair 6 over_pool over_run
      (record { closed = refl; free = refl; left = refl })
