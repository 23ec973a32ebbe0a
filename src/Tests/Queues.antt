-- ===== src/Tests/Queues.antt =====
-- The theorems on the work queue at a store of three tasks.
use paracooba.Prelude.{◌≡◌, refl, true, false, some, [], ◌∷◌, arith}
use paracooba.Task.{Task}
use paracooba.Store.State.{Store, has}
use paracooba.Store.Queue.{Offloading, quiet, offered, insert_into_queue, pop_work, pop_offload}
use paracooba.Store.Queue.Order.{IsOrdered, NoneBefore}
use paracooba.Store.Queue.Consistent.{IsConsistent, pop_work-first}
use paracooba.Store.Queue.Offload.{IsHandedOver, pop_offload-some}
use paracooba.Store.Queue.Reachable.{here, after, Fits, inserted, worked, Reachable-IsConsistent}
use paracooba.Tests.Data.{three, waiting}

three-IsOrdered : IsOrdered waiting (3 ∷ 2 ∷ 1 ∷ [])
unfolding paracooba.Task.compare paracooba.Path.path_length paracooba.Path.is_overlength
    paracooba.Path.is_extended
three-IsOrdered = ((refl, (refl, tt)), ((refl, tt), (tt, tt)))

pub three-IsConsistent : IsConsistent three
three-IsConsistent = record {
  ordered = three-IsOrdered;
  distinct = (refl, (refl, (refl, tt)));
  marked = λ p. refl;
  counted = refl;
  bounded = omega arith;
}

pop_work-first_example :
    let (taken, r) = pop_work three in
    (taken ≡ some 3)
    × (r.queue ≡ 2 ∷ 1 ∷ [])
    × NoneBefore waiting (waiting 3) (2 ∷ 1 ∷ [])
    × ((r.heap 3).state.work_available ≡ false)
    × ((r.heap 3).state.working ≡ true)
    × (has 3 r.being_worked_on ≡ true)
    × IsConsistent r
pop_work-first_example = pop_work-first three 3 (2 ∷ 1 ∷ []) three-IsConsistent refl

pop_offload-some_example : IsHandedOver 5 (λ t. true) three 1 (pop_offload 5 (λ t. true) three).1
unfolding pop_offload paracooba.Store.Queue.take_last
pop_offload-some_example = pop_offload-some 5 (λ t. true) three 1 three-IsConsistent refl

-- When the work is counted again, it is at once taken for node 6.
abbrev again : Offloading
again = offered 6 (λ t. true) quiet

-- Task 4 comes in and a task is taken for node 6 in the same call, and then a runner takes work.
Reachable-IsConsistent_example : IsConsistent (pop_work (insert_into_queue again 4 three)).1
unfolding Fits
Reachable-IsConsistent_example =
    let s = insert_into_queue again 4 three in
    Reachable-IsConsistent three (pop_work s).1 three-IsConsistent (
      after three s (pop_work s).1
        (after three three s (here three)
          (inserted again 4 three (record { out = refl; room = omega arith }) tt))
        (worked s))
