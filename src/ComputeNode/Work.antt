-- ===== src/ComputeNode/Work.antt =====
-- The count of work of one solver instance (modules/broker/broker_compute_node.cpp).
use paracooba.Prelude.{
  ℕ, ◌≡◌, refl, ap, true, Option, none, some, [], ◌∷◌, ◌==◌, ltb, Bool-cases, arith, inl, inr,
}
use paracooba.Store.State.{succ64, pred64}
use paracooba.ComputeNode.{
  SolverInstance, new_instance, Instances, NodeStatus, find_instance, write_instance,
  increment_work, decrement_work,
}

-- The entry that `operator[]` gives.
abbrev pub entry : Option SolverInstance → SolverInstance
entry none = new_instance
entry (some i) = i

-- What this status counts for the originator.
abbrev pub work_for : ℕ → NodeStatus → ℕ
work_for id s = (entry (find_instance id s.solver_instances)).work_queue_size

pub find-write :
    (id : ℕ) (f : SolverInstance → SolverInstance) (is : Instances)
    → find_instance id (write_instance id f is) ≡ some (f (entry (find_instance id is)))
unfolding find_instance write_instance
find-write id f [] = let e : (id == id) ≡ true = ground arith in rw e refl
find-write id f ((k, i) ∷ rest) = elim (Bool-cases (k == id)) [
  | inl e ↦ rw (e, e) refl
  | inr e ↦ elim (Bool-cases (ltb id k)) [
    | inl l ↦ let r : (id == id) ≡ true = ground arith in rw (e, l, r) refl
    | inr l ↦ rw (e, l) (rw (e, l) (find-write id f rest))
  ]
]

pub work_for-increment_work :
    (id : ℕ) (s : NodeStatus) → work_for id (increment_work id s) ≡ succ64 (work_for id s)
unfolding increment_work
work_for-increment_work id s =
    ap (λ o. (entry o).work_queue_size)
      (find-write id (λ i. record i { work_queue_size = succ64 i.work_queue_size })
        s.solver_instances)

pub work_for-decrement_work :
    (id : ℕ) (s : NodeStatus) → work_for id (decrement_work id s) ≡ pred64 (work_for id s)
unfolding decrement_work
work_for-decrement_work id s =
    ap (λ o. (entry o).work_queue_size)
      (find-write id (λ i. record i { work_queue_size = pred64 i.work_queue_size })
        s.solver_instances)
