-- ===== src/ComputeNode.antt =====
-- The class ComputeNode of modules/broker/broker_compute_node.cpp and .hpp: what this node knows of
-- another one, and its status: the solver instances with their work.
pub mod WorkSize
pub mod State
pub mod Sending
pub mod Equality
pub mod Work
pub mod Offload
pub mod Parsing
pub mod Targets
pub mod Dispatch
pub mod Table
use paracooba.Prelude.{
  ℕ, ◌+◌, ◌-◌, ◌*◌, ◌%◌, ◌^◌, Bool, true, false, not, ◌&&◌, Option, none, some, List, [], ◌∷◌, ◌==◌,
  ltb, if◌then◌else◌,
}
use paracooba.Store.State.{succ64, pred64}

-- ComputeNode::SolverInstance
pub record SolverInstance : Type 0 where
  pub formula_received : Bool
  pub formula_parsed : Bool
  pub work_queue_size : ℕ

abbrev pub new_instance : SolverInstance
new_instance = record { formula_received = false; formula_parsed = false; work_queue_size = 0 }

-- The map by the originator's id, in ascending order, so the search stops at a greater id.
abbrev pub Instances : Type 0
Instances = List (ℕ × SolverInstance)

unfoldable pub find_instance : ℕ → Instances → Option SolverInstance
find_instance id [] = none
find_instance id ((k, i) ∷ rest) =
    if k == id then some i else if ltb id k then none else find_instance id rest

-- A write through `operator[]`, which adds what is missing.
unfoldable pub write_instance : ℕ → (SolverInstance → SolverInstance) → Instances → Instances
write_instance id f [] = (id, f new_instance) ∷ []
write_instance id f ((k, i) ∷ rest) =
    if k == id
    then (k, f i) ∷ rest
    else if ltb id k
    then (id, f new_instance) ∷ (k, i) ∷ rest
    else (k, i) ∷ write_instance id f rest

-- ComputeNode::Status without its locks and its stream.
pub record NodeStatus : Type 0 where
  pub solver_instances : Instances
  pub workers : ℕ
  pub dirty : Bool
  pub cached_work_queue_size : ℕ

-- `accumulate` with the start value 0: the sum is an int after each addition, and the low 32 bits
-- are all that remains.
unfoldable pub accumulate : ℕ → Instances → ℕ
accumulate sum [] = sum
accumulate sum ((k, i) ∷ rest) = accumulate ((sum + i.work_queue_size) % 2 ^ 32) rest

-- The int with these 32 bits as a uint64_t.
unfoldable pub sign_extend : ℕ → ℕ
sign_extend n = if ltb n (2 ^ 31) then n else n + (2 ^ 64 - 2 ^ 32)

-- Status::workQueueSize
unfoldable pub work_queue_size : NodeStatus → ℕ × NodeStatus
unfolding accumulate sign_extend
work_queue_size s =
    if s.dirty
    then (let n = sign_extend (accumulate 0 s.solver_instances) in
        (n, record s { cached_work_queue_size = n; dirty = false }))
    else (s.cached_work_queue_size, s)

-- Status::isParsed
unfoldable pub is_parsed : ℕ → NodeStatus → Bool
unfolding find_instance
is_parsed id s = elim (find_instance id s.solver_instances) [
  | none ↦ false
  | some i ↦ i.formula_parsed
]

modify : ℕ → (SolverInstance → SolverInstance) → NodeStatus → NodeStatus
modify id f s = record s { solver_instances = write_instance id f s.solver_instances; dirty = true }

-- incrementWorkQueueSize
unfoldable pub increment_work : ℕ → NodeStatus → NodeStatus
unfolding write_instance modify
increment_work id s = modify id (λ i. record i { work_queue_size = succ64 i.work_queue_size }) s

-- decrementWorkQueueSize
unfoldable pub decrement_work : ℕ → NodeStatus → NodeStatus
unfolding write_instance modify
decrement_work id s = modify id (λ i. record i { work_queue_size = pred64 i.work_queue_size }) s

-- The first part of formulaParsed.
unfoldable pub mark_parsed : ℕ → NodeStatus → NodeStatus
unfolding write_instance modify
mark_parsed id s = modify id (λ i. record i { formula_parsed = true }) s

-- `solverInstances[id]`, as it is read in receiveMessageDescriptionFrom and receiveFileFrom.
unfoldable pub touch : ℕ → NodeStatus → NodeStatus
unfolding write_instance
touch id s = record s { solver_instances = write_instance id (λ i. i) s.solver_instances }

-- The copy constructor and Status::operator=: neither takes the number of workers.
unfoldable pub copy : NodeStatus → NodeStatus
copy s = record {
  solver_instances = s.solver_instances;
  workers = 0;
  dirty = true;
  cached_work_queue_size = 0;
}

unfoldable pub assign : NodeStatus → NodeStatus → NodeStatus
assign s o = record s { solver_instances = o.solver_instances; dirty = true }

-- Status::insertWorkerCount and applyStatus
unfoldable pub insert_worker_count : ℕ → NodeStatus → NodeStatus
insert_worker_count n s = record s { workers = n }

unfoldable pub apply_status : NodeStatus → NodeStatus → NodeStatus
apply_status o s = record s { solver_instances = o.solver_instances }

same : Bool → Bool → Bool
same true b = b
same false b = not b

-- SolverInstance::operator==, with the keys, and Status::operator==.
unfoldable pub same_instance : ℕ × SolverInstance → ℕ × SolverInstance → Bool
unfolding same
same_instance (k, i) (l, j) =
    k == l
    && same i.formula_received j.formula_received
    && same i.formula_parsed j.formula_parsed
    && i.work_queue_size == j.work_queue_size

unfoldable pub same_instances : Instances → Instances → Bool
unfolding same_instance
same_instances [] [] = true
same_instances (x ∷ xs) (y ∷ ys) = same_instance x y && same_instances xs ys
same_instances _ _ = false

-- Status::isDiffWorthwhile: what follows the first test is never reached.
unfoldable pub is_diff_worthwhile : NodeStatus → NodeStatus → Bool
unfolding same_instances
is_diff_worthwhile s t = not (same_instances s.solver_instances t.solver_instances)

-- A utilization is a float; here it is the fraction that the float stands for.
pub record Utilization : Type 0 where
  pub numerator : ℕ
  pub denominator : ℕ

-- Whether the utilization is below n / d.
unfoldable pub is_below : (n d : ℕ) → Utilization → Bool
is_below n d u = ltb (d * u.numerator) (n * u.denominator)

-- Status::computeFutureUtilization and computeUtilization
unfoldable pub compute_future_utilization : ℕ → NodeStatus → Utilization
compute_future_utilization size s =
    if s.workers == 0
    then record { numerator = 1000000; denominator = 1 }
    else record { numerator = size; denominator = s.workers }

unfoldable pub compute_utilization : NodeStatus → Utilization × NodeStatus
unfolding work_queue_size compute_future_utilization
compute_utilization s =
    let (size, s1) = work_queue_size s in (compute_future_utilization size s1, s1)
