-- ===== src/ComputeNode/WorkSize.antt =====
-- The size of a node's work queue (ComputeNode::Status of modules/broker/broker_compute_node.cpp).
use paracooba.Prelude.{
  ℕ, ◌+◌, ◌%◌, ◌^◌, ◌<◌, ◌≡◌, refl, sym, ap, ◌∙◌, Bool, true, false, not, Option, none, some, [],
  ◌∷◌, ◌==◌, ltb, if_intro, Bool-cases, arith, inl, inr,
}
use paracooba.ComputeNode.{
  SolverInstance, Instances, NodeStatus, accumulate, sign_extend, work_queue_size, write_instance,
  increment_work, decrement_work, mark_parsed, assign, apply_status, touch, insert_worker_count,
}

-- The number of tasks over all instances.
abbrev pub total : Instances → ℕ
total [] = 0
total ((k, i) ∷ rest) = i.work_queue_size + total rest

-- What the instance of this id counts; a missing one counts nothing.
abbrev pub work_of : Option SolverInstance → ℕ
work_of none = 0
work_of (some i) = i.work_queue_size

accumulate-total :
    (acc : ℕ) (is : Instances) → acc + total is < 2 ^ 32 → accumulate acc is ≡ acc + total is
unfolding accumulate
accumulate-total acc [] h = omega arith
accumulate-total acc ((k, i) ∷ rest) h =
    let e : (acc + i.work_queue_size) % 2 ^ 32 ≡ acc + i.work_queue_size = omega arith in
    rw e (accumulate-total (acc + i.work_queue_size) rest (omega arith) ∙ omega arith)

-- The status under any number of changes, from a new one on, and whether the cached size is
-- outdated: a status was applied to it since the size was computed, and nothing marked it as dirty.
pub data Reach : (outdated : Bool) → NodeStatus → Type 0 where
  created : (s : NodeStatus) → s.dirty ≡ true → Reach false s
  incremented : {b : Bool} {s : NodeStatus} (id : ℕ) → Reach b s → Reach false (increment_work id s)
  decremented : {b : Bool} {s : NodeStatus} (id : ℕ) → Reach b s → Reach false (decrement_work id s)
  parsed : {b : Bool} {s : NodeStatus} (id : ℕ) → Reach b s → Reach false (mark_parsed id s)
  touched : {b : Bool} {s : NodeStatus} (id : ℕ) → Reach b s → Reach b (touch id s)
  assigned : {b : Bool} {s : NodeStatus} (o : NodeStatus) → Reach b s → Reach false (assign s o)
  applied :
      {b : Bool} {s : NodeStatus} (o : NodeStatus)
      → Reach b s
      → Reach (not s.dirty) (apply_status o s)
  counted : {b : Bool} {s : NodeStatus} (n : ℕ) → Reach b s → Reach b (insert_worker_count n s)
  sized : {b : Bool} {s : NodeStatus} → Reach b s → Reach b (work_queue_size s).1

-- The cached size is up to date unless the status is marked as dirty.
abbrev IsFresh : NodeStatus → Type 0
IsFresh s =
    s.dirty ≡ false → s.cached_work_queue_size ≡ sign_extend (accumulate 0 s.solver_instances)

accumulate_mod : (n : ℕ) (is : Instances) → accumulate (n % 2 ^ 32) is ≡ (n + total is) % 2 ^ 32
unfolding accumulate
accumulate_mod n [] = omega arith
accumulate_mod n ((k, i) ∷ rest) =
    accumulate_mod (n % 2 ^ 32 + i.work_queue_size) rest ∙ omega arith

total-touch : (id : ℕ) (is : Instances) → total (write_instance id (λ i. i) is) ≡ total is
unfolding write_instance
total-touch id [] = refl
total-touch id ((k, i) ∷ rest) =
    let P = λ (xs : Instances). total xs ≡ total ((k, i) ∷ rest) in
    if_intro P (k == id) _ _ (λ _. refl)
      (λ _. if_intro P (ltb id k) _ _ (λ _. omega arith) (λ _. omega (arith, total-touch id rest)))

accumulate-touch :
    (id : ℕ) (is : Instances) → accumulate 0 (write_instance id (λ i. i) is) ≡ accumulate 0 is
accumulate-touch id is =
    accumulate_mod 0 (write_instance id (λ i. i) is)
    ∙ omega (arith, total-touch id is)
    ∙ sym (accumulate_mod 0 is)

sized-IsFresh : (s : NodeStatus) → IsFresh s → IsFresh (work_queue_size s).1
unfolding work_queue_size
sized-IsFresh s f =
    if_intro (λ (r : ℕ × NodeStatus). IsFresh r.1) s.dirty _ _ (λ d h. refl) (λ d. f)

Reach-IsFresh : {b : Bool} {s : NodeStatus} → Reach b s → b ≡ false → IsFresh s
unfolding increment_work decrement_work mark_parsed touch assign apply_status insert_worker_count
    work_queue_size
Reach-IsFresh (created s d) e h = absurd (ground arith)
Reach-IsFresh (incremented id r) e h = absurd (ground arith)
Reach-IsFresh (decremented id r) e h = absurd (ground arith)
Reach-IsFresh (parsed id r) e h = absurd (ground arith)
Reach-IsFresh (touched {b} {s} id r) e h =
    Reach-IsFresh r e h ∙ ap sign_extend (sym (accumulate-touch id s.solver_instances))
Reach-IsFresh (assigned o r) e h = absurd (ground arith)
Reach-IsFresh (applied o r) e h = absurd (ground arith)
Reach-IsFresh (counted n r) e h = Reach-IsFresh r e h
Reach-IsFresh (sized {b} {s} r) e h = sized-IsFresh s (Reach-IsFresh r e) h

computed-total : (is : Instances) → total is < 2 ^ 31 → sign_extend (accumulate 0 is) ≡ total is
unfolding sign_extend
computed-total is h =
    let e = accumulate-total 0 is (omega arith) in
    let small : ltb (accumulate 0 is) (2 ^ 31) ≡ true = ground arith in rw small (omega (arith, e))

-- After any sequence of changes of a status, by its own operations and by applying another status
-- to it, as long as the total of its instances is below 2 to the power of 31: the size that is
-- returned, computed or cached, is that total, unless a status was applied when the size was
-- computed, and nothing marked the status as changed after that.
pub work_queue_size-total :
    {s : NodeStatus}
    → Reach false s
    → total s.solver_instances < 2 ^ 31
    → (work_queue_size s).0 ≡ total s.solver_instances
unfolding work_queue_size
work_queue_size-total {s} r h = elim (Bool-cases s.dirty) [
  | inl d ↦ rw d (computed-total s.solver_instances h)
  | inr d ↦ rw d (Reach-IsFresh r refl d ∙ computed-total s.solver_instances h)
]
