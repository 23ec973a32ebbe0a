-- ===== src/Store/Queue/Consistent.antt =====
-- The work queue, its marks and its counter in modules/broker/broker_task_store.cpp, under every
-- operation that puts a task into the queue or takes one out.
use native.Mathlib.Decide.{ℕ_discrete}
use paracooba.Prelude.{
  suc, ◌^◌, ◌<◌, ◌≡◌, refl, sym, ◌∙◌, Bool, true, false, none, some, List, [], ◌∷◌, ◌++◌, length,
  arith,
}
use paracooba.Task.{Ptr, Task}
use paracooba.Store.State.{Store, update, update_self, has, add, increment_work, succ64, pred64}
use paracooba.Store.Queue.{place_in_queue, start_work, pop_work}
use paracooba.Store.Queue.Order.{
  NoneBefore, IsOrdered, SameKey, SameKey-update, IsOrdered-congr, insert_ordered-IsOrdered,
}
use paracooba.Store.Queue.Counts.{
  IsDistinct, length-insert_ordered, has-insert_ordered, insert_ordered-IsDistinct,
}
use paracooba.Store.Queue.Last.{length-middle, has-middle, IsDistinct-middle, IsOrdered-middle}

pub record IsConsistent (s : Store) : Type 0 where
  pub ordered : IsOrdered s.heap s.queue
  pub distinct : IsDistinct s.queue
  pub marked : (p : Ptr) → s.queued p ≡ has p s.queue
  pub counted : s.queue_size ≡ length s.queue
  pub bounded : length s.queue < 2 ^ 64

pub IsOrdered-update :
    (s : Store) (p : Ptr) (t : Task)
    → SameKey (s.heap p) t
    → IsConsistent s
    → IsOrdered (update s.heap p t) s.queue
IsOrdered-update s p t k c =
    IsOrdered-congr s.heap (update s.heap p t) s.queue (SameKey-update s.heap p t k) c.ordered

-- If the queue is consistent, p is not marked as queued and the new length fits in 64 bits, then
-- after p is placed the queue is still sorted and without duplicates, and its marks and its
-- counter agree with it.
pub place_in_queue-IsConsistent :
    (p : Ptr) (s : Store)
    → IsConsistent s
    → s.queued p ≡ false
    → suc (length s.queue) < 2 ^ 64
    → IsConsistent (place_in_queue p s)
unfolding place_in_queue
place_in_queue-IsConsistent p s c out room =
    let t = s.heap p in
    let st = t.state in
    let u : Task = record t { state = record st { work_available = true } } in
    let h = update s.heap p u in
    let fresh : has p s.queue ≡ false = sym (c.marked p) ∙ out in
    let n = length-insert_ordered h p s.queue in
    record {
      ordered =
          insert_ordered-IsOrdered h p s.queue
            (IsOrdered-update s p u (record { pre = refl; post = refl; path = refl }) c);
      distinct = insert_ordered-IsDistinct h p s.queue fresh c.distinct;
      marked = λ q. ground (arith, has-insert_ordered h p q s.queue, c.marked q);
      counted = omega (arith, c.counted, n);
      bounded = omega (arith, n);
    }

-- What an insertion does to the task itself and to this node's count of work.
pub place_in_queue-task :
    (p : Ptr) (s : Store)
    → let r = place_in_queue p s in
      let t = s.heap p in
      let st = t.state in
      (r.heap p ≡ record t { state = record st { work_available = true } })
      × (has p r.queue ≡ true)
      × (r.work_queue_size t.originator ≡ succ64 (s.work_queue_size t.originator))
unfolding place_in_queue increment_work
place_in_queue-task p s =
    let t = s.heap p in
    let st = t.state in
    (
      update_self s.heap p (record t { state = record st { work_available = true } }),
      has-insert_ordered _ p p s.queue ∙ ground arith,
      update_self s.work_queue_size t.originator _,
    )

marked_middle :
    (queued : Ptr → Bool) (p a : Ptr) (xs ys : List Ptr)
    → queued a ≡ has a (xs ++ p ∷ ys)
    → has p (xs ++ ys) ≡ false
    → update queued p false a ≡ has a (xs ++ ys)
marked_middle queued p a xs ys h d = elim (ℕ_discrete p a) [
  | yes e ↦ rw (← e) (update_self queued p false ∙ sym d)
  | no e ↦ ground (arith, has-middle p a xs ys)
]

-- Taking an entry out of the middle of the queue.
pub drop_middle :
    (s r : Store) (t : Task) (p : Ptr) (xs ys : List Ptr)
    → IsConsistent s
    → s.queue ≡ xs ++ p ∷ ys
    → SameKey (s.heap p) t
    → r.heap ≡ update s.heap p t
    → r.queue ≡ xs ++ ys
    → r.queued ≡ update s.queued p false
    → r.queue_size ≡ pred64 s.queue_size
    → IsConsistent r
drop_middle s r t p xs ys c q k h q' m n =
    let o : IsOrdered (update s.heap p t) (xs ++ p ∷ ys) = rw q at (IsOrdered-update s p t k c) in
    let d : IsDistinct (xs ++ p ∷ ys) = rw q at c.distinct in
    let l : length s.queue ≡ suc (length (xs ++ ys)) = rw q (length-middle p xs ys) in
    record {
      ordered = rw (h, q') (IsOrdered-middle (update s.heap p t) p xs ys o);
      distinct = rw q' (IsDistinct-middle p xs ys d).1;
      marked = λ a.
          rw (m, q')
            (marked_middle s.queued p a xs ys (rw q at (c.marked a))
              (IsDistinct-middle p xs ys d).0);
      counted = rw (n, q') (omega (arith, c.counted, c.bounded, l));
      bounded = rw q' (omega (arith, c.bounded, l));
    }

pub has-add : (p : Ptr) (xs : List Ptr) → has p (add p xs) ≡ true
has-add p xs = ground arith

-- On an empty queue `pop_work` gives nothing and changes nothing.
pub pop_work-empty : (s : Store) → s.queue ≡ [] → pop_work s ≡ (none, s)
unfolding pop_work
pop_work-empty s e = ground arith

-- If the store's queue is consistent and starts with p, `pop_work` gives p, which no waiting task
-- goes before; p goes from the queue to the set of running tasks, is no longer available and is
-- working, and the queue stays consistent.
pub pop_work-first :
    (s : Store) (p : Ptr) (rest : List Ptr)
    → IsConsistent s
    → s.queue ≡ p ∷ rest
    → let (taken, r) = pop_work s in
      (taken ≡ some p)
      × (r.queue ≡ rest)
      × NoneBefore s.heap (s.heap p) rest
      × ((r.heap p).state.work_available ≡ false)
      × ((r.heap p).state.working ≡ true)
      × (has p r.being_worked_on ≡ true)
      × IsConsistent r
unfolding pop_work
pop_work-first s p rest c e =
    rw (e, pop_work)
      (
        refl,
        refl,
        (let o : IsOrdered s.heap (p ∷ rest) = rw e at c.ordered in o.0),
        rw (update_self s.heap p working_task) refl,
        rw (update_self s.heap p working_task) refl,
        has-add p s.being_worked_on,
        drop_middle s (start_work p rest s) working_task p [] rest c e
            (record { pre = refl; post = refl; path = refl }) refl refl refl refl,
      )
  where
    working_task : Task
    working_task =
        let t = s.heap p in
        let st = t.state in
        record t { state = record st { work_available = false; working = true } }
