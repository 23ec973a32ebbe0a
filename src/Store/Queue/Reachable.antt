-- ===== src/Store/Queue/Reachable.antt =====
-- The work queue of modules/broker/broker_task_store.cpp under any sequence of its operations.
use paracooba.Prelude.{
  suc, ◌<◌, ◌^◌, ◌≡◌, refl, sym, ◌∙◌, inl, inr, Bool, false, List, [], ◌∷◌, ◌==◌, length,
  Bool-cases, Option-cases, if_intro, Option, none, some, arith,
}
use paracooba.Task.{Ptr, Node, Task, Heap}
use paracooba.Store.State.{Store, has, erase}
use paracooba.Store.Queue.{
  Offloading, quiet, offered, given_back, insert_into_queue, insert_with, place_in_queue,
  release_offload, run_offloading, remove_from_queue, pop_work, pop_offload, undo_offload,
  undo_offload_from, offloaded_to_node,
}
use paracooba.Store.Queue.Order.{NoneBefore, IsOrdered}
use paracooba.Store.Queue.Counts.{has-erase, erase-IsDistinct, length-erase}
use paracooba.Store.Queue.Consistent.{
  IsConsistent, place_in_queue-IsConsistent, pop_work-empty, pop_work-first,
}
use paracooba.Store.Queue.Offload.{pop_offload-none, pop_offload-some, release_offload-IsConsistent}

-- p may go in.
pub record Enters (p : Ptr) (s : Store) : Type 0 where
  pub out : s.queued p ≡ false
  pub room : suc (length s.queue) < 2 ^ 64

-- Whatever goes in during an offloading may go in then.
unfoldable pub Fits : Offloading → Store → Type 0
Fits quiet s = Unit
Fits (offered target check o) s = Fits o (pop_offload target check s).1
Fits (given_back p i o) s =
    Enters p s
    × ((n : Node)
        → (s.heap p).offloaded_to ≡ some n
        → Fits i (place_in_queue p (release_offload n p s)))
    × Fits o (undo_offload i p s)

-- One operation on the queue, with the offloading that it sets off. A task goes in only if it is
-- not marked as queued and the counter has room.
pub data Step : Store → Store → Type 0 where
  inserted :
      (o : Offloading) (p : Ptr) (s : Store)
      → Enters p s
      → Fits o (place_in_queue p s)
      → Step s (insert_into_queue o p s)
  undone :
      (o : Offloading) (p : Ptr) (s : Store)
      → Enters p s
      → ((n : Node)
          → (s.heap p).offloaded_to ≡ some n
          → Fits o (place_in_queue p (release_offload n p s)))
      → Step s (undo_offload o p s)
  removed : (p : Ptr) (s : Store) → Step s (remove_from_queue p s)
  worked : (s : Store) → Step s (pop_work s).1
  offloaded :
      (target : Node) (check : Task → Bool) (s : Store) → Step s (pop_offload target check s).1

pub data Reachable : Store → Store → Type 0 where
  here : (s : Store) → Reachable s s
  after : (s r u : Store) → Reachable s r → Step r u → Reachable s u

NoneBefore-erase :
    (heap : Heap) (t : Task) (p : Ptr) (xs : List Ptr)
    → NoneBefore heap t xs
    → NoneBefore heap t (erase p xs)
NoneBefore-erase heap t p [] n = tt
NoneBefore-erase heap t p (x ∷ xs) n = elim (Bool-cases (p == x)) [
  | inl e ↦ rw e n.1
  | inr e ↦ rw e (n.0, NoneBefore-erase heap t p xs n.1)
]

IsOrdered-erase :
    (heap : Heap) (p : Ptr) (xs : List Ptr) → IsOrdered heap xs → IsOrdered heap (erase p xs)
IsOrdered-erase heap p [] o = tt
IsOrdered-erase heap p (x ∷ xs) o = elim (Bool-cases (p == x)) [
  | inl e ↦ rw e o.1
  | inr e ↦ rw e (NoneBefore-erase heap (heap x) p xs o.0, IsOrdered-erase heap p xs o.1)
]

-- A marked task leaves the queue, its mark and the counter.
remove_from_queue-IsConsistent :
    (p : Ptr) (s : Store) → IsConsistent s → IsConsistent (remove_from_queue p s)
unfolding remove_from_queue paracooba.Store.State.decrement_work
remove_from_queue-IsConsistent p s c = elim (Bool-cases (s.queued p)) [
  | inr e ↦ rw e c
  | inl e ↦
      let l : length s.queue ≡ suc (length (erase p s.queue)) =
        length-erase p s.queue (sym (c.marked p) ∙ e) in
      rw e (record {
        ordered = IsOrdered-erase s.heap p s.queue c.ordered;
        distinct = erase-IsDistinct p s.queue c.distinct;
        marked = λ a. ground (arith, has-erase p a s.queue c.distinct, c.marked a);
        counted = omega (arith, c.counted, c.bounded, l);
        bounded = omega (arith, c.bounded, l);
      })
]

pop_work-IsConsistent : (s : Store) → IsConsistent s → IsConsistent (pop_work s).1
pop_work-IsConsistent s c = go s.queue refl
  where
    go : (xs : List Ptr) → s.queue ≡ xs → IsConsistent (pop_work s).1
    go [] e = rw (pop_work-empty s e) c
    go (p ∷ rest) e = (pop_work-first s p rest c e).6

pop_offload-IsConsistent :
    (target : Node) (check : Task → Bool) (s : Store)
    → IsConsistent s
    → IsConsistent (pop_offload target check s).1
pop_offload-IsConsistent target check s c = elim (Option-cases (pop_offload target check s).0) [
  | inl n ↦ rw (pop_offload-none target check s n).0 c
  | inr (p, e) ↦ (pop_offload-some target check s p c e).consistent
]

insert_with-IsConsistent :
    (offload : Store → Store) (p : Ptr) (s : Store)
    → (IsConsistent (place_in_queue p s) → IsConsistent (offload (place_in_queue p s)))
    → IsConsistent s
    → Enters p s
    → IsConsistent (insert_with offload p s)
insert_with-IsConsistent offload p s k c e =
    let r = k (place_in_queue-IsConsistent p s c e.out e.room) in
    record {
      ordered = r.ordered;
      distinct = r.distinct;
      marked = r.marked;
      counted = r.counted;
      bounded = r.bounded;
    }

undo_offload_from-IsConsistent :
    (offload : Store → Store) (m : Option Node) (p : Ptr) (s : Store)
    → ((n : Node)
        → m ≡ some n
        → IsConsistent (place_in_queue p (release_offload n p s))
        → IsConsistent (offload (place_in_queue p (release_offload n p s))))
    → IsConsistent s
    → Enters p s
    → IsConsistent (undo_offload_from offload m p s)
unfolding undo_offload_from release_offload
undo_offload_from-IsConsistent offload none p s k c e = c
undo_offload_from-IsConsistent offload (some n) p s k c e =
    if_intro IsConsistent (has p (offloaded_to_node s n)) _ _
      (λ _.
        insert_with-IsConsistent offload p (release_offload n p s) (k n refl)
          (release_offload-IsConsistent n p s c) (record { out = e.out; room = e.room }))
      (λ _. record {
        ordered = c.ordered;
        distinct = c.distinct;
        marked = c.marked;
        counted = c.counted;
        bounded = c.bounded;
      })

run_offloading-IsConsistent :
    (o : Offloading) (s : Store) → Fits o s → IsConsistent s → IsConsistent (run_offloading o s)
unfolding run_offloading undo_offload Fits
run_offloading-IsConsistent quiet s f c = c
run_offloading-IsConsistent (offered target check o) s f c =
    run_offloading-IsConsistent o _ f (pop_offload-IsConsistent target check s c)
run_offloading-IsConsistent (given_back p i o) s (e, f, g) c = run_offloading-IsConsistent o _ g (
    undo_offload_from-IsConsistent (λ t. run_offloading i t) (s.heap p).offloaded_to p s
      (λ n h. run_offloading-IsConsistent i _ (f n h)) c e)

Step-IsConsistent : (s r : Store) → Step s r → IsConsistent s → IsConsistent r
unfolding insert_into_queue undo_offload
Step-IsConsistent _ _ (inserted o p s e f) c =
    insert_with-IsConsistent (run_offloading o) p s (run_offloading-IsConsistent o _ f) c e
Step-IsConsistent _ _ (undone o p s e f) c =
    undo_offload_from-IsConsistent (run_offloading o) (s.heap p).offloaded_to p s
      (λ n h. run_offloading-IsConsistent o _ (f n h)) c e
Step-IsConsistent _ _ (removed p s) c = remove_from_queue-IsConsistent p s c
Step-IsConsistent _ _ (worked s) c = pop_work-IsConsistent s c
Step-IsConsistent _ _ (offloaded target check s) c = pop_offload-IsConsistent target check s c

-- Any sequence of insertions, removals, pops, offloads and undone offloads, each insertion with
-- whatever offloading its count of new work sets off in the same call, in which a task goes in
-- only if it is not marked as queued and the counter has room, keeps the queue consistent:
-- sorted, without duplicates, and with marks and a counter that agree with it.
pub Reachable-IsConsistent : (s r : Store) → IsConsistent s → Reachable s r → IsConsistent r
Reachable-IsConsistent _ _ c (here s) = c
Reachable-IsConsistent _ _ c (after s m r path step) =
    Step-IsConsistent m r step (Reachable-IsConsistent s m c path)
