-- ===== src/Store/Queue.antt =====
-- The containers of modules/broker/broker_task_store.cpp: the ordered work queue, the two sets, and
-- taking work from the queue to run it here or on another node.
pub mod Order
pub mod Counts
pub mod Last
pub mod Consistent
pub mod Offload
pub mod Reachable
use paracooba.Prelude.{
  Bool, true, false, not, ◌&&◌, Option, none, some, List, [], ◌∷◌, if◌then◌else◌,
}
use paracooba.Task.{Ptr, Node, Task, Heap, compare}
use paracooba.Task.Assess.{is_some}
use paracooba.Store.State.{
  Store, ping_on_work, update, emit, set_task, succ64, pred64, increment_work, decrement_work,
  erase, add, has,
}

-- std::lower_bound with `parac_task_compare`, and the insertion before that place: behind every
-- task of the ordered queue that goes before p.
unfoldable pub insert_ordered : Heap → Ptr → List Ptr → List Ptr
insert_ordered heap p [] = p ∷ []
insert_ordered heap p (x ∷ xs) =
    let rest = insert_ordered heap p xs in
    if compare (heap x) (heap p) then x ∷ rest else p ∷ x ∷ xs

-- insert_into_tasksWaitingForWorkerQueue, up to and with the count of the work.
unfoldable pub place_in_queue : Ptr → Store → Store
unfolding insert_ordered increment_work
place_in_queue p s =
    let t = s.heap p in
    let st = t.state in
    let s1 = set_task p (record t { state = record st { work_available = true } }) s in
    increment_work t.originator (record s1 {
      queue = insert_ordered s1.heap p s1.queue;
      queued = update s1.queued p true;
      queue_size = succ64 s1.queue_size;
    })

abbrev pub insert_into_waiting : Ptr → Store → Store
insert_into_waiting p s = record s { waiting_for_children = add p s.waiting_for_children }

abbrev pub remove_from_waiting : Ptr → Store → Store
remove_from_waiting p s = record s { waiting_for_children = erase p s.waiting_for_children }

abbrev pub remove_from_being_worked_on : Ptr → Store → Store
remove_from_being_worked_on p s = record s { being_worked_on = erase p s.being_worked_on }

-- remove_from_workQueue
unfoldable pub remove_from_queue : Ptr → Store → Store
unfolding decrement_work
remove_from_queue p s =
    if s.queued p
    then (let s1 =
          decrement_work (s.heap p).originator (record s { queue_size = pred64 s.queue_size }) in
        record s1 { queue = erase p s1.queue; queued = update s1.queued p false })
    else s

start_work : Ptr → List Ptr → Store → Store
start_work p rest s =
    let t = s.heap p in
    let st = t.state in
    record s {
      heap =
          update s.heap p
            (record t { state = record st { work_available = false; working = true } });
      queue = rest;
      queued = update s.queued p false;
      being_worked_on = add p s.being_worked_on;
      queue_size = pred64 s.queue_size;
    }

-- TaskStore::pop_work; the write of `delete_notification` is not part of the model.
unfoldable pub pop_work : Store → Option Ptr × Store
unfolding start_work
pop_work s = elim s.queue [ [] ↦ (none, s) | p ∷ rest ↦ (some p, start_work p rest s) ]

-- The last entry that passes the test, and the list without it: the loop from `rbegin`.
unfoldable pub take_last : (Ptr → Bool) → List Ptr → Option (Ptr × List Ptr)
take_last ok [] = none
take_last ok (x ∷ xs) = elim (take_last ok xs) [
  | some (y, ys) ↦ some (y, x ∷ ys)
  | none ↦ if ok x then some (x, xs) else none
]

-- The three `continue`s of the loop.
abbrev pub can_offload : Heap → (Task → Bool) → Ptr → Bool
can_offload heap check p =
    let t = heap p in t.serialize && (not (is_some t.received_from) && check t)

abbrev pub offloaded_to_node : Store → Node → List Ptr
offloaded_to_node s n = elim (s.offloaded_tasks n) [ none ↦ [] | some ps ↦ ps ]

-- The body of the loop, once a task is found.
mark_offloaded : Node → Ptr → List Ptr → Store → Store
mark_offloaded target p rest s =
    let t = s.heap p in
    let st = t.state in
    record s {
      heap = update s.heap p (record t {
        offloaded_to = some target;
        state = record st { work_available = false; offloaded = true };
      });
      queue = rest;
      queued = update s.queued p false;
      offloaded_tasks = update s.offloaded_tasks target (some (add p (offloaded_to_node s target)));
      queue_size = pred64 s.queue_size;
    }

-- TaskStore::pop_offload; without a checker, `check` is constantly true.
unfoldable pub pop_offload : Node → (Task → Bool) → Store → Option Ptr × Store
unfolding take_last mark_offloaded decrement_work
pop_offload target check s = elim (take_last (can_offload s.heap check) s.queue) [
  | none ↦ (none, s)
  | some (p, rest) ↦ (some p, decrement_work (s.heap p).originator (mark_offloaded target p rest s))
]

unfoldable pub release_offload : Node → Ptr → Store → Store
release_offload n p s =
    let t = s.heap p in
    let st = t.state in
    record s {
      offloaded_tasks = update s.offloaded_tasks n (some (erase p (offloaded_to_node s n)));
      heap =
          update s.heap p
            (record t { state = record st { offloaded = false }; offloaded_to = none });
    }

-- What counting new work sets off in the same call, by tryOffloadingTasks: tasks are taken for
-- other nodes, and one whose message fails at once is given back, which is counted again.
pub data Offloading : Type 0 where
  quiet : Offloading
  offered : (target : Node) (check : Task → Bool) (rest : Offloading) → Offloading
  given_back : (p : Ptr) (inner rest : Offloading) → Offloading

-- insert_into_tasksWaitingForWorkerQueue; `offload` is what the count sets off.
abbrev pub insert_with : (offload : Store → Store) → Ptr → Store → Store
insert_with offload p s = emit ping_on_work (offload (place_in_queue p s))

-- TaskStore::undo_offload: a task that is not in the node's set is left alone. `operator[]` adds
-- an empty set for an unknown node.
unfoldable pub undo_offload_from : (offload : Store → Store) → Option Node → Ptr → Store → Store
unfolding release_offload place_in_queue
undo_offload_from offload none p s = s
undo_offload_from offload (some n) p s =
    if has p (offloaded_to_node s n)
    then insert_with offload p (release_offload n p s)
    else record s { offloaded_tasks = update s.offloaded_tasks n (some (offloaded_to_node s n)) }

unfoldable pub run_offloading : Offloading → Store → Store
unfolding pop_offload undo_offload_from
run_offloading quiet s = s
run_offloading (offered target check o) s = run_offloading o (pop_offload target check s).1
run_offloading (given_back p i o) s =
    run_offloading o (undo_offload_from (λ t. run_offloading i t) (s.heap p).offloaded_to p s)

-- insert_into_tasksWaitingForWorkerQueue
unfoldable pub insert_into_queue : Offloading → Ptr → Store → Store
unfolding place_in_queue run_offloading
insert_into_queue o p s = insert_with (run_offloading o) p s

-- undo_offload
unfoldable pub undo_offload : Offloading → Ptr → Store → Store
unfolding undo_offload_from run_offloading
undo_offload o p s = undo_offload_from (run_offloading o) (s.heap p).offloaded_to p s
