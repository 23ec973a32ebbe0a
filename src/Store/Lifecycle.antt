-- ===== src/Store/Lifecycle.antt =====
-- Creating and removing tasks, and the automatic shutdown (modules/broker/broker_task_store.cpp).
pub mod Create
use paracooba.Prelude.{
  ℕ, Bool, true, false, Option, none, some, List, [], ◌∷◌, ◌==◌, if◌then◌else◌, set,
}
use paracooba.Path.{Rep, is_extended, get_next_left, get_next_right}
use paracooba.Status.{auto_shutdown_triggered}
use paracooba.Task.{Ptr, Task, Heap, init, default_terminate, TerminateFunc, solver_terminate}
use paracooba.Task.Assess.{is_some}
use paracooba.Store.State.{
  Store, Event, request_exit, set_timeout, cancel_timeout, free_task, call_terminate, emit_all,
  update, emit, set_task, succ64, pred64, erase,
}

-- TaskStore::manageAutoShutdownTimer
unfoldable pub manage_auto_shutdown_timer : Store → Store
manage_auto_shutdown_timer s =
    if s.auto_shutdown_timeout == 0
    then s
    else if s.tasks_size == 0
    then emit set_timeout (record s { timer_set = true })
    else if s.timer_set
    then emit cancel_timeout (record s { timer_set = false })
    else s

-- TaskStore::autoShutdownTimerExpired
unfoldable pub auto_shutdown_timer_expired : Store → Store
auto_shutdown_timer_expired s =
    emit request_exit (record s { exit_status = auto_shutdown_triggered })

-- The links that a new task on `path` gets in its parent; an extended task gets none here.
unfoldable pub link_child : Rep → Ptr → Task → Task
link_child path p parent =
    if is_extended path
    then parent
    else if get_next_left parent.path == path
    then record parent { left_child = some p }
    else if get_next_right parent.path == path
    then record parent { right_child = some p }
    else parent

-- The new task as it stands in the list before its `terminate` is set.
fresh_task : Option Ptr → Rep → ℕ → Task
unfolding init
fresh_task parent path originator =
    let t = init in record t { parent_task = parent; path = path; originator = originator }

place_task : Ptr → Option Ptr → Rep → ℕ → Store → Store
unfolding fresh_task
place_task p parent path originator s = record s {
  tasks = p ∷ s.tasks;
  heap = update s.heap p (fresh_task parent path originator);
  queued = update s.queued p false;
}

finish_new_task : Ptr → Store → Store
unfolding manage_auto_shutdown_timer
finish_new_task p s =
    let s1 = manage_auto_shutdown_timer (record s { tasks_size = succ64 s.tasks_size }) in
    let t = s1.heap p in set_task p (record t { terminate = default_terminate }) s1

-- TaskStore::newTask; p is the address that the allocator gives.
unfoldable pub new_task : Ptr → Option Ptr → Rep → ℕ → Store → Option Ptr × Store
unfolding place_task finish_new_task link_child
new_task p none path originator s =
    (some p, finish_new_task p (place_task p none path originator s))
new_task p (some parent) path originator s =
    let s1 = place_task p (some parent) path originator s in
    let s2 = set_task parent (link_child path p (s1.heap parent)) s1 in
    if (s2.heap parent).stop then (none, s2) else (some p, finish_new_task p s2)

-- `child->parent_task_ = nullptr`
abbrev pub orphan : Option Ptr → Heap → Heap
orphan none heap = heap
orphan (some c) heap = let t = heap c in update heap c (record t { parent_task = none })

abbrev pub orphan_all : List (Option Ptr) → Heap → Heap
orphan_all [] heap = heap
orphan_all (c ∷ cs) heap = orphan_all cs (orphan c heap)

-- The first part of TaskStore::remove: the children forget the task.
unfoldable pub orphan_children : Task → Heap → Heap
orphan_children t heap =
    if is_some t.extended_children_count
    then orphan_all t.extended_children heap
    else orphan t.right_child (orphan t.left_child heap)

abbrev pub is_child : Ptr → Option Ptr → Bool
is_child p none = false
is_child p (some c) = c == p

abbrev pub index_of : Option ℕ → ℕ
index_of none = 0
index_of (some i) = i

-- The second part: the parent forgets the task.
unfoldable pub unlink_child : Ptr → Task → Task → Task
unlink_child p t parent =
    if is_some parent.extended_children_count
    then record parent {
      extended_children =
          set parent.extended_children (index_of t.extended_children_parent_index) none;
    }
    else record parent {
      left_child = if is_child p parent.left_child then none else parent.left_child;
      right_child = if is_child p parent.right_child then none else parent.right_child;
    }

unfoldable pub unlink_from_parent : Ptr → Task → Heap → Heap
unfolding unlink_child
unlink_from_parent p t heap = elim t.parent_task [
  | none ↦ heap
  | some q ↦ if is_some t.received_from then heap else update heap q (unlink_child p t (heap q))
]

unfoldable pub detach : Ptr → Store → Store
unfolding orphan_children unlink_from_parent
detach p s =
    let h = orphan_children (s.heap p) s.heap in
    record s { heap = unlink_from_parent p (h p) h; tasks_size = pred64 s.tasks_size }

unfoldable pub drop_entry : Ptr → Store → Store
drop_entry p s = emit (free_task p) (record s { tasks = erase p s.tasks })

-- TaskStore::remove
unfoldable pub remove : Ptr → Store → Store
unfolding detach manage_auto_shutdown_timer drop_entry
remove p s = drop_entry p (manage_auto_shutdown_timer (detach p s))

abbrev is_solver : TerminateFunc → Bool
is_solver solver_terminate = true
is_solver _ = false

stop_tasks : List Ptr → Heap → Heap
stop_tasks [] heap = heap
stop_tasks (p ∷ ps) heap =
    stop_tasks ps (let t = heap p in update heap p (record t { stop = true }))

-- The `terminate` callbacks that TaskStore::terminateAllTasks calls: only those of solvers.
solver_terminations : List Ptr → Heap → List Event
solver_terminations [] heap = []
solver_terminations (p ∷ ps) heap =
    let rest = solver_terminations ps heap in
    if is_solver (heap p).terminate then call_terminate p ∷ rest else rest

-- TaskStore::terminateAllTasks
unfoldable pub terminate_all_tasks : Store → Store
unfolding stop_tasks solver_terminations
terminate_all_tasks s =
    let h = stop_tasks s.being_worked_on (stop_tasks s.queue s.heap) in
    emit_all (solver_terminations s.being_worked_on h) (record s { heap = h })
