-- ===== src/Store/Lifecycle/Create.antt =====
-- What `TaskStore::newTask` of modules/broker/broker_task_store.cpp promises.
use paracooba.Prelude.{
  ℕ, suc, ◌<◌, ◌≡◌, ◌≢◌, refl, ap, sym, ◌∙◌, Bool, true, false, none, some, ◌∷◌, if◌then◌else◌,
  arith,
}
use paracooba.Path.{
  Rep, max_length, length_field, get_next, get_next_left, get_next_right, is_extended,
  get_assignment,
}
use paracooba.Path.Next.{last_decision, length-get_next}
use paracooba.Task.{Ptr, Task, Heap, no_terminate, default_terminate}
use paracooba.Store.State.{Store, set_task, update_self, update_ne, succ64}
use paracooba.Store.Lifecycle.{
  new_task, link_child, fresh_task, place_task, finish_new_task, manage_auto_shutdown_timer,
}

-- The two children of a path have different paths.
children_differ : (p : Rep) → length_field p < max_length → get_next p 0 ≢ get_next p 1
children_differ p h e =
    let l = last_decision p 0 h in
    let r = last_decision p 1 h in
    let same = ap (λ q. get_assignment q (suc (length_field p))) e in ground arith

child_not_extended :
    (p : Rep) (n : ℕ) → length_field p < max_length → is_extended (get_next p n) ≡ false
unfolding is_extended
child_not_extended p n h = ground (arith, length-get_next p n h)

-- A new task on a child path becomes the child on that side, and the other side stays.
pub link_child-side :
    (p : Ptr) (t : Task)
    → length_field t.path < max_length
    → (link_child (get_next_left t.path) p t ≡ record t { left_child = some p })
      × (link_child (get_next_right t.path) p t ≡ record t { right_child = some p })
unfolding link_child get_next_left get_next_right
link_child-side p t h =
    ground (
      arith,
      children_differ t.path h,
      child_not_extended t.path 0 h,
      child_not_extended t.path 1 h,
    )

link_child-stop : (path : Rep) (p : Ptr) (t : Task) → (link_child path p t).stop ≡ t.stop
unfolding link_child
link_child-stop path p t = ground arith

timer-keeps :
    (s : Store)
    → (manage_auto_shutdown_timer s).heap ≡ s.heap
      × (manage_auto_shutdown_timer s).tasks ≡ s.tasks
      × (manage_auto_shutdown_timer s).tasks_size ≡ s.tasks_size
unfolding manage_auto_shutdown_timer
timer-keeps s = (ground arith, ground arith, ground arith)

record IsFinished (p : Ptr) (s r : Store) : Type 0 where
  tasks : r.tasks ≡ s.tasks
  size : r.tasks_size ≡ succ64 s.tasks_size
  self : r.heap p ≡ (let t = s.heap p in record t { terminate = default_terminate })
  others : (q : Ptr) → p ≢ q → r.heap q ≡ s.heap q

finish_new_task-IsFinished : (p : Ptr) (s : Store) → IsFinished p s (finish_new_task p s)
unfolding finish_new_task
finish_new_task-IsFinished p s =
    let s1 : Store = record s { tasks_size = succ64 s.tasks_size } in
    let s2 = manage_auto_shutdown_timer s1 in
    let (heap, tasks, size) = timer-keeps s1 in
    record {
      tasks = tasks;
      size = size;
      self =
          update_self s2.heap p _
          ∙ ap (λ (h : Heap). let t = h p in record t { terminate = default_terminate }) heap;
      others = λ q ne. update_ne s2.heap p q _ ne ∙ ap (λ (h : Heap). h q) heap;
    }

module _ (p parent : Ptr) (path : Rep) (originator : ℕ) (s : Store) (ne : p ≢ parent) where
  linked : Store
  linked =
      let s1 = place_task p (some parent) path originator s in
      set_task parent (link_child path p (s1.heap parent)) s1

  parent-linked : linked.heap parent ≡ link_child path p (s.heap parent)
  unfolding linked place_task
  parent-linked =
      update_self (place_task p (some parent) path originator s).heap parent _
      ∙ ap (link_child path p)
          (update_ne s.heap p parent (fresh_task (some parent) path originator) ne)

  child-linked : linked.heap p ≡ fresh_task (some parent) path originator
  unfolding linked place_task
  child-linked =
      update_ne (place_task p (some parent) path originator s).heap parent p _ (λ e. ne (sym e))
      ∙ update_self s.heap p _

  stop-linked : (linked.heap parent).stop ≡ (s.heap parent).stop
  stop-linked = ap (λ (t : Task). t.stop) parent-linked ∙ link_child-stop path p (s.heap parent)

  new_task-when :
      (b : Bool)
      → (s.heap parent).stop ≡ b
      → new_task p (some parent) path originator s
        ≡ (if b then (none, linked) else (some p, finish_new_task p linked))
  unfolding new_task linked
  new_task-when b h =
      ap (λ c. if c then (none, linked) else (some p, finish_new_task p linked)) (stop-linked ∙ h)

-- Under a parent that is another task and is stopped, no task is handed out, but the new one
-- stays in the list of tasks, is not counted in `tasksSize` and has no `terminate` callback.
pub new_task-stopped :
    (p parent : Ptr) (path : Rep) (originator : ℕ) (s : Store)
    → p ≢ parent
    → (s.heap parent).stop ≡ true
    → let (given, r) = new_task p (some parent) path originator s in
      (given ≡ none)
      × (r.tasks ≡ p ∷ s.tasks)
      × (r.tasks_size ≡ s.tasks_size)
      × ((r.heap p).terminate ≡ no_terminate)
unfolding linked place_task fresh_task
new_task-stopped p parent path originator s ne h =
    rw (new_task-when p parent path originator s ne true h) (
      refl,
      refl,
      refl,
      ap (λ (t : Task). t.terminate) (child-linked p parent path originator s ne),
    )

-- Under a parent that is another task and is not stopped, a new task is handed out, counted and
-- linked in the parent; it knows its parent, path and originator, and the store's own function
-- terminates it.
pub new_task-given :
    (p parent : Ptr) (path : Rep) (originator : ℕ) (s : Store)
    → p ≢ parent
    → (s.heap parent).stop ≡ false
    → let (given, r) = new_task p (some parent) path originator s in
      (given ≡ some p)
      × (r.tasks ≡ p ∷ s.tasks)
      × (r.tasks_size ≡ succ64 s.tasks_size)
      × (r.heap parent ≡ link_child path p (s.heap parent))
      × ((r.heap p).parent_task ≡ some parent)
      × ((r.heap p).path ≡ path)
      × ((r.heap p).originator ≡ originator)
      × ((r.heap p).terminate ≡ default_terminate)
unfolding fresh_task linked place_task
new_task-given p parent path originator s ne h =
    let l = linked p parent path originator s ne in
    let f = finish_new_task-IsFinished p l in
    let self =
      f.self
      ∙ ap (λ (t : Task). record t { terminate = default_terminate })
          (child-linked p parent path originator s ne) in
    rw (new_task-when p parent path originator s ne false h) (
      refl,
      f.tasks,
      f.size,
      f.others parent ne ∙ parent-linked p parent path originator s ne,
      ap (λ (t : Task). t.parent_task) self,
      ap (λ (t : Task). t.path) self,
      ap (λ (t : Task). t.originator) self,
      ap (λ (t : Task). t.terminate) self,
    )
