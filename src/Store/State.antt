-- ===== src/Store/State.antt =====
-- The state of `TaskStore::Internal` (modules/broker/broker_task_store.cpp), and what its operations
-- cause elsewhere. Each operation is one step. The count `refcount` of a task wrapper is written and
-- never read, and is left out.
use paracooba.Prelude.{
  ℕ, ◌+◌, ◌-◌, ◌%◌, ◌^◌, Bool, true, false, Option, List, [], ◌∷◌, ◌++◌, ◌==◌, if◌then◌else◌, ◌≡◌,
  ◌≢◌, arith, Bool-cases, inl, inr,
}
use paracooba.Status.{Status}
use paracooba.Task.{Ptr, Node, Task, Heap}

-- What other components are asked to do, in the order of the calls.
pub data Event : Type 0 where
  call_terminate : Ptr → Event
  work_incremented work_decremented : ℕ → Event
  ping_on_work request_exit set_timeout cancel_timeout : Event
  free_task : Ptr → Event

-- `heap` is read at live pointers. `queued p` is `workQueueIt != tasksWaitingForWorkerQueue.end()`
-- of the wrapper of p. The two sets are ordered by path and address, so they hold a pointer at most
-- once. `work_queue_size` is the count of this node's status for each originator.
pub record Store : Type 0 where
  pub heap : Heap
  pub tasks : List Ptr
  pub queue : List Ptr
  pub queued : Ptr → Bool
  pub being_worked_on : List Ptr
  pub waiting_for_children : List Ptr
  pub offloaded_tasks : Node → Option (List Ptr)
  pub tasks_size : ℕ
  pub queue_size : ℕ
  pub work_queue_size : ℕ → ℕ
  pub auto_shutdown_timeout : ℕ
  pub timer_set : Bool
  pub input_file : Bool
  pub exit_status : Status
  pub events : List Event

abbrev pub update {ℓ} : {A : Type ℓ} → (ℕ → A) → ℕ → A → ℕ → A
update f p a q = if p == q then a else f q

abbrev pub emit : Event → Store → Store
emit e s = record s { events = s.events ++ e ∷ [] }

abbrev pub emit_all : List Event → Store → Store
emit_all es s = record s { events = s.events ++ es }

-- A write through the pointer p.
abbrev pub set_task : Ptr → Task → Store → Store
set_task p t s = record s { heap = update s.heap p t }

-- `++` and `--` on a size_t.
abbrev pub succ64 : ℕ → ℕ
succ64 n = (n + 1) % 2 ^ 64

abbrev pub pred64 : ℕ → ℕ
pred64 n = (n + (2 ^ 64 - 1)) % 2 ^ 64

-- incrementWorkQueueInComputeNode: the count. The node may then look for a node to offload to,
-- which calls `pop_offload` in the same call (`Offloading` in Store/Queue).
unfoldable pub increment_work : ℕ → Store → Store
increment_work o s =
    emit (work_incremented o)
      (record s { work_queue_size = update s.work_queue_size o (succ64 (s.work_queue_size o)) })

-- decrementWorkQueueInComputeNode
unfoldable pub decrement_work : ℕ → Store → Store
decrement_work o s =
    emit (work_decremented o)
      (record s { work_queue_size = update s.work_queue_size o (pred64 (s.work_queue_size o)) })

-- Membership and removal in a container of pointers.
abbrev pub has : Ptr → List Ptr → Bool
has p [] = false
has p (x ∷ xs) = if p == x then true else has p xs

abbrev pub erase : Ptr → List Ptr → List Ptr
erase p [] = []
erase p (x ∷ xs) = if p == x then xs else x ∷ erase p xs

-- Insertion into a set.
abbrev pub add : Ptr → List Ptr → List Ptr
add p xs = if has p xs then xs else p ∷ xs

pub update_self {ℓ} : {A : Type ℓ} (f : ℕ → A) (p : ℕ) (a : A) → update f p a p ≡ a
update_self f p a = elim (Bool-cases (p == p)) [ inl e ↦ rw e | inr e ↦ absurd (ground arith) ]

pub update_ne {ℓ} : {A : Type ℓ} (f : ℕ → A) (p q : ℕ) (a : A) → p ≢ q → update f p a q ≡ f q
update_ne f p q a h = elim (Bool-cases (p == q)) [
  | inl e ↦ absurd (h (ground arith))
  | inr e ↦ rw e
]
