-- ===== src/Store/Queue/Offload.antt =====
-- Handing a task to another node and taking it back (modules/broker/broker_task_store.cpp).
use paracooba.Prelude.{
  ◌≡◌, refl, inl, inr, Bool, true, false, none, some, List, Option-cases, arith,
}
use paracooba.Task.{Ptr, Node, Task}
use paracooba.Store.State.{Store, update_self, has, add, decrement_work, succ64, pred64}
use paracooba.Store.Queue.{
  take_last, can_offload, mark_offloaded, pop_offload, release_offload, offloaded_to_node,
}
use paracooba.Store.Queue.Last.{TakenLast, NonePasses, take_last-none, take_last-some}
use paracooba.Store.Queue.Consistent.{IsConsistent, drop_middle, has-add, IsOrdered-update}

-- When `pop_offload` gives nothing, no waiting task may be offloaded, and nothing has changed.
pub pop_offload-none :
    (target : Node) (check : Task → Bool) (s : Store)
    → (pop_offload target check s).0 ≡ none
    → (pop_offload target check s ≡ (none, s)) × NonePasses (can_offload s.heap check) s.queue
unfolding pop_offload
pop_offload-none target check s h =
    elim (Option-cases (take_last (can_offload s.heap check) s.queue)) [
      | inl e ↦ (ground arith, take_last-none (can_offload s.heap check) s.queue e)
      | inr ((p, rest), e) ↦ absurd (ground arith)
    ]

-- What holds after a task p was handed to the node `target`.
pub record IsHandedOver (target : Node) (check : Task → Bool) (s : Store) (p : Ptr) (r : Store)
    : Type 0 where
  pub taken : TakenLast (can_offload s.heap check) s.queue p r.queue
  pub to_target : (r.heap p).offloaded_to ≡ some target
  pub offloaded : (r.heap p).state.offloaded ≡ true
  pub not_available : (r.heap p).state.work_available ≡ false
  pub recorded : has p (offloaded_to_node r target) ≡ true
  pub work :
      r.work_queue_size (s.heap p).originator ≡ pred64 (s.work_queue_size (s.heap p).originator)
  pub originator : (r.heap p).originator ≡ (s.heap p).originator
  pub gone : r.queued p ≡ false
  pub consistent : IsConsistent r

handed_task : Node → Task → Task
handed_task target t =
    let st = t.state in
    record t {
      offloaded_to = some target;
      state = record st { work_available = false; offloaded = true };
    }

offloaded_to_node-some :
    (r : Store) (n : Node) (ps : List Ptr)
    → r.offloaded_tasks n ≡ some ps
    → offloaded_to_node r n ≡ ps
offloaded_to_node-some r n ps e = ground arith

hand_over :
    (target : Node) (check : Task → Bool) (s : Store) (p : Ptr) (rest : List Ptr)
    → IsConsistent s
    → take_last (can_offload s.heap check) s.queue ≡ some (p, rest)
    → IsHandedOver target check s p
        (decrement_work (s.heap p).originator (mark_offloaded target p rest s))
unfolding decrement_work mark_offloaded handed_task
hand_over target check s p rest c e =
    let k = take_last-some (can_offload s.heap check) s.queue p rest e in
    let u = handed_task target (s.heap p) in
    record {
      taken = k;
      to_target = rw (update_self s.heap p u) refl;
      offloaded = rw (update_self s.heap p u) refl;
      not_available = rw (update_self s.heap p u) refl;
      recorded =
          rw
            (offloaded_to_node-some
              (decrement_work (s.heap p).originator (mark_offloaded target p rest s)) target
              (add p (offloaded_to_node s target))
              (update_self s.offloaded_tasks target (some (add p (offloaded_to_node s target)))))
            (has-add p (offloaded_to_node s target));
      originator = rw (update_self s.heap p u) refl;
      gone = update_self s.queued p false;
      work = update_self s.work_queue_size (s.heap p).originator _;
      consistent =
          drop_middle s _ u p k.front k.back c k.splits
            (record { pre = refl; post = refl; path = refl }) refl k.leaves refl refl;
    }

-- From a consistent store, a task that `pop_offload` gives is the last in the queue that may be
-- offloaded; it leaves the queue for the set of its target, loses `work_available`, is marked
-- offloaded and is counted off, and the queue stays consistent.
pub pop_offload-some :
    (target : Node) (check : Task → Bool) (s : Store) (p : Ptr)
    → IsConsistent s
    → (pop_offload target check s).0 ≡ some p
    → IsHandedOver target check s p (pop_offload target check s).1
unfolding pop_offload
pop_offload-some target check s p c h =
    elim (Option-cases (take_last (can_offload s.heap check) s.queue)) [
      | inl e ↦ absurd (ground arith)
      | inr ((q, rest), e) ↦
          let same : q ≡ p = ground arith in
          rw (e, pop_offload) (rw (← same) (hand_over target check s q rest c e))
    ]

pub release_offload-IsConsistent :
    (n : Node) (p : Ptr) (s : Store) → IsConsistent s → IsConsistent (release_offload n p s)
unfolding release_offload
release_offload-IsConsistent n p s c =
    let t = s.heap p in
    let st = t.state in
    let t' : Task = record t { state = record st { offloaded = false }; offloaded_to = none } in
    record {
      ordered = IsOrdered-update s p t' (record { pre = refl; post = refl; path = refl }) c;
      distinct = c.distinct;
      marked = c.marked;
      counted = c.counted;
      bounded = c.bounded;
    }

-- What holds after a task was made this node's again.
pub record IsReclaimed (s : Store) (p : Ptr) (r : Store) : Type 0 where
  pub waits : has p r.queue ≡ true
  pub available : (r.heap p).state.work_available ≡ true
  pub not_offloaded : (r.heap p).state.offloaded ≡ false
  pub nowhere : (r.heap p).offloaded_to ≡ none
  pub work :
      r.work_queue_size (s.heap p).originator ≡ succ64 (s.work_queue_size (s.heap p).originator)
  pub consistent : IsConsistent r
