-- ===== src/Task/Assess.antt =====
-- The assessment of a task by the results of its children (modules/commonc/task.c). A call of a
-- child's `terminate` callback and a message sent are entries of the outcome, in the order of the
-- calls.
pub mod Verdict
pub mod Flags
use paracooba.Prelude.{
  ℕ, Bool, true, false, not, ◌&&◌, ◌||◌, Option, none, some, List, [], ◌∷◌, ◌++◌, ◌==◌, suc, length,
  if◌then◌else◌,
}
use paracooba.Status.{Status, ◌is◌, pending, sat, unsat, aborted, splitted}
use paracooba.Task.{
  TaskState, AssessFunc, default_assess, qbf_existential_assess, qbf_universal_assess, no_terminate,
  Ptr, Node, Task, state_is_done, Heap,
}

-- What one assessment does: the task afterwards, the children whose `terminate` it calls, and
-- whether there is news for the node that the task came from.
pub record Assessment : Type 0 where
  pub task : Task
  pub terminated : List Ptr
  pub notify : Bool

-- early_abort_task: the call is made if there is a callback.
early_abort_task : Heap → Ptr → List Ptr
early_abort_task heap c = elim (heap c).terminate [ no_terminate ↦ [] | _ ↦ c ∷ [] ]

-- The conditions on a child under which it is terminated early.
may_abort : Heap → Option Ptr → Status → Bool
may_abort heap none r = false
may_abort heap (some c) r =
    not (r is pending) && not (r is aborted) && not (state_is_done (heap c).state)

abort_child : Heap → Option Ptr → List Ptr
abort_child heap none = []
abort_child heap (some c) = early_abort_task heap c

-- The inner branches of existential_assess (decided by `sat`) and universal_assess (by `unsat`).
abort_sibling : Status → Heap → Task → List Ptr
unfolding may_abort abort_child early_abort_task
abort_sibling by heap t =
    if (t.left_result is by) && may_abort heap t.right_child t.right_result
    then abort_child heap t.right_child
    else if (t.right_result is by) && may_abort heap t.left_child t.left_result
    then abort_child heap t.left_child
    else []

-- The loop over the extended children that terminates "all other children".
abort_extended : Heap → List (Option Ptr) → List Status → List Ptr
unfolding may_abort abort_child early_abort_task
abort_extended heap [] rs = []
abort_extended heap (c ∷ cs) [] = []
abort_extended heap (c ∷ cs) (r ∷ rs) =
    let rest = abort_extended heap cs rs in
    if may_abort heap c r then abort_child heap c ++ rest else rest

unfoldable pub existential_assess : Heap → Task → Bool → Assessment
unfolding abort_sibling
existential_assess heap t terminate_children =
    if (t.left_result is sat) || (t.right_result is sat)
    then record {
      task = record t { result = sat };
      terminated = if terminate_children then abort_sibling sat heap t else [];
      notify = true;
    }
    else if (t.left_result is unsat) && (t.right_result is unsat)
    then record { task = record t { result = unsat }; terminated = []; notify = true }
    else record { task = t; terminated = []; notify = false }

unfoldable pub universal_assess : Heap → Task → Bool → Assessment
unfolding abort_sibling
universal_assess heap t terminate_children =
    if (t.left_result is unsat) || (t.right_result is unsat)
    then record {
      task = record t { result = unsat };
      terminated = if terminate_children then abort_sibling unsat heap t else [];
      notify = true;
    }
    else if (t.left_result is sat) && (t.right_result is sat)
    then record { task = record t { result = sat }; terminated = []; notify = true }
    else record { task = t; terminated = []; notify = false }

-- The scan over the results: stop at the first that is `by`, and count those that are `other`.
unfoldable pub scan_results : (by other : Status) → ℕ → List Status → Bool × ℕ
scan_results by other count [] = (false, count)
scan_results by other count (r ∷ rs) =
    let rest = scan_results by other (if r is other then suc count else count) rs in
    if r is by then (true, count) else rest

-- existential_assess_extended is decided by `sat`, universal_assess_extended by `unsat`.
unfoldable pub assess_extended : (by other : Status) → Heap → Task → Bool → Assessment
unfolding scan_results abort_extended
assess_extended by other heap t terminate_children =
    let (found, count) = scan_results by other 0 t.extended_children_results in
    if (t.result is sat) || (t.result is unsat)
    then record { task = t; terminated = []; notify = false }
    else if found
    then record {
      task = record t { result = by };
      terminated =
          if terminate_children
          then abort_extended heap t.extended_children t.extended_children_results
          else [];
      notify = true;
    }
    else if count == length t.extended_children_results
    then record { task = record t { result = other }; terminated = []; notify = true }
    else record { task = t; terminated = []; notify = false }

abbrev pub existential_assess_extended : Heap → Task → Bool → Assessment
existential_assess_extended = assess_extended sat unsat

abbrev pub universal_assess_extended : Heap → Task → Bool → Assessment
universal_assess_extended = assess_extended unsat sat

-- The inline data and header of a `PARAC_MESSAGE_TASK_RESULT`.
pub record ResultMessage : Type 0 where
  pub to : Node
  pub task_ptr : Option Ptr
  pub result : Status
  pub originator : ℕ

-- notify_result: nothing is sent about an aborted task.
unfoldable pub notify_result : Task → List ResultMessage
notify_result t = elim t.received_from [
  | none ↦ []
  | some n ↦
      if t.result is aborted
      then []
      else record { to = n; task_ptr = t.parent_task; result = t.result; originator = t.originator }
        ∷ []
]

abbrev pub is_some {ℓ} : {A : Type ℓ} → Option A → Bool
is_some none = false
is_some (some a) = true

pub record Assessed : Type 0 where
  pub task : Task
  pub terminated : List Ptr
  pub messages : List ResultMessage

-- `state |= SPLITS_DONE` and `state &= ~WAITING_FOR_SPLITS` once the children decide.
unfoldable pub close_splits : Task → Task
close_splits t =
    if not (t.result is pending) && not (t.result is splitted)
    then record t { state = record s { splits_done = true; waiting_for_splits = false } }
    else t
  where
    s : TaskState
    s = t.state

assess_splitted : Assessment → Bool → Assessed
unfolding close_splits notify_result
assess_splitted a terminate_children =
    let t = close_splits a.task in
    record {
      task = t;
      terminated = a.terminated;
      messages =
          if (t.state.splits_done || terminate_children) && (a.notify && is_some t.received_from)
          then notify_result t
          else [];
    }

assess_unsplitted : Task → Assessed
unfolding notify_result
assess_unsplitted t =
    if is_some t.received_from && not (t.result is pending)
    then record { task = t; terminated = []; messages = notify_result t }
    else if not (t.result is pending)
    then record {
      task = record t { state = record s { done = true; work_available = false } };
      terminated = [];
      messages = [];
    }
    else record { task = t; terminated = []; messages = [] }
  where
    s : TaskState
    s = t.state

unfoldable pub shared_assess : Task → Assessment → Bool → Assessed
unfolding assess_splitted assess_unsplitted
shared_assess t a terminate_children =
    if t.state.splitted then assess_splitted a terminate_children else assess_unsplitted t

-- The three functions that `assess` may point to; `a` above is computed only where it is called.
unfoldable pub run_assess : AssessFunc → Heap → Task → Assessed
unfolding shared_assess
run_assess default_assess heap t = shared_assess t (existential_assess heap t false) false
run_assess qbf_existential_assess heap t =
    shared_assess t
      (if is_some t.extended_children_count
        then existential_assess_extended heap t true
        else existential_assess heap t true)
      true
run_assess qbf_universal_assess heap t =
    shared_assess t
      (if is_some t.extended_children_count
        then universal_assess_extended heap t true
        else universal_assess heap t true)
      true
