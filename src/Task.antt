-- ===== src/Task.antt =====
-- include/paracooba/common/task.h and modules/commonc/task.c: a task, its state flags, and the order
-- of the work queue. A pointer to a task is a number, and the tasks that pointers lead to are given
-- by a function `heap`.
pub mod Assess
pub mod Order
use paracooba.Prelude.{
  ℕ, Bool, true, false, not, ◌&&◌, ◌||◌, Option, none, some, List, [], ltb, ◌==◌, if◌then◌else◌,
}
use paracooba.Status.{Status, pending}
use paracooba.Path.{Rep, explicitly_unknown, path_length}

-- The eight bits of parac_task_state; `PARAC_TASK_NEW` has none of them.
pub record TaskState : Type 0 where
  pub splitted : Bool
  pub work_available : Bool
  pub working : Bool
  pub waiting_for_splits : Bool
  pub done : Bool
  pub splits_done : Bool
  pub offloaded : Bool
  pub error : Bool

abbrev pub new_state : TaskState
new_state = record {
  splitted = false;
  work_available = false;
  working = false;
  waiting_for_splits = false;
  done = false;
  splits_done = false;
  offloaded = false;
  error = false;
}

-- The value of `assess`, a function pointer.
pub data AssessFunc : Type 0 where
  default_assess qbf_existential_assess qbf_universal_assess : AssessFunc

-- The value of `terminate`: null, the task store's own, or one of a solver module.
pub data TerminateFunc : Type 0 where
  no_terminate default_terminate solver_terminate : TerminateFunc

abbrev pub Ptr : Type 0
Ptr = ℕ

abbrev pub Node : Type 0
Node = ℕ

-- `left_child_` to `right_result` and the two `extended_` arrays share memory in the source; which
-- of them is in use is told by `extended_children_count`, where -1 is `none`.
pub record Task : Type 0 where
  pub last_state : TaskState
  pub state : TaskState
  pub result : Status
  pub stop : Bool
  pub extended_children_count : Option ℕ
  pub extended_children_parent_index : Option ℕ
  pub pre_path_sorting_critereon : ℕ
  pub post_path_sorting_critereon : ℕ
  pub path : Rep
  pub received_from : Option Node
  pub offloaded_to : Option Node
  pub originator : ℕ
  pub assess : AssessFunc
  pub terminate : TerminateFunc
  pub serialize : Bool
  pub parent_task : Option Ptr
  pub left_child : Option Ptr
  pub right_child : Option Ptr
  pub left_result : Status
  pub right_result : Status
  pub extended_children : List (Option Ptr)
  pub extended_children_results : List Status

-- parac_task_init
unfoldable pub init : Task
init = record {
  last_state = new_state;
  state = new_state;
  result = pending;
  stop = false;
  extended_children_count = none;
  extended_children_parent_index = none;
  pre_path_sorting_critereon = 0;
  post_path_sorting_critereon = 0;
  path = explicitly_unknown;
  received_from = none;
  offloaded_to = none;
  originator = 0;
  assess = default_assess;
  terminate = no_terminate;
  serialize = false;
  parent_task = none;
  left_child = none;
  right_child = none;
  left_result = pending;
  right_result = pending;
  extended_children = [];
  extended_children_results = [];
}

-- parac_task_state_is_done
unfoldable pub state_is_done : TaskState → Bool
state_is_done s =
    not s.work_available
    && not s.working
    && ((not s.splitted && s.done) || (s.splitted && s.splits_done))

abbrev pub Heap : Type 0
Heap = Ptr → Task

-- parac_task_compare: `l` goes before `r` in the work queue.
unfoldable pub compare : Task → Task → Bool
compare l r =
    if not (l.pre_path_sorting_critereon == r.pre_path_sorting_critereon)
    then ltb l.pre_path_sorting_critereon r.pre_path_sorting_critereon
    else if not (path_length l.path == path_length r.path)
    then ltb (path_length r.path) (path_length l.path)
    else ltb l.post_path_sorting_critereon r.post_path_sorting_critereon
