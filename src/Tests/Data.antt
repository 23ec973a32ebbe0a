-- ===== src/Tests/Data.antt =====
-- Tasks and stores for the runs.
use paracooba.Prelude.{ℕ, true, false, none, [], ◌∷◌}
use paracooba.Status.{pending, undefined}
use paracooba.Task.{
  Task, TaskState, Heap, new_state, default_assess, no_terminate, default_terminate,
}
use paracooba.Store.State.{Store, has}

abbrev pub new_task : Task
new_task = record {
  last_state = new_state;
  state = new_state;
  result = pending;
  stop = false;
  extended_children_count = none;
  extended_children_parent_index = none;
  pre_path_sorting_critereon = 0;
  post_path_sorting_critereon = 0;
  path = 0;
  received_from = none;
  offloaded_to = none;
  originator = 0;
  assess = default_assess;
  terminate = no_terminate;
  serialize = false;
  parent_task = none;
  left_child = none;
  right_child = none;
  left_result = pending;
  right_result = pending;
  extended_children = [];
  extended_children_results = [];
}

abbrev pub no_flags : TaskState
no_flags = new_state

abbrev pub split_flags : TaskState
split_flags = record no_flags { splitted = true; waiting_for_splits = true }

abbrev pub done_flags : TaskState
done_flags = record no_flags { done = true }

abbrev pub done_heap : Heap
done_heap p = record new_task { state = done_flags }

-- Tasks 1, 2 and 3 wait, at depths 1, 2 and 3; the deepest is the first.
abbrev pub waiting_flags : TaskState
waiting_flags = record no_flags { work_available = true }

abbrev pub waiting : ℕ → Task
waiting path = record new_task {
  state = waiting_flags;
  path = path;
  serialize = true;
  terminate = default_terminate;
}

abbrev pub three : Store
three = record {
  heap = waiting;
  tasks = 3 ∷ 2 ∷ 1 ∷ [];
  queue = 3 ∷ 2 ∷ 1 ∷ [];
  queued = λ p. has p (3 ∷ 2 ∷ 1 ∷ []);
  being_worked_on = [];
  waiting_for_children = [];
  offloaded_tasks = λ n. none;
  tasks_size = 3;
  queue_size = 3;
  work_queue_size = λ o. 3;
  auto_shutdown_timeout = 0;
  timer_set = false;
  input_file = false;
  exit_status = undefined;
  events = [];
}
