-- ===== src/Tests/Nodes.antt =====
-- The theorems on compute nodes at concrete nodes.
use paracooba.Prelude.{ℕ, ◌≤◌, ◌≡◌, refl, true, false, none, some, List, [], ◌∷◌, arith}
use paracooba.ComputeNode.{
  SolverInstance, new_instance, NodeStatus, work_queue_size, increment_work, apply_status,
}
use paracooba.ComputeNode.State.{
  ComputeNode, Remote, conditionally_send_status_to, status_sent, notify_of_new_remote, is_news,
  remember,
}
use paracooba.ComputeNode.WorkSize.{created, incremented, applied, work_queue_size-total}
use paracooba.ComputeNode.Sending.{Agrees, last_status, Reach-Agrees, status_sent-current}
use paracooba.ComputeNode.Sending
use paracooba.ComputeNode.Targets.{Peer, offload_loop}
use paracooba.ComputeNode.Targets.Starvation.{LeavesWork, offload_loop-LeavesWork}
use paracooba.ComputeNode.Parsing.{
  Threads, Turn, wait, parse, run, returned, finished, at_first_check, at_mark,
}
use paracooba.ComputeNode.Parsing.Called.{count}
use paracooba.ComputeNode.Parsing.Schedule.{run-calls}

-- Originator 0 has its formula parsed and two tasks at the node.
abbrev busy_instance : SolverInstance
busy_instance = record new_instance { formula_parsed = true; work_queue_size = 2 }

abbrev busy : NodeStatus
busy = record {
  solver_instances = (0, busy_instance) ∷ [];
  workers = 4;
  dirty = true;
  cached_work_queue_size = 0;
}

abbrev idle : NodeStatus
idle = record busy { solver_instances = [] }

-- A status is applied before the size is computed.
work_queue_size-total_example : (work_queue_size (apply_status busy (increment_work 0 busy))).0 ≡ 2
unfolding increment_work apply_status paracooba.ComputeNode.write_instance
work_queue_size-total_example =
    work_queue_size-total (applied busy (incremented 0 (created busy refl))) (omega arith)

-- A test: applied after the size was computed, a status leaves it as it was.
outdated : (work_queue_size (apply_status idle (work_queue_size busy).1)).0 ≡ 2
unfolding work_queue_size apply_status paracooba.ComputeNode.accumulate
    paracooba.ComputeNode.sign_extend
outdated = refl

abbrev pub node_five : ComputeNode
node_five = record {
  id = 5;
  can_send = true;
  description = some (record { workers = 4; daemon = true });
  status = busy;
  remotely_known_local_status = none;
  sending_status_to = false;
  sending_known_remotes = false;
  new_remotes_to_notify_about = [];
  messages = [];
}

abbrev remote_eight : Remote
remote_eight = record { id = 8; connection_string = 80 }

-- A status is sent, and two remote nodes appear; the second has to wait.
abbrev told : ComputeNode
told =
    notify_of_new_remote remote_eight
      (notify_of_new_remote remote_eight (conditionally_send_status_to true idle node_five))

abbrev told-Reach : Sending.Reach (remote_eight ∷ remote_eight ∷ []) told
told-Reach = Sending.notified remote_eight (
    Sending.notified remote_eight
      (Sending.updated true idle (Sending.created node_five refl refl refl)))

Reach-Agrees_example : Agrees (remote_eight ∷ remote_eight ∷ []) told
Reach-Agrees_example = Reach-Agrees told-Reach

-- Meanwhile this node got busy.
status_sent-current_example :
    last_status none (status_sent true busy told).messages ≡ some ((0, busy_instance) ∷ [])
unfolding conditionally_send_status_to notify_of_new_remote is_news remember
    paracooba.ComputeNode.State.do_notify_of_new_remotes
status_sent-current_example = status_sent-current busy (remember idle none) told-Reach refl

-- The callback 9 is registered before the formula is parsed, and called twice.
abbrev threads : Threads
threads = record {
  status = idle;
  callbacks = λ id. [];
  called = [];
  waiter = at_first_check;
  parser = at_mark;
}

abbrev turns : List Turn
turns = wait ∷ wait ∷ parse ∷ parse ∷ wait ∷ []

run-calls_example :
    (((run 4 9 turns threads).waiter ≡ returned) × ((run 4 9 turns threads).parser ≡ finished))
    × ((1 ≤ count 9 (run 4 9 turns threads).called) × (count 9 (run 4 9 turns threads).called ≤ 2))
unfolding paracooba.ComputeNode.is_parsed paracooba.ComputeNode.find_instance
run-calls_example = run-calls 4 9 turns threads refl refl refl refl (omega arith) (omega arith)

-- A test: in this order the callback is called twice.
called_twice : count 9 (run 4 9 turns threads).called ≡ 2
unfolding run paracooba.ComputeNode.Parsing.waiter_step paracooba.ComputeNode.Parsing.parser_step
called_twice = refl

-- Two idle nodes that take a task, and this node, with four workers and four tasks.
abbrev idle_peer : ℕ → Peer
idle_peer id = record {
  id = id;
  utilization = record { numerator = 0; denominator = 4 };
  offloads = true;
}

offload_loop-LeavesWork_example :
    LeavesWork 1 busy
      (record { numerator = 4; denominator = 4 })
      4
      (offload_loop 1 busy
        (record { numerator = 4; denominator = 4 })
        4
        (idle_peer 2 ∷ idle_peer 3 ∷ idle_peer 1 ∷ []))
offload_loop-LeavesWork_example =
    offload_loop-LeavesWork 1 busy (record { numerator = 4; denominator = 4 }) 4
      (idle_peer 2 ∷ idle_peer 3 ∷ idle_peer 1 ∷ []) (omega arith)
