-- ===== src/ComputeNode/Offload.antt =====
-- Tasks that are offered to a remote node
-- (modules/broker/broker_compute_node.cpp).
use paracooba.Prelude.{Bool, true, false, Option, none, some, ◌==◌, if◌then◌else◌}
use paracooba.Task.{Ptr}
use paracooba.Store.State.{Store}
use paracooba.Store.Queue.{pop_offload}
use paracooba.ComputeNode.{NodeStatus, is_parsed, increment_work}
use paracooba.ComputeNode.State.{
  ComputeNode, task_offered, send_message, conditionally_send_status_to,
}

-- The early returns of tryToOffloadTask.
unfoldable pub may_offload : ComputeNode → Bool
may_offload n = elim n.description [
  | none ↦ false
  | some d ↦ if d.workers == 0 then false else n.can_send
]

-- The rest of it, with what pop_offload gave.
unfoldable pub offer :
    (available : Bool)
    → (own : NodeStatus) → ComputeNode
    → Option Ptr × Store
    → Bool × (ComputeNode × Store)
unfolding conditionally_send_status_to increment_work
offer available own n (none, s) = (false, (n, s))
offer available own n (some p, s) = (
  true,
  (
    send_message (task_offered p) (
        conditionally_send_status_to available own
          (record n { status = increment_work (s.heap p).originator n.status })),
    s,
  ),
)

-- tryToOffloadTask; `own` is the status of this node.
unfoldable pub try_to_offload_task :
    (available : Bool) → (own : NodeStatus) → ComputeNode → Store → Bool × (ComputeNode × Store)
unfolding may_offload offer pop_offload is_parsed
try_to_offload_task available own n s =
    if may_offload n
    then offer available own n (pop_offload n.id (λ t. is_parsed t.originator n.status) s)
    else (false, (n, s))
