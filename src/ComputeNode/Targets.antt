-- ===== src/ComputeNode/Targets.antt =====
-- The choice of offload targets: ComputeNodeStore of modules/broker/broker_compute_node_store.cpp.
pub mod Starvation
use paracooba.Prelude.{ℕ, ◌-◌, ◌*◌, Bool, not, ◌&&◌, ◌||◌, List, [], ◌∷◌, ◌==◌, ltb, if◌then◌else◌}
use paracooba.ComputeNode.{NodeStatus, Utilization, is_below, compute_future_utilization}
use paracooba.ComputeNode.State.{ComputeNode, conditionally_send_status_to}

-- An entry of nodesRefVec; `offloads` is what tryToOffloadTask returns for the node.
pub record Peer : Type 0 where
  pub id : ℕ
  pub utilization : Utilization
  pub offloads : Bool

-- The first utilization is the greater one.
abbrev pub exceeds : Utilization → Utilization → Bool
exceeds u v = ltb (v.numerator * u.denominator) (u.numerator * v.denominator)

abbrev pub two : Utilization
two = record { numerator = 2; denominator = 1 }

-- thisFutureUtilization
unfoldable pub future_utilization : ℕ → NodeStatus → Utilization
unfolding compute_future_utilization
future_utilization size own =
    if ltb 0 size
    then compute_future_utilization (size - 1) own
    else record { numerator = 0; denominator = 1 }

-- The four reasons to leave the loop.
unfoldable pub ends_offloading : (this_id : ℕ) → NodeStatus → Utilization → (size : ℕ) → Peer → Bool
unfolding is_below future_utilization
ends_offloading this_id own this_utilization size p =
    p.id == this_id
    || is_below 1 2 (future_utilization size own)
    || exceeds p.utilization this_utilization
    || exceeds p.utilization two

-- The loop of tryOffloadingTasks over the sorted nodes: those that are tried, and this node's work
-- queue size at the end.
unfoldable pub offload_loop :
    (this_id : ℕ) → NodeStatus → Utilization → (size : ℕ) → List Peer → List Peer × ℕ
unfolding ends_offloading
offload_loop this_id own this_utilization size [] = ([], size)
offload_loop this_id own this_utilization size (p ∷ ps) =
    let rest =
      offload_loop this_id own this_utilization (if p.offloads then size - 1 else size) ps in
    if ends_offloading this_id own this_utilization size p then ([], size) else (p ∷ rest.0, rest.1)

-- sendStatusToPeers, with the lock held; a node is given with the answer of its
-- available_to_send_to.
unfoldable pub send_status_to_peers :
    (this_id : ℕ) → NodeStatus → List (Bool × ComputeNode) → List (Bool × ComputeNode)
unfolding conditionally_send_status_to
send_status_to_peers this_id own [] = []
send_status_to_peers this_id own ((available, n) ∷ ns) =
    (
      available,
      if not (n.id == this_id) && available
          then conditionally_send_status_to available own n
          else n,
    )
    ∷ send_status_to_peers this_id own ns
