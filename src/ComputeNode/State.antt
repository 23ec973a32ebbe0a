-- ===== src/ComputeNode/State.antt =====
-- The state of a ComputeNode and the messages that it sends of its own accord
-- (modules/broker/broker_compute_node.cpp).
use paracooba.Prelude.{
  ℕ, Bool, true, false, not, ◌||◌, Option, none, some, List, [], ◌∷◌, ◌++◌, ◌==◌, if◌then◌else◌,
}
use paracooba.Task.{Ptr}
use paracooba.ComputeNode.{
  Instances, NodeStatus, copy, assign, work_queue_size, is_diff_worthwhile, Utilization,
  compute_utilization,
}

-- The fields of ComputeNode::Description that decisions use.
pub record Description : Type 0 where
  pub workers : ℕ
  pub daemon : Bool

-- MessageKnownRemotes::Remote
pub record Remote : Type 0 where
  pub id : ℕ
  pub connection_string : ℕ

-- The messages to the remote node.
pub data Message : Type 0 where
  node_status : Instances → Message
  new_remotes : List Remote → Message
  task_offered : Ptr → Message

-- `can_send` is whether the node has a function `send_message_to`.
pub record ComputeNode : Type 0 where
  pub id : ℕ
  pub can_send : Bool
  pub description : Option Description
  pub status : NodeStatus
  pub remotely_known_local_status : Option NodeStatus
  pub sending_status_to : Bool
  pub sending_known_remotes : Bool
  pub new_remotes_to_notify_about : List Remote
  pub messages : List Message

abbrev pub send_message : Message → ComputeNode → ComputeNode
send_message m n = record n { messages = n.messages ++ m ∷ [] }

-- The status is worth a message to a node with this knowledge.
unfoldable pub is_news : NodeStatus → Option NodeStatus → Bool
unfolding is_diff_worthwhile
is_news s none = true
is_news s (some known) = is_diff_worthwhile known s

-- The assignment to the optional, and serializeToMessage, which computes the size.
unfoldable pub remember : NodeStatus → Option NodeStatus → NodeStatus
unfolding copy assign work_queue_size
remember s none = (work_queue_size (copy s)).1
remember s (some known) = (work_queue_size (assign known s)).1

-- conditionallySendStatusTo; `available` is the answer of available_to_send_to.
unfoldable pub conditionally_send_status_to :
    (available : Bool) → NodeStatus → ComputeNode → ComputeNode
unfolding is_news remember
conditionally_send_status_to available s n =
    if not available
    then n
    else if n.sending_status_to
    then n
    else if is_news s n.remotely_known_local_status
    then send_message (node_status s.solver_instances) (record n {
      sending_status_to = true;
      remotely_known_local_status = some (remember s n.remotely_known_local_status);
    })
    else record n { sending_status_to = false }

-- The callback of that message at its end, where o is the status that the remote knows.
unfoldable pub send_again :
    (available : Bool) → (local : NodeStatus) → Option NodeStatus → ComputeNode → ComputeNode
unfolding conditionally_send_status_to
send_again available local none n = record n { sending_status_to = false }
send_again available local (some known) n =
    let n1 = record n { sending_status_to = false } in
    if is_diff_worthwhile known local then conditionally_send_status_to available local n1 else n1

-- The same; `local` is the status of this node by then.
unfoldable pub status_sent : (available : Bool) → (local : NodeStatus) → ComputeNode → ComputeNode
unfolding send_again
status_sent available local n = send_again available local n.remotely_known_local_status n

-- doNotifyOfNewRemotes, and its callback at the end of the message.
unfoldable pub do_notify_of_new_remotes : ComputeNode → ComputeNode
do_notify_of_new_remotes n =
    if n.sending_known_remotes
    then n
    else send_message (new_remotes n.new_remotes_to_notify_about)
        (record n { sending_known_remotes = true; new_remotes_to_notify_about = [] })

unfoldable pub remotes_sent : ComputeNode → ComputeNode
remotes_sent n = record n { sending_known_remotes = false }

abbrev pub add_remotes : List Remote → ComputeNode → ComputeNode
add_remotes rs n = record n { new_remotes_to_notify_about = n.new_remotes_to_notify_about ++ rs }

-- notifyOfNewRemote
unfoldable pub notify_of_new_remote : Remote → ComputeNode → ComputeNode
unfolding do_notify_of_new_remotes
notify_of_new_remote r n = do_notify_of_new_remotes (add_remotes (r ∷ []) n)

-- A node of the compute node store, as sendKnownRemotes sees it.
pub record StoredNode : Type 0 where
  pub remote : Remote
  pub has_send : Bool
  pub has_connection_string : Bool

unfoldable pub known_remotes : (id : ℕ) → List StoredNode → List Remote
known_remotes id [] = []
known_remotes id (m ∷ ms) =
    let rest = known_remotes id ms in
    if m.remote.id == id || not m.has_send || not m.has_connection_string
    then rest
    else m.remote ∷ rest

-- sendKnownRemotes
unfoldable pub send_known_remotes : List StoredNode → ComputeNode → ComputeNode
unfolding do_notify_of_new_remotes known_remotes
send_known_remotes ms n = do_notify_of_new_remotes (add_remotes (known_remotes n.id ms) n)

-- ComputeNode::computeUtilization: without a description it counts as full.
unfoldable pub node_utilization : ComputeNode → Utilization
unfolding compute_utilization
node_utilization n = elim n.description [
  | none ↦ record { numerator = 1000000; denominator = 1 }
  | some d ↦ (compute_utilization n.status).0
]
