-- ===== src/SendQueue/Register.antt =====
-- MessageSendQueue::registerNotificationCB of modules/communicator/message_send_queue.cpp: a new
-- connection to the remote, and which of two connections is kept.
use paracooba.Prelude.{ℕ, Bool, true, false, not, ◌&&◌, [], ◌∷◌, ltb, if◌then◌else◌}
use paracooba.SendQueue.{SendQueue, killed_connection, counter_added, node_created, emit}

-- What becomes of the new connection while another one is registered.
pub data Conflict : Type 0 where
  refused overtakes : Conflict

unfoldable pub resolve : (initiator greater : Bool) → (acked : ℕ) → Conflict
resolve true true acked = if ltb 0 acked then refused else overtakes
resolve false true acked = refused
resolve false false acked = if ltb 0 acked then refused else overtakes
resolve true false acked = refused

-- The counter of the service hears of the messages that waited for a connection.
unfoldable pub tell_service : (overtake : Bool) → SendQueue → SendQueue
tell_service overtake q =
    if ltb 0 q.tracked_size && not overtake && not q.service_knows
    then emit (counter_added q.tracked_size ∷ []) (record q { service_knows = true })
    else q

-- The compute node store creates a node for the remote at the first connection.
unfoldable pub provide_node : SendQueue → SendQueue
provide_node q =
    if q.has_remote then q else emit (node_created ∷ []) (record q { has_remote = true })

unfoldable pub accept : (overtake : Bool) → (connection_string : ℕ) → SendQueue → SendQueue
unfolding tell_service provide_node
accept overtake connection_string q = provide_node (
    tell_service overtake
      (record q { notified = true; available = true; connection_string = connection_string }))

unfoldable pub resolved : Conflict → ℕ → SendQueue → Bool × SendQueue
unfolding accept
resolved refused connection_string q = (false, q)
resolved overtakes connection_string q =
    (true, accept true connection_string (emit (killed_connection ∷ []) q))

-- registerNotificationCB on the node `own`: whether the connection is taken, and the queue. The
-- local variable `greater` is the source's idGreaterThanRemote.
unfoldable pub register :
    (initiator : Bool) → (own connection_string : ℕ) → SendQueue → Bool × SendQueue
unfolding resolve accept resolved
register initiator own connection_string q =
    let greater = ltb q.remote_id own in
    if q.dropped
    then (false, q)
    else if q.notified
    then resolved (resolve initiator greater q.acked_count) connection_string q
    else (true, accept false connection_string q)
