-- ===== src/SendQueue/Agreement.antt =====
-- Which of two connections between the same nodes is kept
-- (modules/communicator/message_send_queue.cpp).
use paracooba.Prelude.{ℕ, ◌<◌, ◌≡◌, ◌≢◌, Bool, true, false, not, ltb, if◌then◌else◌, arith}
use paracooba.SendQueue.{SendQueue}
use paracooba.SendQueue.Register.{register, resolve}

-- When two different nodes with a registered connection, neither dropped nor with an acknowledged
-- message, get a second connection between them, both ends decide alike: both take it exactly if
-- the node that initiated it has the greater id.
pub register_agrees :
    (initiator : Bool) (a b s t : ℕ) (p q : SendQueue)
    → a ≢ b
    → p.remote_id ≡ b
    → q.remote_id ≡ a
    → p.dropped ≡ false
    → q.dropped ≡ false
    → p.notified ≡ true
    → q.notified ≡ true
    → p.acked_count ≡ 0
    → q.acked_count ≡ 0
    → ((register initiator a s p).0 ≡ (if initiator then ltb b a else ltb a b))
      × ((register (not initiator) b t q).0 ≡ (if initiator then ltb b a else ltb a b))
unfolding register resolve
register_agrees true a b s t p q ne rp rq dp dq np nq ap aq = ground arith
register_agrees false a b s t p q ne rp rq dp dq np nq ap aq = ground arith

-- A second connection is refused once a message was acknowledged on the first.
pub register_used :
    (initiator : Bool) (own s : ℕ) (q : SendQueue)
    → q.dropped ≡ false
    → q.notified ≡ true
    → 0 < q.acked_count
    → register initiator own s q ≡ (false, q)
unfolding register resolve
register_used initiator own s q d n a = ground arith
