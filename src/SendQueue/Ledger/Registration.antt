-- ===== src/SendQueue/Ledger/Registration.antt =====
-- A registration leaves the entries alone (modules/communicator/message_send_queue.cpp).
use paracooba.Prelude.{ℕ, refl, Bool, true, false, not, ◌&&◌, [], ◌∷◌, ltb, if_intro}
use paracooba.SendQueue.{SendQueue, killed_connection, counter_added, node_created}
use paracooba.SendQueue.Register.{
  register, resolve, resolved, tell_service, provide_node, refused, overtakes, Conflict, accept,
  tell_service, provide_node,
}
use paracooba.SendQueue.Ledger.{Keeps, emit-Keeps, Keeps-refl}

tell_service-Keeps :
    (b : ℕ) (o : Bool) (q r : SendQueue) → Keeps b q r → Keeps b q (tell_service o r)
unfolding tell_service
tell_service-Keeps b o q r k =
    if_intro (Keeps b q) (ltb 0 r.tracked_size && not o && not r.service_knows) _ r
      (λ _.
        emit-Keeps b (counter_added r.tracked_size ∷ []) q (record r { service_knows = true }) refl
          (record {
            queued = k.queued;
            waiting = k.waiting;
            numbers = k.numbers;
            account = k.account;
          }))
      (λ _. k)

provide_node-Keeps : (b : ℕ) (q r : SendQueue) → Keeps b q r → Keeps b q (provide_node r)
unfolding provide_node
provide_node-Keeps b q r k =
    if_intro (Keeps b q) r.has_remote r _ (λ _. k)
      (λ _.
        emit-Keeps b (node_created ∷ []) q (record r { has_remote = true }) refl
          (record {
            queued = k.queued;
            waiting = k.waiting;
            numbers = k.numbers;
            account = k.account;
          }))

accept-Keeps : (b : ℕ) (o : Bool) (s : ℕ) (q r : SendQueue) → Keeps b q r → Keeps b q (accept o s r)
unfolding accept
accept-Keeps b o s q r k =
    let r1 = record r { notified = true; available = true; connection_string = s } in
    provide_node-Keeps b q (tell_service o r1) (
      tell_service-Keeps b o q r1 (record {
        queued = k.queued;
        waiting = k.waiting;
        numbers = k.numbers;
        account = k.account;
      }))

resolved-Keeps : (b : ℕ) (c : Conflict) (s : ℕ) (q : SendQueue) → Keeps b q (resolved c s q).1
unfolding resolved
resolved-Keeps b refused s q = Keeps-refl b q
resolved-Keeps b overtakes s q =
    accept-Keeps b true s q _ (emit-Keeps b (killed_connection ∷ []) q q refl (Keeps-refl b q))

pub register-Keeps :
    (b : ℕ) (initiator : Bool) (own s : ℕ) (q : SendQueue)
    → Keeps b q (register initiator own s q).1
unfolding register
register-Keeps b initiator own s q =
    let P = λ (r : Bool × SendQueue). Keeps b q r.1 in
    if_intro P q.dropped _ _ (λ _. Keeps-refl b q)
      (λ _.
        if_intro P q.notified _ _
          (λ _. resolved-Keeps b (resolve initiator (ltb q.remote_id own) q.acked_count) s q)
          (λ _. accept-Keeps b false s q q (Keeps-refl b q)))
