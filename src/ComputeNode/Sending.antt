-- ===== src/ComputeNode/Sending.antt =====
-- What a remote node is told (modules/broker/broker_compute_node.cpp): this node's status, and the
-- other remote nodes.
use paracooba.Prelude.{
  ◌≡◌, refl, sym, ap, ◌∙◌, Bool, true, false, not, Option, none, some, List, [], ◌∷◌, ◌++◌,
  if_intro, arith, append_assoc, append-nil,
}
use paracooba.Task.{Ptr}
use paracooba.ComputeNode.{Instances, NodeStatus, is_diff_worthwhile, work_queue_size, assign, copy}
use paracooba.ComputeNode.Equality.{same_instances-equal}
use paracooba.ComputeNode.State.{
  ComputeNode, Message, node_status, new_remotes, task_offered, Remote, is_news, remember,
  conditionally_send_status_to, send_again, status_sent, do_notify_of_new_remotes, remotes_sent,
  notify_of_new_remote, send_message, send_known_remotes, known_remotes, StoredNode, add_remotes,
}

-- The remote nodes and the last status in the messages, in their order.
abbrev pub sent_remotes : List Message → List Remote
sent_remotes [] = []
sent_remotes (new_remotes rs ∷ ms) = rs ++ sent_remotes ms
sent_remotes (m ∷ ms) = sent_remotes ms

abbrev pub last_status : Option Instances → List Message → Option Instances
last_status o [] = o
last_status o (node_status is ∷ ms) = last_status (some is) ms
last_status o (m ∷ ms) = last_status o ms

abbrev pub instances_of : Option NodeStatus → Option Instances
instances_of none = none
instances_of (some s) = some s.solver_instances

sent_remotes-append :
    (xs ys : List Message) → sent_remotes (xs ++ ys) ≡ sent_remotes xs ++ sent_remotes ys
sent_remotes-append [] ys = refl
sent_remotes-append (new_remotes rs ∷ xs) ys =
    ap (λ zs. rs ++ zs) (sent_remotes-append xs ys)
    ∙ sym (append_assoc rs (sent_remotes xs) (sent_remotes ys))
sent_remotes-append (node_status is ∷ xs) ys = sent_remotes-append xs ys
sent_remotes-append (task_offered p ∷ xs) ys = sent_remotes-append xs ys

last_status-append :
    (o : Option Instances) (xs ys : List Message)
    → last_status o (xs ++ ys) ≡ last_status (last_status o xs) ys
last_status-append o [] ys = refl
last_status-append o (new_remotes rs ∷ xs) ys = last_status-append o xs ys
last_status-append o (node_status is ∷ xs) ys = last_status-append (some is) xs ys
last_status-append o (task_offered p ∷ xs) ys = last_status-append o xs ys

-- What was sent agrees with what the node remembers: rs are the remote nodes to tell of.
pub record Agrees (rs : List Remote) (n : ComputeNode) : Type 0 where
  pub remotes : sent_remotes n.messages ++ n.new_remotes_to_notify_about ≡ rs
  pub status : last_status none n.messages ≡ instances_of n.remotely_known_local_status

-- A node under any number of its sending operations; rs are the remote nodes to tell it of.
pub data Reach : List Remote → ComputeNode → Type 0 where
  created :
      (n : ComputeNode)
      → n.messages ≡ []
      → n.new_remotes_to_notify_about ≡ []
      → n.remotely_known_local_status ≡ none
      → Reach [] n
  updated :
      {rs : List Remote} {n : ComputeNode} (available : Bool) (s : NodeStatus)
      → Reach rs n
      → Reach rs (conditionally_send_status_to available s n)
  update_ended :
      {rs : List Remote} {n : ComputeNode} (available : Bool) (local : NodeStatus)
      → Reach rs n
      → Reach rs (status_sent available local n)
  notified :
      {rs : List Remote} {n : ComputeNode} (r : Remote)
      → Reach rs n
      → Reach (rs ++ r ∷ []) (notify_of_new_remote r n)
  described :
      {rs : List Remote} {n : ComputeNode} (ms : List StoredNode)
      → Reach rs n
      → Reach (rs ++ known_remotes n.id ms) (send_known_remotes ms n)
  notice_ended : {rs : List Remote} {n : ComputeNode} → Reach rs n → Reach rs (remotes_sent n)
  offered :
      {rs : List Remote} {n : ComputeNode} (p : Ptr)
      → Reach rs n
      → Reach rs (send_message (task_offered p) n)

flag-Agrees :
    (rs : List Remote) (b : Bool) (n : ComputeNode)
    → Agrees rs n
    → Agrees rs (record n { sending_status_to = b })
flag-Agrees rs b n a = record { remotes = a.remotes; status = a.status }

remember-instances :
    (s : NodeStatus) (o : Option NodeStatus) → (remember s o).solver_instances ≡ s.solver_instances
unfolding remember copy assign work_queue_size
remember-instances s none = refl
remember-instances s (some known) = refl

updated-Agrees :
    (rs : List Remote) (available : Bool) (s : NodeStatus) (n : ComputeNode)
    → Agrees rs n
    → Agrees rs (conditionally_send_status_to available s n)
unfolding conditionally_send_status_to
updated-Agrees rs available s n a =
    let o = n.remotely_known_local_status in
    if_intro (Agrees rs) (not available) n _ (λ _. a)
      (λ _.
        if_intro (Agrees rs) n.sending_status_to n _ (λ _. a)
          (λ _.
            if_intro (Agrees rs) (is_news s o) _ _
              (λ _. record {
                remotes =
                    ap (λ xs. xs ++ n.new_remotes_to_notify_about)
                      (sent_remotes-append n.messages (node_status s.solver_instances ∷ [])
                        ∙ append-nil (sent_remotes n.messages))
                    ∙ a.remotes;
                status =
                    last_status-append none n.messages (node_status s.solver_instances ∷ [])
                    ∙ ap some (sym (remember-instances s o));
              })
              (λ _. flag-Agrees rs false n a)))

send_again-Agrees :
    (rs : List Remote) (available : Bool) (local : NodeStatus) (o : Option NodeStatus)
    (n : ComputeNode)
    → Agrees rs n
    → Agrees rs (send_again available local o n)
unfolding send_again
send_again-Agrees rs available local none n a = flag-Agrees rs false n a
send_again-Agrees rs available local (some known) n a =
    let n1 = record n { sending_status_to = false } in
    let a1 = flag-Agrees rs false n a in
    if_intro (Agrees rs) (is_diff_worthwhile known local) _ n1
      (λ _. updated-Agrees rs available local n1 a1) (λ _. a1)

notify-Agrees :
    (rs more : List Remote) (n : ComputeNode)
    → Agrees rs n
    → Agrees (rs ++ more) (do_notify_of_new_remotes (add_remotes more n))
unfolding do_notify_of_new_remotes
notify-Agrees rs more n a =
    let pending = n.new_remotes_to_notify_about in
    let both =
      sym (append_assoc (sent_remotes n.messages) pending more) ∙ ap (λ xs. xs ++ more) a.remotes in
    if_intro (Agrees (rs ++ more)) n.sending_known_remotes _ _
      (λ _. record { remotes = both; status = a.status })
      (λ _. record {
        remotes =
            append-nil _
            ∙ sent_remotes-append n.messages (new_remotes (pending ++ more) ∷ [])
            ∙ ap (λ xs. sent_remotes n.messages ++ xs) (append-nil (pending ++ more))
            ∙ both;
        status = last_status-append none n.messages (new_remotes (pending ++ more) ∷ []) ∙ a.status;
      })

-- After any sequence of sending operations, the remote nodes in the messages followed by those
-- that are pending are those to tell of, each as often and in the same order, and the remembered
-- status is the last one sent.
pub Reach-Agrees : {rs : List Remote} {n : ComputeNode} → Reach rs n → Agrees rs n
unfolding notify_of_new_remote send_known_remotes remotes_sent status_sent
Reach-Agrees (created n m r k) = record { remotes = rw (m, r) refl; status = rw (m, k) refl }
Reach-Agrees (updated {rs} {n} available s h) = updated-Agrees rs available s n (Reach-Agrees h)
Reach-Agrees (update_ended {rs} {n} available s h) =
    send_again-Agrees rs available s n.remotely_known_local_status n (Reach-Agrees h)
Reach-Agrees (notified {rs} {n} r h) = notify-Agrees rs (r ∷ []) n (Reach-Agrees h)
Reach-Agrees (described {rs} {n} ms h) = notify-Agrees rs (known_remotes n.id ms) n (Reach-Agrees h)
Reach-Agrees (notice_ended h) =
    let a = Reach-Agrees h in record { remotes = a.remotes; status = a.status }
Reach-Agrees (offered {rs} {n} p h) =
    let a = Reach-Agrees h in
    record {
      remotes =
          ap (λ xs. xs ++ n.new_remotes_to_notify_about)
            (sent_remotes-append n.messages (task_offered p ∷ [])
              ∙ append-nil (sent_remotes n.messages))
          ∙ a.remotes;
      status = last_status-append none n.messages (task_offered p ∷ []) ∙ a.status;
    }

known-current :
    (s : NodeStatus) (o : Option NodeStatus)
    → is_news s o ≡ false
    → instances_of o ≡ some s.solver_instances
unfolding is_news is_diff_worthwhile
known-current s none h = cc
known-current s (some known) h =
    ap some (same_instances-equal known.solver_instances s.solver_instances (ground arith))

updated-current :
    (s : NodeStatus) (n : ComputeNode)
    → n.sending_status_to ≡ false
    → instances_of (conditionally_send_status_to true s n).remotely_known_local_status
      ≡ some s.solver_instances
unfolding conditionally_send_status_to
updated-current s n h =
    let P =
      λ (m : ComputeNode). instances_of m.remotely_known_local_status ≡ some s.solver_instances in
    let o = n.remotely_known_local_status in
    if_intro P n.sending_status_to n _ (λ t. cc)
      (λ _.
        if_intro P (is_news s o) _ _ (λ _. ap some (remember-instances s o))
          (λ f. known-current s o f))

send_again-current :
    (local : NodeStatus) (known : NodeStatus) (n : ComputeNode)
    → n.remotely_known_local_status ≡ some known
    → instances_of (send_again true local (some known) n).remotely_known_local_status
      ≡ some local.solver_instances
unfolding send_again is_news
send_again-current local known n e =
    let P = λ (m : ComputeNode).
      instances_of m.remotely_known_local_status ≡ some local.solver_instances in
    let n1 = record n { sending_status_to = false } in
    if_intro P (is_diff_worthwhile known local) _ n1 (λ _. updated-current local n1 refl)
      (λ f. ap instances_of e ∙ known-current local (some known) f)

-- When a status message to an available node ends, after any sequence of sending operations in
-- which a status was sent, the last status among the messages to that node is the status that
-- this node has then.
pub status_sent-current :
    {rs : List Remote} {n : ComputeNode} (local known : NodeStatus)
    → Reach rs n
    → n.remotely_known_local_status ≡ some known
    → last_status none (status_sent true local n).messages ≡ some local.solver_instances
unfolding status_sent
status_sent-current {rs} {n} local known h e =
    (Reach-Agrees (update_ended true local h)).status
    ∙ ap (λ o. instances_of (send_again true local o n).remotely_known_local_status) e
    ∙ send_again-current local known n e
