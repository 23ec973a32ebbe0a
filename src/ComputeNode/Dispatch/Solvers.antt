-- ===== src/ComputeNode/Dispatch/Solvers.antt =====
-- The solver instance that a client gets (modules/broker/broker_compute_node.cpp).
use paracooba.Prelude.{
  map, ℕ, ◌+◌, ◌≤◌, ◌≡◌, refl, ap, Bool, true, false, not, ◌&&◌, Option, none, some, List, [], ◌∷◌,
  ◌++◌, if◌then◌else◌, if_intro, arith,
}
use mathlib.Core.Path.{subst}
use paracooba.Status.{Status, ok, unknown, abort_connection}
use paracooba.Messages.{
  MessageKind, online_announcement, offline_announcement, announcement_request, node_status,
  node_description, new_remotes, task_reparent, task_result, task_abort, solver_description,
  solver_task, solver_sat_assignment, solver_new_learned_clause, solver_new_remote_available, file,
  ack, end, keepalive,
}
use paracooba.ComputeNode.{Instances, NodeStatus, is_parsed, is_below, insert_worker_count, touch}
use paracooba.ComputeNode.State.{
  ComputeNode, Description, Remote, node_utilization, send_known_remotes,
}
use paracooba.ComputeNode.Dispatch.{
  call_solver, assertion_failed, Call, Receiver, Host, Archive, called_back, connected_to,
  registered_for_parsing, aborted_tasks, solver_handled, solver_added, config_sent, exit_requested,
  offload_tried, status_sent_to_peers, make_calls, add_solver, send_config, take_description,
  receive_description, newly_parsed, balance, receive_status, connect_all, receive_known_remotes,
  receive_offline_announcement, receive_task_abort, receive_message_from, is_client,
  formula_received,
}

-- How many solver instances were added.
abbrev pub added : List Call → ℕ
added [] = 0
added (solver_added ∷ cs) = 1 + added cs
added (c ∷ cs) = added cs

added-append : (xs ys : List Call) → added (xs ++ ys) ≡ added xs + added ys
added-append [] ys = omega arith
added-append (solver_added ∷ xs) ys = omega (arith, added-append xs ys)
added-append (called_back s ∷ xs) ys = added-append xs ys
added-append (connected_to n ∷ xs) ys = added-append xs ys
added-append (registered_for_parsing n ∷ xs) ys = added-append xs ys
added-append (aborted_tasks n ∷ xs) ys = added-append xs ys
added-append (solver_handled ∷ xs) ys = added-append xs ys
added-append (config_sent ∷ xs) ys = added-append xs ys
added-append (exit_requested ∷ xs) ys = added-append xs ys
added-append (assertion_failed ∷ xs) ys = added-append xs ys
added-append (offload_tried ∷ xs) ys = added-append xs ys
added-append (status_sent_to_peers b ∷ xs) ys = added-append xs ys

abbrev pub one : Bool → ℕ
one true = 1
one false = 0

-- An instance that was added is there, and it is the only one.
abbrev pub IsSingle : Receiver → Type 0
IsSingle p = added p.calls ≤ one p.has_solver

None : List Call → Type 0
None cs = added cs ≡ 0

make_calls-IsSingle :
    (cs : List Call) (p q : Receiver)
    → None cs
    → q.calls ≡ p.calls
    → q.has_solver ≡ p.has_solver
    → IsSingle p
    → IsSingle (make_calls cs q)
unfolding None
make_calls-IsSingle cs p q n c s v =
    omega (arith, added-append q.calls cs, n, ap added c, ap one s, v)

parsed-None : (rest : Instances) (s : NodeStatus) → None (newly_parsed rest s)
unfolding newly_parsed None
parsed-None [] s = refl
parsed-None ((id, i) ∷ rest) s =
    if_intro None (not i.formula_parsed && is_parsed id s) _ _ (λ _. parsed-None rest s)
      (λ _. parsed-None rest s)

balance-None : (h : Host) (n : ComputeNode) → None (balance h n)
unfolding balance None
balance-None h n =
    if_intro None (is_below 3 2 (node_utilization n) && not (is_below 1 2 h.utilization)) _ _
      (λ _. refl) (λ _. if_intro None (is_below 1 1 h.utilization) _ [] (λ _. refl) (λ _. refl))

connect-None : (knows : ℕ → Bool) (rs : List Remote) → None (connect_all knows rs)
unfolding connect_all None
connect-None knows [] = refl
connect-None knows (r ∷ rs) =
    if_intro None (knows r.id) _ _ (λ _. connect-None knows rs) (λ _. connect-None knows rs)

append-None : (xs ys : List Call) → None xs → None ys → None (xs ++ ys)
unfolding None
append-None xs ys p q = omega (arith, added-append xs ys, p, q)

add_solver-IsSingle : (d : Description) (p : Receiver) → IsSingle p → IsSingle (add_solver d p)
unfolding add_solver
add_solver-IsSingle d p v =
    if_intro IsSingle (not d.daemon && not p.has_solver) _ p
      (λ h.
        let k : p.has_solver ≡ false = ground (arith, h) in
        let w : added p.calls ≤ 0 = subst (λ b. added p.calls ≤ one b) k v in
        omega (arith, added-append p.calls (solver_added ∷ []), w))
      (λ _. v)

send_config-IsSingle : (h : Host) (p : Receiver) → IsSingle p → IsSingle (send_config h p)
unfolding send_config None
send_config-IsSingle h p v =
    let q = record p { node = record p.node { status = touch h.id p.node.status } } in
    if_intro IsSingle (not h.has_input_file) p _ (λ _. v)
      (λ _.
        if_intro IsSingle (formula_received h.id p.node.status) _ _ (λ _. v)
          (λ _. make_calls-IsSingle (config_sent ∷ []) p q refl refl refl v))

description-IsSingle :
    (h : Host) (d : Description × Bool) (p : Receiver)
    → IsSingle p
    → IsSingle (receive_description h d p)
unfolding receive_description take_description None
description-IsSingle h (d, true) p v =
    let q = record p { node = record p.node { description = some d } } in
    let p0 = make_calls (called_back ok ∷ []) q in
    let p1 = add_solver d p0 in
    let n1 = send_known_remotes h.nodes p1.node in
    send_config-IsSingle h
      (record p1 { node = record n1 { status = insert_worker_count d.workers n1.status } })
      (add_solver-IsSingle d p0 (make_calls-IsSingle (called_back ok ∷ []) p q refl refl refl v))
description-IsSingle h (d, false) p v =
    let q = record p { node = record p.node { description = some d } } in
    make_calls-IsSingle (called_back abort_connection ∷ []) p q refl refl refl v

status-IsSingle :
    (h : Host) (o : Option Instances) (p : Receiver) → IsSingle p → IsSingle (receive_status h o p)
unfolding receive_status None
status-IsSingle h none p v =
    make_calls-IsSingle (called_back abort_connection ∷ []) p p refl refl refl v
status-IsSingle h (some rest) p v =
    let old = p.node.status in
    let n = record p.node { status = record old { solver_instances = rest; dirty = true } } in
    let xs = newly_parsed old.solver_instances n.status in
    let k =
      append-None (xs ++ balance h n) (called_back ok ∷ [])
        (append-None xs (balance h n) (parsed-None old.solver_instances n.status)
          (balance-None h n))
        refl in
    make_calls-IsSingle _ p (record p { node = n }) k refl refl v

remotes-IsSingle :
    (h : Host) (o : Option (List Remote)) (p : Receiver)
    → IsSingle p
    → IsSingle (receive_known_remotes h o p)
unfolding receive_known_remotes None
remotes-IsSingle h none p v =
    make_calls-IsSingle (called_back abort_connection ∷ []) p p refl refl refl v
remotes-IsSingle h (some rs) p v =
    make_calls-IsSingle _ p p
      (append-None (connect_all h.knows rs) (called_back ok ∷ []) (connect-None h.knows rs) refl)
      refl refl v

offline-IsSingle :
    (h : Host) (p : Receiver) → IsSingle p → IsSingle (receive_offline_announcement h p)
unfolding receive_offline_announcement None
offline-IsSingle h p v =
    let c = h.auto_shutdown && is_client p.node.description in
    let cs = if c then exit_requested ∷ [] else [] in
    let k : None cs = if_intro None c (exit_requested ∷ []) [] (λ _. refl) (λ _. refl) in
    make_calls-IsSingle _ p p (append-None cs (called_back ok ∷ []) k refl) refl refl v

other-IsSingle : (cs : List Call) (p : Receiver) → None cs → IsSingle p → IsSingle (make_calls cs p)
other-IsSingle cs p n v = make_calls-IsSingle cs p p n refl refl v

called-None : (ss : List Status) → None (map called_back ss)
unfolding None
called-None [] = refl
called-None (s ∷ ss) = called-None ss

solver-IsSingle :
    (h : Host) (p : Receiver)
    → IsSingle p
    → IsSingle (make_calls (call_solver h.originator_has_solver h.solver_answers) p)
unfolding call_solver None
solver-IsSingle h p v =
    other-IsSingle (call_solver h.originator_has_solver h.solver_answers) p
      (if_intro None h.originator_has_solver _ _ (λ _. called-None h.solver_answers) (λ _. refl)) v

receive-IsSingle :
    (a : Archive) (h : Host) (kind : MessageKind) (bytes : List ℕ) (p : Receiver)
    → IsSingle p
    → IsSingle (receive_message_from a h kind bytes p)
unfolding receive_message_from receive_task_abort None
receive-IsSingle a h MessageKind.unknown bytes p v =
    other-IsSingle (called_back unknown ∷ []) p refl v
receive-IsSingle a h online_announcement bytes p v =
    other-IsSingle (called_back unknown ∷ []) p refl v
receive-IsSingle a h offline_announcement bytes p v = offline-IsSingle h p v
receive-IsSingle a h announcement_request bytes p v =
    other-IsSingle (called_back unknown ∷ []) p refl v
receive-IsSingle a h node_status bytes p v = status-IsSingle h (a.status bytes) p v
receive-IsSingle a h node_description bytes p v = description-IsSingle h (a.description bytes) p v
receive-IsSingle a h new_remotes bytes p v = remotes-IsSingle h (a.remotes bytes) p v
receive-IsSingle a h task_reparent bytes p v = other-IsSingle (called_back unknown ∷ []) p refl v
receive-IsSingle a h task_result bytes p v =
    other-IsSingle (map called_back h.result_answers) p (called-None h.result_answers) v
receive-IsSingle a h task_abort bytes p v =
    other-IsSingle (aborted_tasks (a.parent bytes) ∷ called_back ok ∷ []) p refl v
receive-IsSingle a h solver_description bytes p v = solver-IsSingle h p v
receive-IsSingle a h solver_task bytes p v = solver-IsSingle h p v
receive-IsSingle a h solver_sat_assignment bytes p v = solver-IsSingle h p v
receive-IsSingle a h solver_new_learned_clause bytes p v = solver-IsSingle h p v
receive-IsSingle a h solver_new_remote_available bytes p v =
    other-IsSingle (called_back unknown ∷ []) p refl v
receive-IsSingle a h file bytes p v = other-IsSingle (called_back unknown ∷ []) p refl v
receive-IsSingle a h ack bytes p v = other-IsSingle (called_back unknown ∷ []) p refl v
receive-IsSingle a h end bytes p v = other-IsSingle (called_back unknown ∷ []) p refl v
receive-IsSingle a h keepalive bytes p v = other-IsSingle (called_back unknown ∷ []) p refl v

-- Messages one after the other, each with the rest of the program as it is then.
unfoldable pub receive_all : Archive → List (Host × MessageKind × List ℕ) → Receiver → Receiver
unfolding receive_message_from
receive_all a [] p = p
receive_all a ((h, kind, bytes) ∷ ms) p = receive_all a ms (receive_message_from a h kind bytes p)

-- However many messages of whatever kinds and contents come from a remote node, whatever the rest
-- of the program does in between: if at first no more solver instances were added for it than it
-- has, then this is so afterwards, and never more than one is added.
pub receive_all-IsSingle :
    (a : Archive) (ms : List (Host × MessageKind × List ℕ)) (p : Receiver)
    → IsSingle p
    → IsSingle (receive_all a ms p)
unfolding receive_all
receive_all-IsSingle a [] p v = v
receive_all-IsSingle a ((h, kind, bytes) ∷ ms) p v =
    receive_all-IsSingle a ms (receive_message_from a h kind bytes p)
      (receive-IsSingle a h kind bytes p v)
