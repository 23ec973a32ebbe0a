-- ===== src/ComputeNode/Dispatch/Answers.antt =====
-- Each message is answered (modules/broker/broker_compute_node.cpp).
use paracooba.Prelude.{
  ℕ, ◌≡◌, refl, ap, ◌∙◌, Bool, true, false, not, ◌&&◌, ◌||◌, arith, Option, none, some, List, [],
  ◌∷◌, ◌++◌, append-nil, if◌then◌else◌, if_intro,
}
use paracooba.Status.{Status, ◌is◌, ok, unknown, abort_connection}
use paracooba.Messages.{
  MessageKind, is_for_solver, online_announcement, offline_announcement, announcement_request,
  node_status, node_description, new_remotes, task_reparent, task_result, task_abort,
  solver_description, solver_task, solver_sat_assignment, solver_new_learned_clause,
  solver_new_remote_available, file, ack, end, keepalive,
}
use paracooba.ComputeNode.{Instances, NodeStatus, is_parsed, is_below, insert_worker_count}
use paracooba.ComputeNode.State.{
  ComputeNode, Description, Remote, node_utilization, send_known_remotes,
}
use paracooba.ComputeNode.Dispatch.{
  Call, Receiver, Host, Archive, called_back, connected_to, registered_for_parsing, aborted_tasks,
  solver_handled, solver_added, assertion_failed, config_sent, exit_requested, offload_tried,
  status_sent_to_peers, make_calls, add_solver, send_config, take_description, receive_description,
  newly_parsed, balance, receive_status, connect_all, receive_known_remotes,
  receive_offline_announcement, receive_task_abort, receive_message_from, is_client,
  formula_received,
}

-- The answers among the calls.
abbrev pub answers : List Call → List Status
answers [] = []
answers (called_back s ∷ cs) = s ∷ answers cs
answers (c ∷ cs) = answers cs

answers-append : (xs ys : List Call) → answers (xs ++ ys) ≡ answers xs ++ answers ys
answers-append [] ys = refl
answers-append (called_back s ∷ xs) ys = ap (λ zs. s ∷ zs) (answers-append xs ys)
answers-append (connected_to n ∷ xs) ys = answers-append xs ys
answers-append (registered_for_parsing n ∷ xs) ys = answers-append xs ys
answers-append (aborted_tasks n ∷ xs) ys = answers-append xs ys
answers-append (solver_handled ∷ xs) ys = answers-append xs ys
answers-append (solver_added ∷ xs) ys = answers-append xs ys
answers-append (config_sent ∷ xs) ys = answers-append xs ys
answers-append (exit_requested ∷ xs) ys = answers-append xs ys
answers-append (assertion_failed ∷ xs) ys = answers-append xs ys
answers-append (offload_tried ∷ xs) ys = answers-append xs ys
answers-append (status_sent_to_peers b ∷ xs) ys = answers-append xs ys

-- From p to t this is answered.
pub Answer : List Status → (p t : Receiver) → Type 0
Answer ss p t = answers t.calls ≡ answers p.calls ++ ss

Answer-make_calls :
    (ss : List Status) (cs : List Call) (p q : Receiver)
    → answers cs ≡ ss
    → q.calls ≡ p.calls
    → Answer ss p (make_calls cs q)
unfolding Answer
Answer-make_calls ss cs p q h e =
    answers-append q.calls cs
    ∙ ap (λ xs. answers xs ++ answers cs) e
    ∙ ap (λ xs. answers p.calls ++ xs) h

abbrev pub is_none {ℓ} : {A : Type ℓ} → Option A → Bool
is_none none = true
is_none (some a) = false

-- A message whose bytes cannot be read.
abbrev pub is_unreadable : Archive → MessageKind → List ℕ → Bool
is_unreadable a node_description bytes = not (a.description bytes).1
is_unreadable a node_status bytes = is_none (a.status bytes)
is_unreadable a new_remotes bytes = is_none (a.remotes bytes)
is_unreadable a _ bytes = false

Quiet : List Call → Type 0
Quiet cs = answers cs ≡ []

append-Quiet : (xs ys : List Call) → Quiet xs → Quiet ys → Quiet (xs ++ ys)
unfolding Quiet
append-Quiet xs ys p q = answers-append xs ys ∙ ap (λ zs. zs ++ answers ys) p ∙ q

parsed-Quiet : (rest : Instances) (s : NodeStatus) → Quiet (newly_parsed rest s)
unfolding newly_parsed Quiet
parsed-Quiet [] s = refl
parsed-Quiet ((id, i) ∷ rest) s =
    if_intro Quiet (not i.formula_parsed && is_parsed id s) _ _ (λ _. parsed-Quiet rest s)
      (λ _. parsed-Quiet rest s)

balance-Quiet : (h : Host) (n : ComputeNode) → Quiet (balance h n)
unfolding balance Quiet
balance-Quiet h n =
    if_intro Quiet (is_below 3 2 (node_utilization n) && not (is_below 1 2 h.utilization)) _ _
      (λ _. refl) (λ _. if_intro Quiet (is_below 1 1 h.utilization) _ [] (λ _. refl) (λ _. refl))

connect-Quiet : (knows : ℕ → Bool) (rs : List Remote) → Quiet (connect_all knows rs)
unfolding connect_all Quiet
connect-Quiet knows [] = refl
connect-Quiet knows (r ∷ rs) =
    if_intro Quiet (knows r.id) _ _ (λ _. connect-Quiet knows rs) (λ _. connect-Quiet knows rs)

then-Quiet : (cs : List Call) (s : Status) → Quiet cs → answers (cs ++ called_back s ∷ []) ≡ s ∷ []
unfolding Quiet
then-Quiet cs s q = answers-append cs (called_back s ∷ []) ∙ ap (λ xs. xs ++ s ∷ []) q

-- The two parts of a description's handler that call others.
SameAnswers : (p q : Receiver) → Type 0
SameAnswers p q = answers q.calls ≡ answers p.calls

add_solver-SameAnswers : (d : Description) (p : Receiver) → SameAnswers p (add_solver d p)
unfolding add_solver SameAnswers
add_solver-SameAnswers d p =
    if_intro (SameAnswers p) (not d.daemon && not p.has_solver) _ p
      (λ _. answers-append p.calls (solver_added ∷ []) ∙ append-nil (answers p.calls)) (λ _. refl)

send_config-SameAnswers : (h : Host) (p : Receiver) → SameAnswers p (send_config h p)
unfolding send_config SameAnswers
send_config-SameAnswers h p =
    if_intro (SameAnswers p) (not h.has_input_file) p _ (λ _. refl)
      (λ _.
        if_intro (SameAnswers p) (formula_received h.id p.node.status) _ _ (λ _. refl)
          (λ _. answers-append p.calls (config_sent ∷ []) ∙ append-nil (answers p.calls)))

take_description-Answer :
    (h : Host) (d : Description) (p : Receiver) → Answer (ok ∷ []) p (take_description h d p)
unfolding take_description Answer SameAnswers
take_description-Answer h d p =
    let p0 = make_calls (called_back ok ∷ []) p in
    let p1 = add_solver d p0 in
    let n1 = send_known_remotes h.nodes p1.node in
    let p2 = record p1 { node = record n1 { status = insert_worker_count d.workers n1.status } } in
    send_config-SameAnswers h p2
    ∙ add_solver-SameAnswers d p0
    ∙ Answer-make_calls (ok ∷ []) (called_back ok ∷ []) p p refl refl

-- One answer, which aborts the connection exactly if the bytes cannot be read.
pub Replies : (unreadable : Bool) → (p t : Receiver) → Type 0
Replies unreadable p t = (s : Status) × Answer (s ∷ []) p t × ((s is abort_connection) ≡ unreadable)

description-Replies :
    (h : Host) (d : Description × Bool) (p : Receiver)
    → Replies (not d.1) p (receive_description h d p)
unfolding receive_description Replies Answer paracooba.Status.Status-discrete
description-Replies h (d, true) p =
    let q = record p { node = record p.node { description = some d } } in
    (ok, take_description-Answer h d q, refl)
description-Replies h (d, false) p =
    let q = record p { node = record p.node { description = some d } } in
    (abort_connection, Answer-make_calls _ (called_back abort_connection ∷ []) p q refl refl, refl)

status-Replies :
    (h : Host) (o : Option Instances) (p : Receiver) → Replies (is_none o) p (receive_status h o p)
unfolding receive_status Replies paracooba.Status.Status-discrete
status-Replies h none p =
    (abort_connection, Answer-make_calls _ (called_back abort_connection ∷ []) p _ refl refl, refl)
status-Replies h (some rest) p =
    let old = p.node.status in
    let n = record p.node { status = record old { solver_instances = rest; dirty = true } } in
    let cs = newly_parsed old.solver_instances n.status ++ balance h n in
    let q : Quiet cs =
      append-Quiet (newly_parsed old.solver_instances n.status) (balance h n)
        (parsed-Quiet old.solver_instances n.status) (balance-Quiet h n) in
    (
      ok,
      Answer-make_calls (ok ∷ []) (cs ++ called_back ok ∷ []) p (record p { node = n })
          (then-Quiet cs ok q) refl,
      refl,
    )

remotes-Replies :
    (h : Host) (o : Option (List Remote)) (p : Receiver)
    → Replies (is_none o) p (receive_known_remotes h o p)
unfolding receive_known_remotes Replies paracooba.Status.Status-discrete
remotes-Replies h none p =
    (abort_connection, Answer-make_calls _ (called_back abort_connection ∷ []) p _ refl refl, refl)
remotes-Replies h (some rs) p =
    let cs = connect_all h.knows rs in
    (
      ok,
      Answer-make_calls (ok ∷ []) (cs ++ called_back ok ∷ []) p p
          (then-Quiet cs ok (connect-Quiet h.knows rs)) refl,
      refl,
    )

unknown-Replies : (p : Receiver) → Replies false p (make_calls (called_back unknown ∷ []) p)
unfolding Replies paracooba.Status.Status-discrete
unknown-Replies p = (unknown, Answer-make_calls _ (called_back unknown ∷ []) p p refl refl, refl)

offline-Replies : (h : Host) (p : Receiver) → Replies false p (receive_offline_announcement h p)
unfolding receive_offline_announcement Replies Quiet paracooba.Status.Status-discrete
offline-Replies h p =
    let c = h.auto_shutdown && is_client p.node.description in
    let cs = if c then exit_requested ∷ [] else [] in
    let q : Quiet cs = if_intro Quiet c (exit_requested ∷ []) [] (λ _. refl) (λ _. refl) in
    (
      ok,
      Answer-make_calls (ok ∷ []) (cs ++ called_back ok ∷ []) p p (then-Quiet cs ok q) refl,
      refl,
    )

abbrev is_result : MessageKind → Bool
is_result task_result = true
is_result _ = false

-- The messages that are for others: for the solver instances, or for the task store.
abbrev pub is_for_others : MessageKind → Bool
is_for_others kind = is_for_solver kind || is_result kind

-- Each message of any content is answered exactly once by the compute node that receives it, and
-- the answer aborts the connection exactly if the message is a description, a status or a list of
-- remote nodes that cannot be read; except for the results of tasks, which the task store
-- answers, and for the kinds that go to a solver instance.
pub receive_message_from-Replies :
    (a : Archive) (h : Host) (kind : MessageKind) (bytes : List ℕ) (p : Receiver)
    → is_for_others kind ≡ false
    → Replies (is_unreadable a kind bytes) p (receive_message_from a h kind bytes p)
unfolding receive_message_from receive_task_abort Replies paracooba.Status.Status-discrete
receive_message_from-Replies a h MessageKind.unknown bytes p v = unknown-Replies p
receive_message_from-Replies a h online_announcement bytes p v = unknown-Replies p
receive_message_from-Replies a h offline_announcement bytes p v = offline-Replies h p
receive_message_from-Replies a h announcement_request bytes p v = unknown-Replies p
receive_message_from-Replies a h node_status bytes p v = status-Replies h (a.status bytes) p
receive_message_from-Replies a h node_description bytes p v =
    description-Replies h (a.description bytes) p
receive_message_from-Replies a h new_remotes bytes p v = remotes-Replies h (a.remotes bytes) p
receive_message_from-Replies a h task_reparent bytes p v = unknown-Replies p
receive_message_from-Replies a h task_result bytes p v = absurd (ground arith)
receive_message_from-Replies a h task_abort bytes p v = (
  ok,
  Answer-make_calls _ (aborted_tasks (a.parent bytes) ∷ called_back ok ∷ []) p p refl refl,
  refl,
)
receive_message_from-Replies a h solver_description bytes p v = absurd (ground arith)
receive_message_from-Replies a h solver_task bytes p v = absurd (ground arith)
receive_message_from-Replies a h solver_sat_assignment bytes p v = absurd (ground arith)
receive_message_from-Replies a h solver_new_learned_clause bytes p v = absurd (ground arith)
receive_message_from-Replies a h solver_new_remote_available bytes p v = unknown-Replies p
receive_message_from-Replies a h file bytes p v = unknown-Replies p
receive_message_from-Replies a h ack bytes p v = unknown-Replies p
receive_message_from-Replies a h end bytes p v = unknown-Replies p
receive_message_from-Replies a h keepalive bytes p v = unknown-Replies p
