-- ===== src/ComputeNode/Dispatch.antt =====
-- What a ComputeNode does with a message or a file from its remote node: receiveMessageFrom and
-- receiveFileFrom with the handlers of modules/broker/broker_compute_node.cpp. Reading a message's
-- bytes, and the answers of the task store and of a solver instance, are arguments.
pub mod Answers
pub mod Solvers
use paracooba.Prelude.{
  ℕ, Bool, true, false, not, ◌&&◌, Option, none, some, List, [], ◌∷◌, ◌++◌, map, if◌then◌else◌,
}
use paracooba.Status.{Status, ok, unknown, abort_connection, formula_received_twice_error}
use paracooba.Messages.{
  MessageKind, is_for_solver, node_description, node_status, task_result, new_remotes,
  offline_announcement, task_abort,
}
use paracooba.ComputeNode.{
  Instances, NodeStatus, find_instance, is_parsed, touch, is_below, insert_worker_count,
  Utilization,
}
use paracooba.ComputeNode.State.{
  ComputeNode, Description, Remote, StoredNode, send_known_remotes, node_utilization,
}

-- The calls to others. `called_back` is the callback of the message or the file, and
-- `assertion_failed` the end of the program.
pub data Call : Type 0 where
  called_back : Status → Call
  connected_to registered_for_parsing aborted_tasks : ℕ → Call
  solver_handled solver_added config_sent exit_requested offload_tried assertion_failed : Call
  status_sent_to_peers : (all : Bool) → Call

-- The rest of the program: `knows` is ComputeNodeStore::has, `utilization` that of this node,
-- `result_answers` the answers of the task store to a result, `originator_has_solver` whether the
-- node of the message's originator has a solver instance, and the last the answers that a solver
-- instance gives: none if it throws.
pub record Host : Type 0 where
  pub id : ℕ
  pub has_input_file : Bool
  pub auto_shutdown : Bool
  pub nodes : List StoredNode
  pub knows : ℕ → Bool
  pub utilization : Utilization
  pub result_answers : List Status
  pub originator_has_solver : Bool
  pub solver_answers : List Status

-- Reading the bytes of a message. A description is filled from its default on, and may be left
-- unfinished; `parent` is the pointer that a task's abortion is read from.
pub record Archive : Type 0 where
  pub description : List ℕ → Description × Bool
  pub status : List ℕ → Option Instances
  pub remotes : List ℕ → Option (List Remote)
  pub parent : List ℕ → ℕ

-- The node, whether it has a solver instance, and the calls so far.
pub record Receiver : Type 0 where
  pub node : ComputeNode
  pub has_solver : Bool
  pub calls : List Call

abbrev pub make_calls : List Call → Receiver → Receiver
make_calls cs p = record p { calls = p.calls ++ cs }

-- Whether an instance of the status has received its formula, as `operator[]` reads it.
unfoldable pub formula_received : ℕ → NodeStatus → Bool
unfolding find_instance
formula_received id s = elim (find_instance id s.solver_instances) [
  | none ↦ false
  | some i ↦ i.formula_received
]

-- Lines 415 to 422: a client that is no daemon gets a solver instance.
unfoldable pub add_solver : Description → Receiver → Receiver
add_solver d p =
    if not d.daemon && not p.has_solver
    then record (make_calls (solver_added ∷ []) p) { has_solver = true }
    else p

-- Lines 432 to 488: this node has a formula that the other one has not.
unfoldable pub send_config : Host → Receiver → Receiver
unfolding formula_received touch
send_config h p =
    if not h.has_input_file
    then p
    else (let q = record p { node = record p.node { status = touch h.id p.node.status } } in
        if formula_received h.id p.node.status then q else make_calls (config_sent ∷ []) q)

-- The rest of receiveMessageDescriptionFrom, once the description was read.
unfoldable pub take_description : Host → Description → Receiver → Receiver
unfolding add_solver send_config send_known_remotes insert_worker_count
take_description h d p =
    let p1 = add_solver d (make_calls (called_back ok ∷ []) p) in
    let n1 = send_known_remotes h.nodes p1.node in
    send_config h
      (record p1 { node = record n1 { status = insert_worker_count d.workers n1.status } })

-- receiveMessageDescriptionFrom, with the exception that ends it.
unfoldable pub receive_description : Host → Description × Bool → Receiver → Receiver
unfolding take_description
receive_description h (d, whole) p =
    let p1 = record p { node = record p.node { description = some d } } in
    if whole then take_description h d p1 else make_calls (called_back abort_connection ∷ []) p1

-- The instances whose formula is parsed by now and was not before.
unfoldable pub newly_parsed : Instances → NodeStatus → List Call
unfolding is_parsed
newly_parsed [] s = []
newly_parsed ((id, i) ∷ is) s =
    if not i.formula_parsed && is_parsed id s
    then registered_for_parsing id ∷ newly_parsed is s
    else newly_parsed is s

-- Lines 545 to 556: the node gets a task, or this node asks for some.
unfoldable pub balance : Host → ComputeNode → List Call
unfolding node_utilization is_below
balance h n =
    if is_below 3 2 (node_utilization n) && not (is_below 1 2 h.utilization)
    then offload_tried ∷ []
    else if is_below 1 1 h.utilization
    then status_sent_to_peers (is_below 1 2 h.utilization) ∷ []
    else []

-- receiveMessageStatusFrom, with the exception that ends it.
unfoldable pub receive_status : Host → Option Instances → Receiver → Receiver
unfolding newly_parsed balance
receive_status h none p = make_calls (called_back abort_connection ∷ []) p
receive_status h (some is) p =
    let old = p.node.status in
    let n1 = record p.node { status = record old { solver_instances = is; dirty = true } } in
    let calls = newly_parsed old.solver_instances n1.status ++ balance h n1 in
    make_calls (calls ++ called_back ok ∷ []) (record p { node = n1 })

-- The loop of receiveMessageKnownRemotesFrom.
unfoldable pub connect_all : (knows : ℕ → Bool) → List Remote → List Call
connect_all knows [] = []
connect_all knows (r ∷ rs) =
    if knows r.id
    then connect_all knows rs
    else connected_to r.connection_string ∷ connect_all knows rs

-- receiveMessageKnownRemotesFrom, with the exception that ends it.
unfoldable pub receive_known_remotes : Host → Option (List Remote) → Receiver → Receiver
unfolding connect_all
receive_known_remotes h none p = make_calls (called_back abort_connection ∷ []) p
receive_known_remotes h (some rs) p = make_calls (connect_all h.knows rs ++ called_back ok ∷ []) p

is_client : Option Description → Bool
is_client none = false
is_client (some d) = not d.daemon

-- receiveMessageOfflineAnnouncement
unfoldable pub receive_offline_announcement : Host → Receiver → Receiver
unfolding is_client
receive_offline_announcement h p =
    make_calls
      ((if h.auto_shutdown && is_client p.node.description then exit_requested ∷ [] else [])
        ++ called_back ok ∷ [])
      p

-- receiveMessageTaskAbort: the store is called with this parent.
unfoldable pub receive_task_abort : (parent : ℕ) → Receiver → Receiver
receive_task_abort parent p = make_calls (aborted_tasks parent ∷ called_back ok ∷ []) p

-- A call of a solver instance, which is asserted to be there; nothing catches what it throws.
unfoldable pub call_solver : (is_there : Bool) → List Status → List Call
call_solver is_there answers =
    if is_there then solver_handled ∷ map called_back answers else assertion_failed ∷ []

-- receiveMessageFrom
unfoldable pub receive_message_from : Archive → Host → MessageKind → List ℕ → Receiver → Receiver
unfolding receive_description receive_status receive_known_remotes receive_offline_announcement
    receive_task_abort call_solver
receive_message_from a h kind bytes p =
    if is_for_solver kind
    then make_calls (call_solver h.originator_has_solver h.solver_answers) p
    else elim kind [
      | node_description ↦ receive_description h (a.description bytes) p
      | node_status ↦ receive_status h (a.status bytes) p
      | task_result ↦ make_calls (map called_back h.result_answers) p
      | new_remotes ↦ receive_known_remotes h (a.remotes bytes) p
      | offline_announcement ↦ receive_offline_announcement h p
      | task_abort ↦ receive_task_abort (a.parent bytes) p
      | _ ↦ make_calls (called_back unknown ∷ []) p
    ]

-- receiveFileFrom: a node with an input file does nothing at all.
unfoldable pub receive_file_from : Host → (originator : ℕ) → Receiver → Receiver
unfolding formula_received touch call_solver
receive_file_from h originator p =
    if h.has_input_file
    then p
    else (let q = record p { node = record p.node { status = touch originator p.node.status } } in
        if formula_received originator p.node.status
        then make_calls (called_back formula_received_twice_error ∷ []) q
        else make_calls (call_solver p.has_solver h.solver_answers) q)
