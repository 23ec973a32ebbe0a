-- ===== src/Messages.antt =====
-- include/paracooba/common/message_kind.h and modules/commonc/message_kind.c: the kinds of messages
-- that nodes exchange.
use paracooba.Prelude.{Bool, true, false}

pub data MessageKind : Type 0 where
  unknown online_announcement offline_announcement announcement_request : MessageKind
  node_status node_description new_remotes task_reparent task_result task_abort : MessageKind
  solver_description solver_task solver_sat_assignment solver_new_learned_clause : MessageKind
  solver_new_remote_available file ack end keepalive : MessageKind

-- parac_message_kind_is_for_solver
abbrev pub is_for_solver : MessageKind → Bool
is_for_solver solver_task = true
is_for_solver solver_description = true
is_for_solver solver_sat_assignment = true
is_for_solver solver_new_learned_clause = true
is_for_solver _ = false

-- parac_message_kind_is_count_tracked
abbrev pub is_count_tracked : MessageKind → Bool
is_count_tracked keepalive = false
is_count_tracked ack = false
is_count_tracked _ = true

-- parac_message_kind_is_waiting_for_ack
abbrev pub is_waiting_for_ack : MessageKind → Bool
is_waiting_for_ack keepalive = false
is_waiting_for_ack ack = false
is_waiting_for_ack end = false
is_waiting_for_ack _ = true

-- kind == PARAC_MESSAGE_ACK
abbrev pub is_ack : MessageKind → Bool
is_ack ack = true
is_ack _ = false

-- The kinds that the connections tell apart.
abbrev pub is_file : MessageKind → Bool
is_file file = true
is_file _ = false

abbrev pub is_end : MessageKind → Bool
is_end end = true
is_end _ = false

abbrev pub is_keepalive : MessageKind → Bool
is_keepalive keepalive = true
is_keepalive _ = false
