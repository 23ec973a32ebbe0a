-- ===== src/Status.antt =====
-- include/paracooba/common/status.h: the status and result codes that all parts exchange.
use paracooba.Prelude.{Bool, true, false}

pub data Status : Type 0 where
  ok auto_shutdown_triggered full pending undefined sat unsat unknown aborted splitted : Status
  no_splits_left abort_connection to_be_deleted connection_closed : Status
  no_connection_established_error message_timeout_error out_of_memory : Status
  invalid_char_encountered invalid_ip invalid_path_error compute_node_not_found_error : Status
  path_not_found_error parse_error premature_exit formula_received_twice_error : Status
  file_not_found_error connection_already_established_error bind_error : Status
  solver_already_configured_error generic_error : Status

unfoldable pub Status-discrete : Discrete Status
Status-discrete = hlevel

infix 50 ◌is◌
-- The comparison `a == b` of two codes.
abbrev pub ◌is◌ : Status → Status → Bool
a is b = elim (Status-discrete a b) [ yes _ ↦ true | no _ ↦ false ]
