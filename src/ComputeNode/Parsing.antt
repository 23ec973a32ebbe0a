-- ===== src/ComputeNode/Parsing.antt =====
-- Callbacks that wait for a formula to be parsed: the thread of formulaParsed and that of
-- runCBAfterParsingOfFormulaIsDone in modules/broker/broker_compute_node.cpp. Each block under a
-- lock is one step, and the steps of the two threads interleave in any order.
pub mod Called
pub mod Schedule
use paracooba.Prelude.{ℕ, List, [], ◌∷◌, ◌++◌, if◌then◌else◌}
use paracooba.Store.State.{update}
use paracooba.ComputeNode.{NodeStatus, is_parsed, mark_parsed}

-- Where the thread of runCBAfterParsingOfFormulaIsDone is.
pub data Waiter : Type 0 where
  at_first_check at_registration at_second_check returned : Waiter

-- Where the thread of formulaParsed is.
pub data Parser : Type 0 where
  at_mark at_callbacks finished : Parser

-- `callbacks` is the map m_cbAfterParsingIsDone, a callback being a number, and `called` are those
-- called so far.
pub record Threads : Type 0 where
  pub status : NodeStatus
  pub callbacks : ℕ → List ℕ
  pub called : List ℕ
  pub waiter : Waiter
  pub parser : Parser

call : ℕ → Threads → Threads
call cb s = record s { called = s.called ++ cb ∷ []; waiter = returned }

-- The next step of runCBAfterParsingOfFormulaIsDone(cb, id).
unfoldable pub waiter_step : ℕ → ℕ → Waiter → Threads → Threads
unfolding is_parsed call
waiter_step id cb at_first_check s =
    if is_parsed id s.status then call cb s else record s { waiter = at_registration }
waiter_step id cb at_registration s = record s {
  callbacks = update s.callbacks id (s.callbacks id ++ cb ∷ []);
  waiter = at_second_check;
}
waiter_step id cb at_second_check s =
    if is_parsed id s.status then call cb s else record s { waiter = returned }
waiter_step id cb returned s = s

-- The next step of formulaParsed(id).
unfoldable pub parser_step : ℕ → Parser → Threads → Threads
unfolding mark_parsed
parser_step id at_mark s = record s { status = mark_parsed id s.status; parser = at_callbacks }
parser_step id at_callbacks s = record s {
  called = s.called ++ s.callbacks id;
  callbacks = update s.callbacks id [];
  parser = finished;
}
parser_step id finished s = s

-- Who takes the next step.
pub data Turn : Type 0 where
  wait parse : Turn

unfoldable pub run : ℕ → ℕ → List Turn → Threads → Threads
unfolding waiter_step parser_step
run id cb [] s = s
run id cb (wait ∷ ts) s = run id cb ts (waiter_step id cb s.waiter s)
run id cb (parse ∷ ts) s = run id cb ts (parser_step id s.parser s)
