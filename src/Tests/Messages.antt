-- ===== src/Tests/Messages.antt =====
-- The theorems on the send queue at concrete queues.
use paracooba.Prelude.{◌≡◌, refl, true, false, [], ◌∷◌, arith}
use paracooba.Messages.{task_result}
use paracooba.SendQueue.{SendQueue, Entry, message, send, pop_entry}
use paracooba.SendQueue.Register.{register}
use paracooba.SendQueue.Tick.{Limits, tick, drop_if_silent}
use paracooba.SendQueue.Ledger.{ledger, held}
use paracooba.SendQueue.Numbers.{IsNumbered}
use paracooba.SendQueue.Agreement.{register_agrees}
use paracooba.SendQueue.Timeouts.{tick-SentBy}
use paracooba.SendQueue.Reachable.{Reach, fresh, sent, popped, sent-ledger}

-- The queue of node 3 for its remote node 7, with a connection.
abbrev pub to_seven : SendQueue
to_seven = record {
  queued = [];
  waiting_for_ack = [];
  remote_id = 7;
  message_number = 0;
  acked_count = 0;
  has_remote = true;
  tracked_size = 0;
  notified = true;
  connection_string = 1;
  available = true;
  dropped = false;
  service_knows = true;
  last_heard = 0;
  events = [];
}

abbrev pub to_three : SendQueue
to_three = record to_seven { remote_id = 3 }

abbrev pub result : Entry
result = record {
  number = 0;
  kind = task_result;
  transmit_mode = message;
  body = 20;
  has_callback = true;
  sent = 0;
}

abbrev limits : Limits
limits = record { message_timeout = 1000; connection_timeout = 5000 }

register_agrees_example :
    ((register true 3 1 to_seven).0 ≡ false) × ((register false 7 1 to_three).0 ≡ false)
register_agrees_example =
    register_agrees true 3 7 1 1 to_seven to_three (λ e. omega (arith, e)) refl refl refl refl refl
      refl refl refl

-- The message was sent.
abbrev with_result : SendQueue
with_result = send true false result to_seven

abbrev is_sent : Reach (result ∷ []) with_result
is_sent = sent true result refl (omega arith) (fresh to_seven refl refl refl)

abbrev is_popped : Reach (result ∷ []) (pop_entry 12 result [] with_result)
unfolding send paracooba.SendQueue.enqueue paracooba.SendQueue.notify
    paracooba.SendQueue.count_message
is_popped = popped 12 result [] refl is_sent

sent-ledger_example :
    (ledger 20 (pop_entry 12 result [] with_result) ≡ held 20 (result ∷ []))
    × IsNumbered (pop_entry 12 result [] with_result)
sent-ledger_example = sent-ledger 20 is_popped

-- A message that was sent long ago is neither sent again nor given up.
abbrev long_ago : SendQueue
long_ago = record to_seven { waiting_for_ack = result ∷ []; last_heard = 900000 }

tick-SentBy_example : tick limits true 900000 long_ago ≡ drop_if_silent limits 900000 long_ago
tick-SentBy_example = tick-SentBy limits true 900000 long_ago (omega arith, tt)
