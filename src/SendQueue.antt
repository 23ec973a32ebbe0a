-- ===== src/SendQueue.antt =====
-- The class MessageSendQueue of modules/communicator/message_send_queue.cpp: what is sent to one
-- remote node, and what waits for an acknowledgement. The answer of the registered notification
-- function, and the time, are arguments.
pub mod Register
pub mod Tick
pub mod Agreement
pub mod Ledger
pub mod Numbers
pub mod Timeouts
pub mod Reachable
use paracooba.Prelude.{
  ℕ, ◌+◌, ◌%◌, ◌^◌, Bool, false, not, ◌&&◌, Option, none, some, List, [], ◌∷◌, ◌++◌, ◌==◌, ltb,
  if◌then◌else◌,
}
use paracooba.Status.{Status, to_be_deleted, connection_closed}
use paracooba.Messages.{MessageKind, is_ack, is_count_tracked, is_waiting_for_ack}
use paracooba.Store.State.{succ64, pred64}

-- TransmitMode
pub data TransmitMode : Type 0 where
  init message file ack end : TransmitMode

-- MessageSendQueue::Entry. `body` stands for the value, and `has_callback` for `cb != nullptr`.
pub record Entry : Type 0 where
  pub number : ℕ
  pub kind : MessageKind
  pub transmit_mode : TransmitMode
  pub body : ℕ
  pub has_callback : Bool
  pub sent : ℕ

-- The calls to others: of an entry's callback, of the notification function, to the service's
-- counter of outgoing messages, and to the compute node store.
pub data Event : Type 0 where
  called_back : Entry → Status → Event
  notified_available killed_connection connection_dropped node_created : Event
  counter_added counter_removed : ℕ → Event

-- `waiting_for_ack` is a map by number, in ascending order. `notified` is whether there is a
-- notification function, `has_remote` whether there is a compute node for the remote.
pub record SendQueue : Type 0 where
  pub queued : List Entry
  pub waiting_for_ack : List Entry
  pub remote_id : ℕ
  pub message_number : ℕ
  pub acked_count : ℕ
  pub has_remote : Bool
  pub tracked_size : ℕ
  pub notified : Bool
  pub connection_string : ℕ
  pub available : Bool
  pub dropped : Bool
  pub service_knows : Bool
  pub last_heard : ℕ
  pub events : List Event

abbrev pub emit : List Event → SendQueue → SendQueue
emit es q = record q { events = q.events ++ es }

-- `++` on a uint32_t
abbrev pub succ32 : ℕ → ℕ
succ32 n = (n + 1) % 2 ^ 32

-- Entry::operator()(status): messages and files have callbacks.
unfoldable pub calls_back : Entry → Bool
calls_back e = elim e.transmit_mode [ message ↦ e.has_callback | file ↦ e.has_callback | _ ↦ false ]

abbrev pub call_back : Entry → Status → List Event
call_back e status = if calls_back e then called_back e status ∷ [] else []

-- The two calls with which an entry leaves the queue.
abbrev pub finish : Entry → Status → List Event
finish e status = call_back e status ++ call_back e to_be_deleted

-- deregisterNotificationCB
unfoldable pub deregister : SendQueue → SendQueue
deregister q =
    emit
      (if q.service_knows && ltb 0 q.tracked_size then counter_removed q.tracked_size ∷ [] else [])
      (record q {
        available = false;
        notified = q.notified && not q.available;
        service_knows = false;
      })

-- The message is counted once the writer knows of it.
unfoldable pub count_message : SendQueue → SendQueue
count_message q =
    emit (if q.service_knows then counter_added 1 ∷ [] else [])
      (record q { tracked_size = succ64 q.tracked_size })

-- The second part of `send`; `alive` is what the notification function returns.
unfoldable pub notify : (alive resend : Bool) → MessageKind → SendQueue → SendQueue
unfolding deregister count_message
notify alive resend kind q =
    if q.available && q.notified
    then (let q1 = emit (notified_available ∷ []) q in
        if not alive
        then deregister q1
        else if is_count_tracked kind && not resend
        then count_message q1
        else q1)
    else record q { available = false }

-- The first part: an acknowledgement or a resent entry has its number already.
unfoldable pub enqueue : (resend : Bool) → Entry → SendQueue → SendQueue
enqueue resend e q =
    if not (is_ack e.kind) && not resend
    then record q {
      queued = q.queued ++ record e { number = q.message_number } ∷ [];
      message_number = succ32 q.message_number;
    }
    else record q { queued = q.queued ++ e ∷ [] }

-- MessageSendQueue::send(Entry&&, bool)
unfoldable pub send : (alive resend : Bool) → Entry → SendQueue → SendQueue
unfolding enqueue notify
send alive resend e q = if q.dropped then q else notify alive resend e.kind (enqueue resend e q)

-- static_send_message_to and static_send_file_to; the node may have lost its queue.
unfoldable pub send_to : Bool → Entry → Option SendQueue → Option SendQueue × List Event
unfolding send
send_to alive e none = (none, finish e connection_closed)
send_to alive e (some q) = (some (send alive false e q), [])

-- availableToSendTo
abbrev pub available_to_send_to : Option SendQueue → Bool
available_to_send_to none = false
available_to_send_to (some q) = q.available

-- The map `waitingForACK`.
unfoldable pub find : ℕ → List Entry → Option Entry
find n [] = none
find n (e ∷ es) = if e.number == n then some e else find n es

unfoldable pub erase : ℕ → List Entry → List Entry
erase n [] = []
erase n (e ∷ es) = if e.number == n then es else e ∷ erase n es

-- try_emplace: an entry that is there stays.
unfoldable pub try_emplace : Entry → List Entry → List Entry
try_emplace e [] = e ∷ []
try_emplace e (x ∷ xs) =
    if x.number == e.number
    then x ∷ xs
    else if ltb e.number x.number
    then e ∷ x ∷ xs
    else x ∷ try_emplace e xs

-- The entry e is acknowledged.
unfoldable pub ack_entry : ℕ → Entry → Status → SendQueue → SendQueue
unfolding erase
ack_entry number e status q = emit (finish e status) (record q {
  waiting_for_ack = erase number q.waiting_for_ack;
  acked_count = succ32 q.acked_count;
})

-- handleACK: the source takes the value of an empty optional if nothing has this number; none
-- stands for that.
unfoldable pub handle_ack : ℕ → Status → SendQueue → Option SendQueue
unfolding find ack_entry
handle_ack number status q = elim (find number q.waiting_for_ack) [
  | none ↦ none
  | some e ↦ some (ack_entry number e status q)
]

-- popFromQueued for the front entry r of the queue.
unfoldable pub pop_entry : ℕ → Entry → List Entry → SendQueue → SendQueue
unfolding try_emplace
pop_entry now r rest q =
    let e = record r { sent = now } in
    let q1 = record q {
      queued = rest;
      waiting_for_ack =
          if is_waiting_for_ack r.kind then try_emplace e q.waiting_for_ack else q.waiting_for_ack;
    } in
    if is_count_tracked r.kind
    then emit (if q1.service_knows then counter_removed 1 ∷ [] else [])
        (record q1 { tracked_size = pred64 q1.tracked_size })
    else q1

-- popFromQueued; none stands for the front of an empty queue.
unfoldable pub pop_from_queued : ℕ → SendQueue → Option SendQueue
unfolding pop_entry
pop_from_queued now q = elim q.queued [ [] ↦ none | r ∷ rest ↦ some (pop_entry now r rest q) ]
