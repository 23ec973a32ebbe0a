-- ===== src/SendQueue/Tick.antt =====
-- MessageSendQueue::tick, clear and the destructor of modules/communicator/message_send_queue.cpp.
-- The clock counts milliseconds.
use paracooba.Prelude.{
  ℕ, ◌+◌, ◌-◌, ◌/◌, Bool, true, false, not, ◌&&◌, List, [], ◌∷◌, ◌++◌, ltb, if◌then◌else◌,
}
use paracooba.Status.{Status, message_timeout_error, connection_closed}
use paracooba.Messages.{is_count_tracked}
use paracooba.Store.State.{pred64}
use paracooba.SendQueue.{
  SendQueue, Entry, Event, counter_removed, killed_connection, connection_dropped, emit, finish,
  deregister, send,
}

-- Time limits of the service.
pub record Limits : Type 0 where
  pub message_timeout : ℕ
  pub connection_timeout : ℕ

unfoldable pub finish_all : List Entry → Status → List Event
finish_all [] status = []
finish_all (e ∷ es) status = finish e status ++ finish_all es status

uncount : Entry → SendQueue → SendQueue
uncount e q =
    if is_count_tracked e.kind
    then emit (if q.service_knows then counter_removed 1 ∷ [] else [])
        (record q { tracked_size = pred64 q.tracked_size })
    else q

-- One entry of the loop: whether it stays, and the queue. The source takes the sending time minus
-- now, a number of milliseconds that is mostly not positive; it exceeds a limit exactly if the
-- sending time exceeds now by more than the limit.
unfoldable pub tick_entry :
    Limits → (alive : Bool) → (now : ℕ) → Entry → SendQueue → Bool × SendQueue
unfolding uncount send
tick_entry l alive now e q =
    if ltb (now + l.message_timeout / 2) e.sent
    then (false, send alive true e q)
    else if ltb (now + l.message_timeout) e.sent
    then (false, emit (finish e message_timeout_error) (uncount e q))
    else (true, q)

-- The loop over the waiting entries; the queue is given with those that stay so far.
unfoldable pub tick_entries : Limits → Bool → ℕ → (kept left : List Entry) → SendQueue → SendQueue
unfolding tick_entry
tick_entries l alive now kept [] q = record q { waiting_for_ack = kept }
tick_entries l alive now kept (e ∷ es) q =
    let (stays, q1) = tick_entry l alive now e q in
    tick_entries l alive now (if stays then kept ++ e ∷ [] else kept) es q1

-- Subtracts the counted ones among the entries that were queued.
uncount_queued : List Entry → ℕ → ℕ
uncount_queued [] n = n
uncount_queued (e ∷ es) n = uncount_queued es (if is_count_tracked e.kind then pred64 n else n)

-- clear: every entry is told of a timeout, the queued ones first.
unfoldable pub clear : SendQueue → SendQueue
unfolding uncount_queued finish_all
clear q = emit (finish_all (q.queued ++ q.waiting_for_ack) message_timeout_error) (record q {
  queued = [];
  waiting_for_ack = [];
  tracked_size = uncount_queued q.queued q.tracked_size;
})

unfoldable pub kill : SendQueue → SendQueue
unfolding deregister
kill q = if q.notified then deregister (emit (killed_connection ∷ []) q) else q

-- The second part of tick: a connection on which nothing was read for too long is dropped.
unfoldable pub drop_if_silent : Limits → ℕ → SendQueue → SendQueue
unfolding clear kill
drop_if_silent l now q =
    if not q.dropped && ltb l.connection_timeout (now - q.last_heard)
    then (let q1 = clear (kill q) in
        record (emit (if q1.has_remote then connection_dropped ∷ [] else []) q1) { dropped = true })
    else q

-- tick
unfoldable pub tick : Limits → (alive : Bool) → (now : ℕ) → SendQueue → SendQueue
unfolding tick_entries drop_if_silent
tick l alive now q = drop_if_silent l now (tick_entries l alive now [] q.waiting_for_ack q)

-- notifyOfRead
unfoldable pub notify_of_read : ℕ → SendQueue → SendQueue
notify_of_read now q = record q { last_heard = now }

-- The destructor: what the entries that are left are told.
unfoldable pub destroy : SendQueue → List Event
unfolding finish_all
destroy q = finish_all (q.queued ++ q.waiting_for_ack) connection_closed
