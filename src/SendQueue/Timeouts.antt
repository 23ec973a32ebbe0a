-- ===== src/SendQueue/Timeouts.antt =====
-- The time limit on a waiting entry (MessageSendQueue::tick of
-- modules/communicator/message_send_queue.cpp).
use paracooba.Prelude.{
  ℕ, ◌+◌, ◌/◌, ◌≤◌, ◌≡◌, sym, ap, ◌∙◌, Bool, false, List, [], ◌∷◌, ◌++◌, ltb, arith, append_assoc,
  append-nil,
}
use paracooba.SendQueue.{SendQueue, Entry}
use paracooba.SendQueue.Tick.{Limits, drop_if_silent, tick, tick_entries, tick_entry}

-- Each waiting entry was sent at `now` or earlier.
abbrev pub SentBy : ℕ → List Entry → Type 0
SentBy now [] = Unit {0}
SentBy now (e ∷ es) = (e.sent ≤ now) × SentBy now es

tick_entries-SentBy :
    (l : Limits) (alive : Bool) (now : ℕ) (kept ws : List Entry) (q : SendQueue)
    → SentBy now ws
    → tick_entries l alive now kept ws q ≡ record q { waiting_for_ack = kept ++ ws }
unfolding tick_entries tick_entry
tick_entries-SentBy l alive now kept [] q s =
    ap (λ xs. record q { waiting_for_ack = xs }) (sym (append-nil kept))
tick_entries-SentBy l alive now kept (w ∷ ws) q s =
    let half : ltb (now + l.message_timeout / 2) w.sent ≡ false = ground (arith, s.0) in
    let full : ltb (now + l.message_timeout) w.sent ≡ false = ground (arith, s.0) in
    rw (half, full)
      (tick_entries-SentBy l alive now (kept ++ w ∷ []) ws q s.1
        ∙ ap (λ xs. record q { waiting_for_ack = xs }) (append_assoc kept (w ∷ []) ws))

-- If every waiting entry was sent at the present time or before, `tick` does nothing to the
-- entries: it is the same as the test for a silent connection alone.
pub tick-SentBy :
    (l : Limits) (alive : Bool) (now : ℕ) (q : SendQueue)
    → SentBy now q.waiting_for_ack
    → tick l alive now q ≡ drop_if_silent l now q
unfolding tick
tick-SentBy l alive now q s =
    ap (drop_if_silent l now) (tick_entries-SentBy l alive now [] q.waiting_for_ack q s)
