-- ===== src/SendQueue/Reachable.antt =====
-- The queue under any sequence of its operations (modules/communicator/message_send_queue.cpp).
use paracooba.Prelude.{
  ℕ, suc, ◌-◌, ◌^◌, ◌<◌, ◌≡◌, refl, ◌∙◌, Bool, true, false, not, ◌&&◌, some, List, [], ◌∷◌, ltb,
  if◌then◌else◌, if_intro, arith,
}
use paracooba.Status.{Status, to_be_deleted, ◌is◌}
use paracooba.SendQueue.{
  SendQueue, Entry, emit, send, handle_ack, pop_entry, deregister, killed_connection,
  connection_dropped,
}
use paracooba.SendQueue.Register.{register}
use paracooba.SendQueue.Tick.{Limits, clear, kill, drop_if_silent, notify_of_read}
use paracooba.SendQueue.Ledger.{
  held, ledger, Keeps, deregister-Keeps, emit-Keeps, Keeps-refl, quiet_if,
}
use paracooba.SendQueue.Ledger.Steps.{
  ledger-send, ledger-pop_entry, ledger-handle_ack, handle_ack-some, ledger-clear, ledger-Keeps,
}
use paracooba.SendQueue.Ledger.Registration.{register-Keeps}
use paracooba.SendQueue.Numbers.{IsNumbered, find-front}
use paracooba.SendQueue.Numbers.Steps.{
  IsNumbered-Keeps, send-IsNumbered, pop_entry-IsNumbered, ack_entry-IsNumbered,
}

-- The queue after any number of its operations; es are the entries it was given to send.
pub data Reach : List Entry → SendQueue → Type 0 where
  fresh : (q : SendQueue) → q.queued ≡ [] → q.waiting_for_ack ≡ [] → q.events ≡ [] → Reach [] q
  sent :
      {es : List Entry} {q : SendQueue} (alive : Bool) (e : Entry)
      → q.dropped ≡ false
      → suc q.message_number < 2 ^ 32
      → Reach es q
      → Reach (e ∷ es) (send alive false e q)
  popped :
      {es : List Entry} {q : SendQueue} (now : ℕ) (r : Entry) (rest : List Entry)
      → q.queued ≡ r ∷ rest
      → Reach es q
      → Reach es (pop_entry now r rest q)
  acked :
      {es : List Entry} {q r : SendQueue} (n : ℕ) (status : Status)
      → (status is to_be_deleted) ≡ false
      → handle_ack n status q ≡ some r
      → Reach es q
      → Reach es r
  registered :
      {es : List Entry} {q : SendQueue} (initiator : Bool) (own s : ℕ)
      → Reach es q
      → Reach es (register initiator own s q).1
  deregistered : {es : List Entry} {q : SendQueue} → Reach es q → Reach es (deregister q)
  timed :
      {es : List Entry} {q : SendQueue} (l : Limits) (now : ℕ)
      → Reach es q
      → Reach es (drop_if_silent l now q)
  read : {es : List Entry} {q : SendQueue} (now : ℕ) → Reach es q → Reach es (notify_of_read now q)

kept :
    (b : ℕ) (es : List Entry) (q r : SendQueue)
    → Keeps b q r
    → (ledger b q ≡ held b es) × IsNumbered q
    → (ledger b r ≡ held b es) × IsNumbered r
kept b es q r k (l, v) = (ledger-Keeps b q r k ∙ l, IsNumbered-Keeps b q r k v)

kill-Keeps : (b : ℕ) (q : SendQueue) → Keeps b q (kill q)
unfolding kill
kill-Keeps b q =
    if_intro (Keeps b q) q.notified _ q
      (λ _.
        deregister-Keeps b q (emit (killed_connection ∷ []) q)
          (emit-Keeps b (killed_connection ∷ []) q q refl (Keeps-refl b q)))
      (λ _. Keeps-refl b q)

clear-IsNumbered : (q : SendQueue) → IsNumbered (clear q)
unfolding clear
clear-IsNumbered q = record { once = λ n. omega arith; fresh = λ n h. refl; waiting = tt }

-- The rest of drop_if_silent.
last : SendQueue → SendQueue
last q = record (emit (if q.has_remote then connection_dropped ∷ [] else []) q) { dropped = true }

last-Keeps : (b : ℕ) (q : SendQueue) → Keeps b q (last q)
unfolding last
last-Keeps b q =
    let k = emit-Keeps b _ q q (quiet_if b q.has_remote connection_dropped refl) (Keeps-refl b q) in
    record { queued = refl; waiting = refl; numbers = refl; account = k.account }

drop_if_silent-ledger :
    (b : ℕ) (es : List Entry) (l : Limits) (now : ℕ) (q : SendQueue)
    → (ledger b q ≡ held b es) × IsNumbered q
    → (ledger b (drop_if_silent l now q) ≡ held b es) × IsNumbered (drop_if_silent l now q)
unfolding drop_if_silent last
drop_if_silent-ledger b es l now q v =
    let P = λ (r : SendQueue). (ledger b r ≡ held b es) × IsNumbered r in
    let k = kept b es q (kill q) (kill-Keeps b q) v in
    if_intro P (not q.dropped && ltb l.connection_timeout (now - q.last_heard)) _ q
      (λ _.
        kept b es (clear (kill q)) (last (clear (kill q))) (last-Keeps b (clear (kill q)))
          (ledger-clear b (kill q) ∙ k.0, clear-IsNumbered (kill q)))
      (λ _. v)

-- After any sequence of sending, writing, acknowledging, registering, deregistering and dropping,
-- from an empty queue, with no message given to a dropped queue and fewer than 2 to the power of
-- 32 numbers used: for each body, the messages sent with a callback that waits for an
-- acknowledgement are as many as are queued, wait, or had their last callback; and no number is
-- used twice or is still to be given.
pub sent-ledger :
    (b : ℕ) {es : List Entry} {q : SendQueue} → Reach es q → (ledger b q ≡ held b es) × IsNumbered q
unfolding notify_of_read
sent-ledger b (fresh q e w v) = (
  rw (e, w, v) refl,
  record { once = λ n. rw (e, w) (omega arith); fresh = λ n h. rw (e, w) refl; waiting = rw w tt },
)
sent-ledger b (sent alive e d room h) =
    let (l, n) = sent-ledger b h in
    (ledger-send b alive e _ d ∙ omega (arith, l), send-IsNumbered alive e _ room n)
sent-ledger b (popped now r rest e h) =
    let (l, n) = sent-ledger b h in
    (
      ledger-pop_entry b now r rest _ e (find-front _ r rest n e) ∙ l,
      pop_entry-IsNumbered now r rest _ e n,
    )
sent-ledger b (acked n status s e h) =
    let (l, v) = sent-ledger b h in
    let (x, f, g) = handle_ack-some n status _ _ e in
    (ledger-handle_ack b n status _ _ s e ∙ l, rw (g) (ack_entry-IsNumbered n x status _ v))
sent-ledger b (registered i own s h) = kept b _ _ _ (register-Keeps b i own s _) (sent-ledger b h)
sent-ledger b (deregistered h) =
    kept b _ _ _ (deregister-Keeps b _ _ (Keeps-refl b _)) (sent-ledger b h)
sent-ledger b (timed l now h) = drop_if_silent-ledger b _ l now _ (sent-ledger b h)
sent-ledger b (read now h) =
    kept b _ _ _ (record { queued = refl; waiting = refl; numbers = refl; account = refl })
      (sent-ledger b h)
