-- ===== src/SendQueue/Numbers/Steps.antt =====
-- The numbers under each operation (modules/communicator/message_send_queue.cpp).
use paracooba.Prelude.{
  ℕ, suc, ◌+◌, ◌%◌, ◌^◌, ◌<◌, ◌≤◌, ◌≡◌, ap, Bool, false, not, ◌&&◌, List, [], ◌∷◌, if◌then◌else◌,
  if_intro, arith,
}
use paracooba.Messages.{is_waiting_for_ack, is_ack, is_count_tracked}
use paracooba.Status.{Status}
use paracooba.SendQueue.{SendQueue, Entry, enqueue, send, try_emplace, pop_entry, ack_entry}
use paracooba.SendQueue.Ledger.{Keeps, notify-Keeps}
use paracooba.SendQueue.Numbers.{
  IsNumbered, uses, uses-append, uses-erase, uses-try_emplace, AllWaiting, AllWaiting-erase,
  AllWaiting-try_emplace,
}

pub IsNumbered-Keeps : (b : ℕ) (q r : SendQueue) → Keeps b q r → IsNumbered q → IsNumbered r
IsNumbered-Keeps b q r k v = record {
  once = λ n. rw (k.queued, k.waiting) (v.once n);
  fresh = λ n h. rw (k.queued, k.waiting) (v.fresh n (rw k.numbers at h));
  waiting = rw k.waiting v.waiting;
}

enqueue-IsNumbered :
    (e : Entry) (q : SendQueue)
    → suc q.message_number < 2 ^ 32
    → IsNumbered q
    → IsNumbered (enqueue false e q)
unfolding enqueue
enqueue-IsNumbered e q room v =
    if_intro IsNumbered (not (is_ack e.kind) && not false) _ _
      (λ a.
        let e' = record e { number = q.message_number } in
        let next : (q.message_number + 1) % 2 ^ 32 ≡ suc q.message_number = omega arith in
        record {
          once = λ n. grind (arith, uses-append n q.queued (e' ∷ []), v.once n, v.fresh n);
          fresh = λ n h. grind (arith, uses-append n q.queued (e' ∷ []), v.fresh n, next);
          waiting = v.waiting;
        })
      (λ a. record {
        once = λ n. ground (arith, uses-append n q.queued (e ∷ []), v.once n, a);
        fresh = λ n h. ground (arith, uses-append n q.queued (e ∷ []), v.fresh n h, a);
        waiting = v.waiting;
      })

pub send-IsNumbered :
    (alive : Bool) (e : Entry) (q : SendQueue)
    → suc q.message_number < 2 ^ 32
    → IsNumbered q
    → IsNumbered (send alive false e q)
unfolding send
send-IsNumbered alive e q room v =
    if_intro IsNumbered q.dropped q _ (λ _. v)
      (λ _.
        IsNumbered-Keeps 0 (enqueue false e q) _
          (notify-Keeps 0 alive false e.kind (enqueue false e q)) (enqueue-IsNumbered e q room v))

-- What waits after the front entry e is popped.
abbrev after_pop : Entry → List Entry → List Entry
after_pop e ws = if is_waiting_for_ack e.kind then try_emplace e ws else ws

after_pop-AllWaiting : (e : Entry) (ws : List Entry) → AllWaiting ws → AllWaiting (after_pop e ws)
after_pop-AllWaiting e ws a =
    if_intro AllWaiting (is_waiting_for_ack e.kind) _ ws (λ w. AllWaiting-try_emplace e ws w a)
      (λ _. a)

uses-after_pop : (n : ℕ) (e : Entry) (ws : List Entry) → uses n (after_pop e ws) ≤ uses n (e ∷ ws)
uses-after_pop n e ws =
    if_intro (λ xs. uses n xs ≤ uses n (e ∷ ws)) (is_waiting_for_ack e.kind) _ ws
      (λ _. uses-try_emplace n e ws) (λ _. omega arith)

pub pop_entry-IsNumbered :
    (now : ℕ) (r : Entry) (rest : List Entry) (q : SendQueue)
    → q.queued ≡ r ∷ rest
    → IsNumbered q
    → IsNumbered (pop_entry now r rest q)
unfolding pop_entry
pop_entry-IsNumbered now r rest q e v =
    let popped = record r { sent = now } in
    let once : (n : ℕ) → uses n rest + uses n (after_pop popped q.waiting_for_ack) ≤ 1 =
      λ n. omega (arith, uses-after_pop n popped q.waiting_for_ack, v.once n, ap (uses n) e) in
    let fresh : (n : ℕ)
        → q.message_number ≤ n
        → uses n rest + uses n (after_pop popped q.waiting_for_ack) ≡ 0 =
      λ n h. omega (arith, uses-after_pop n popped q.waiting_for_ack, v.fresh n h, ap (uses n) e) in
    let waiting = after_pop-AllWaiting popped q.waiting_for_ack v.waiting in
    if_intro IsNumbered (is_count_tracked r.kind) _ _
      (λ _. record { once = once; fresh = fresh; waiting = waiting })
      (λ _. record { once = once; fresh = fresh; waiting = waiting })

pub ack_entry-IsNumbered :
    (n : ℕ) (e : Entry) (status : Status) (q : SendQueue)
    → IsNumbered q
    → IsNumbered (ack_entry n e status q)
unfolding ack_entry
ack_entry-IsNumbered n e status q v = record {
  once = λ m. omega (arith, v.once m, uses-erase m n q.waiting_for_ack);
  fresh = λ m h. omega (arith, v.fresh m h, uses-erase m n q.waiting_for_ack);
  waiting = AllWaiting-erase n q.waiting_for_ack v.waiting;
}
