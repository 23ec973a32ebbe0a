-- ===== src/SendQueue/Ledger/Steps.antt =====
-- The account under each operation (modules/communicator/message_send_queue.cpp).
use paracooba.Prelude.{
  ℕ, ◌+◌, ◌≡◌, refl, ap, ◌∙◌, Bool, true, false, not, ◌&&◌, none, some, List, [], ◌∷◌, ◌++◌, ltb,
  ◌==◌, if◌then◌else◌, Bool-cases, Option-cases, if_intro, arith, inl, inr,
}
use paracooba.Status.{Status, to_be_deleted, message_timeout_error, ◌is◌}
use paracooba.Messages.{is_count_tracked, is_waiting_for_ack, is_ack}
use paracooba.SendQueue.{
  SendQueue, Entry, calls_back, finish, enqueue, send, find, erase, try_emplace, handle_ack,
  ack_entry, counter_removed, pop_entry,
}
use paracooba.SendQueue.Tick.{finish_all, clear}
use paracooba.SendQueue.Ledger.{
  is_owed, one, held, finished, ledger, held-append, finished-append, finished-finish, Keeps,
  quiet_if, notify-Keeps,
}

some_injective : {x y : Entry} → some x ≡ some y → x ≡ y
some_injective e = cc

held-erase :
    (b n : ℕ) (e : Entry) (ws : List Entry)
    → find n ws ≡ some e
    → held b ws ≡ one (is_owed b e) + held b (erase n ws)
unfolding find erase
held-erase b n e [] h = cc
held-erase b n e (w ∷ ws) h = elim (Bool-cases (w.number == n)) [
  | inl s ↦ rw s (ap (λ x. one (is_owed b x) + held b ws) (some_injective (rw s at h)))
  | inr s ↦ rw s (omega (arith, held-erase b n e ws (rw s at h)))
]

held-try_emplace :
    (b : ℕ) (e : Entry) (ws : List Entry)
    → find e.number ws ≡ none
    → held b (try_emplace e ws) ≡ one (is_owed b e) + held b ws
unfolding find try_emplace
held-try_emplace b e [] h = refl
held-try_emplace b e (w ∷ ws) h = elim (Bool-cases (w.number == e.number)) [
  | inl s ↦ cc (rw s at h)
  | inr s ↦ elim (Bool-cases (ltb e.number w.number)) [
    | inl t ↦ rw (s, t) refl
    | inr t ↦ rw (s, t) (omega (arith, held-try_emplace b e ws (rw s at h)))
  ]
]

-- The account after a step, from the parts.
pub ledger-Keeps : (b : ℕ) (q r : SendQueue) → Keeps b q r → ledger b r ≡ ledger b q
ledger-Keeps b q r k = rw (k.queued, k.waiting, k.account) refl

pub is_owed-number : (b : ℕ) (e : Entry) (n : ℕ) → is_owed b (record e { number = n }) ≡ is_owed b e
unfolding calls_back
is_owed-number b e n = refl

pub is_owed-sent : (b : ℕ) (e : Entry) (n : ℕ) → is_owed b (record e { sent = n }) ≡ is_owed b e
unfolding calls_back
is_owed-sent b e n = refl

ledger-enqueue :
    (b : ℕ) (e : Entry) (q : SendQueue)
    → ledger b (enqueue false e q) ≡ one (is_owed b e) + ledger b q
unfolding enqueue
ledger-enqueue b e q =
    if_intro (λ r. ledger b r ≡ one (is_owed b e) + ledger b q) (not (is_ack e.kind) && not false) _
      _
      (λ _. omega (
        arith,
        held-append b q.queued (record e { number = q.message_number } ∷ []),
        ap one (is_owed-number b e q.message_number),
      ))
      (λ _. omega (arith, held-append b q.queued (e ∷ [])))

-- Sending adds the entry to the account, unless the connection was dropped.
pub ledger-send :
    (b : ℕ) (alive : Bool) (e : Entry) (q : SendQueue)
    → q.dropped ≡ false
    → ledger b (send alive false e q) ≡ one (is_owed b e) + ledger b q
unfolding send
ledger-send b alive e q d =
    if_intro (λ r. ledger b r ≡ one (is_owed b e) + ledger b q) q.dropped q _ (λ t. cc)
      (λ _.
        ledger-Keeps b (enqueue false e q) _ (notify-Keeps b alive false e.kind (enqueue false e q))
        ∙ ledger-enqueue b e q)

not_owed : (b : ℕ) (e : Entry) → is_waiting_for_ack e.kind ≡ false → one (is_owed b e) ≡ 0
not_owed b e h = ground arith

-- Each later step keeps the account.
pub ledger-pop_entry :
    (b now : ℕ) (r : Entry) (rest : List Entry) (q : SendQueue)
    → q.queued ≡ r ∷ rest
    → (is_waiting_for_ack r.kind ≡ true → find r.number q.waiting_for_ack ≡ none)
    → ledger b (pop_entry now r rest q) ≡ ledger b q
unfolding pop_entry
ledger-pop_entry b now r rest q e f =
    let popped = record r { sent = now } in
    let ws =
      if is_waiting_for_ack r.kind
      then try_emplace popped q.waiting_for_ack
      else q.waiting_for_ack in
    let kept : held b ws ≡ one (is_owed b r) + held b q.waiting_for_ack =
      if_intro (λ xs. held b xs ≡ one (is_owed b r) + held b q.waiting_for_ack)
        (is_waiting_for_ack r.kind) _ _
        (λ w.
          held-try_emplace b popped q.waiting_for_ack (f w)
          ∙ ap (λ x. one x + held b q.waiting_for_ack) (is_owed-sent b r now))
        (λ w. omega (arith, not_owed b r w)) in
    if_intro (λ u. ledger b u ≡ ledger b q) (is_count_tracked r.kind) _ _
      (λ _. omega (
        arith,
        kept,
        ap (held b) e,
        finished-append b q.events (if q.service_knows then counter_removed 1 ∷ [] else []),
        quiet_if b q.service_knows (counter_removed 1) refl,
      ))
      (λ _. omega (arith, kept, ap (held b) e))

pub handle_ack-some :
    (n : ℕ) (status : Status) (q r : SendQueue)
    → handle_ack n status q ≡ some r
    → (e : Entry) × (find n q.waiting_for_ack ≡ some e) × (r ≡ ack_entry n e status q)
unfolding handle_ack
handle_ack-some n status q r h = elim (Option-cases (find n q.waiting_for_ack)) [
  | inl f ↦ cc (rw (f, handle_ack) at h)
  | inr (x, f) ↦ (x, f, cc (rw (f, handle_ack) at h))
]

pub ledger-handle_ack :
    (b n : ℕ) (status : Status) (q r : SendQueue)
    → (status is to_be_deleted) ≡ false
    → handle_ack n status q ≡ some r
    → ledger b r ≡ ledger b q
unfolding ack_entry
ledger-handle_ack b n status q r h e =
    let (x, f, g) = handle_ack-some n status q r e in
    ap (ledger b) g
    ∙ omega (
      arith,
      held-erase b n x q.waiting_for_ack f,
      finished-append b q.events (finish x status),
      finished-finish b x status h,
    )

timed_out : (message_timeout_error is to_be_deleted) ≡ false
unfolding paracooba.Status.Status-discrete
timed_out = refl

finished-finish_all :
    (b : ℕ) (es : List Entry) → finished b (finish_all es message_timeout_error) ≡ held b es
unfolding finish_all
finished-finish_all b [] = refl
finished-finish_all b (e ∷ es) =
    finished-append b (finish e message_timeout_error) (finish_all es message_timeout_error)
    ∙ omega (arith, finished-finish b e message_timeout_error timed_out, finished-finish_all b es)

pub ledger-clear : (b : ℕ) (q : SendQueue) → ledger b (clear q) ≡ ledger b q
unfolding clear
ledger-clear b q = omega (
  arith,
  finished-append b q.events (finish_all (q.queued ++ q.waiting_for_ack) message_timeout_error),
  finished-finish_all b (q.queued ++ q.waiting_for_ack),
  held-append b q.queued q.waiting_for_ack,
)
