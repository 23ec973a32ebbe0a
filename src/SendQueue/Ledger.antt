-- ===== src/SendQueue/Ledger.antt =====
-- The account of messages: how many entries with a body are held, and how many were finished
-- (modules/communicator/message_send_queue.cpp).
pub mod Steps
pub mod Registration
use paracooba.Prelude.{
  ℕ, ◌+◌, ◌-◌, ◌≡◌, refl, ap, ◌∙◌, Bool, true, false, not, ◌&&◌, List, [], ◌∷◌, ◌++◌, ltb, ◌==◌,
  if◌then◌else◌, Bool-cases, if_intro, arith, inl, inr,
}
use paracooba.Status.{Status, to_be_deleted, ◌is◌}
use paracooba.Messages.{MessageKind, is_count_tracked, is_waiting_for_ack}
use paracooba.SendQueue.{
  SendQueue, Entry, Event, called_back, calls_back, finish, deregister, count_message, notify, send,
  emit, notified_available, counter_removed, counter_added,
}

-- An entry of this body whose sender is to hear what became of it.
abbrev pub is_owed : ℕ → Entry → Bool
is_owed b e = e.body == b && calls_back e && is_waiting_for_ack e.kind

abbrev pub one : Bool → ℕ
one true = 1
one false = 0

abbrev pub held : ℕ → List Entry → ℕ
held b [] = 0
held b (e ∷ es) = one (is_owed b e) + held b es

-- The entry's last callback.
abbrev pub finished_one : ℕ → Event → ℕ
finished_one b (called_back e status) = one (is_owed b e && (status is to_be_deleted))
finished_one b _ = 0

abbrev pub finished : ℕ → List Event → ℕ
finished b [] = 0
finished b (v ∷ vs) = finished_one b v + finished b vs

abbrev pub ledger : ℕ → SendQueue → ℕ
ledger b q = held b q.queued + held b q.waiting_for_ack + finished b q.events

pub held-append : (b : ℕ) (xs ys : List Entry) → held b (xs ++ ys) ≡ held b xs + held b ys
held-append b [] ys = omega arith
held-append b (x ∷ xs) ys = omega (arith, held-append b xs ys)

pub finished-append :
    (b : ℕ) (xs ys : List Event) → finished b (xs ++ ys) ≡ finished b xs + finished b ys
finished-append b [] ys = omega arith
finished-append b (x ∷ xs) ys = omega (arith, finished-append b xs ys)

pub finished-finish :
    (b : ℕ) (e : Entry) (status : Status)
    → (status is to_be_deleted) ≡ false
    → finished b (finish e status) ≡ one (is_owed b e)
unfolding paracooba.Status.Status-discrete
finished-finish b e status h = elim (Bool-cases (calls_back e)) [
  | inl c ↦ ground arith
  | inr c ↦ ground arith
]

-- A step that leaves the entries, the numbers and the account alone.
pub record Keeps (b : ℕ) (q r : SendQueue) : Type 0 where
  pub queued : r.queued ≡ q.queued
  pub waiting : r.waiting_for_ack ≡ q.waiting_for_ack
  pub numbers : r.message_number ≡ q.message_number
  pub account : finished b r.events ≡ finished b q.events

pub emit-Keeps :
    (b : ℕ) (es : List Event) (q r : SendQueue)
    → finished b es ≡ 0
    → Keeps b q r
    → Keeps b q (emit es r)
emit-Keeps b es q r h k = record {
  queued = k.queued;
  waiting = k.waiting;
  numbers = k.numbers;
  account = finished-append b r.events es ∙ omega (arith, h, k.account);
}

pub quiet_if :
    (b : ℕ) (c : Bool) (v : Event)
    → finished_one b v ≡ 0
    → finished b (if c then v ∷ [] else []) ≡ 0
quiet_if b true v h = omega arith
quiet_if b false v h = refl

pub deregister-Keeps : (b : ℕ) (q r : SendQueue) → Keeps b q r → Keeps b q (deregister r)
unfolding deregister
deregister-Keeps b q r k =
    emit-Keeps b _ q _
      (quiet_if b (r.service_knows && ltb 0 r.tracked_size) (counter_removed r.tracked_size) refl)
      (record { queued = k.queued; waiting = k.waiting; numbers = k.numbers; account = k.account })

count_message-Keeps : (b : ℕ) (q r : SendQueue) → Keeps b q r → Keeps b q (count_message r)
unfolding count_message
count_message-Keeps b q r k =
    emit-Keeps b _ q _ (quiet_if b r.service_knows (counter_added 1) refl)
      (record { queued = k.queued; waiting = k.waiting; numbers = k.numbers; account = k.account })

pub Keeps-refl : (b : ℕ) (q : SendQueue) → Keeps b q q
Keeps-refl b q = record { queued = refl; waiting = refl; numbers = refl; account = refl }

pub notify-Keeps :
    (b : ℕ) (alive resend : Bool) (kind : MessageKind) (q : SendQueue)
    → Keeps b q (notify alive resend kind q)
unfolding notify
notify-Keeps b alive resend kind q =
    let q1 = emit (notified_available ∷ []) q in
    let told = emit-Keeps b (notified_available ∷ []) q q refl (Keeps-refl b q) in
    if_intro (Keeps b q) (q.available && q.notified) _ _
      (λ _.
        if_intro (Keeps b q) (not alive) (deregister q1) _ (λ _. deregister-Keeps b q q1 told)
          (λ _.
            if_intro (Keeps b q) (is_count_tracked kind && not resend) (count_message q1) q1
              (λ _. count_message-Keeps b q q1 told) (λ _. told)))
      (λ _. record { queued = refl; waiting = refl; numbers = refl; account = refl })
