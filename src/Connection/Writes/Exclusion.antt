-- ===== src/Connection/Writes/Exclusion.antt =====
-- At most one write at a time (modules/communicator/tcp_connection.cpp): the flag currentlySending.
use paracooba.Prelude.{
  ◌≡◌, ◌≢◌, refl, sym, ap, ◌∙◌, Bool, true, false, not, List, [], ◌∷◌, if_true, if_intro,
  if◌then◌else◌,
}
use paracooba.Messages.{is_file}
use paracooba.SendQueue.{SendQueue, Entry, pop_entry}
use paracooba.Connection.{
  Config, Env, Connection, WritePlace, idle, initiator_sent, header_sent, file_sent, body_sent,
  end_sent, write_ended, should_handler_be_ended,
}
use paracooba.Connection.Write.{
  is_header_only, write_front, write_next, pop_front, write_done, content_front, write_content,
  write_at, write_handler, trigger, kill_connection,
}
use paracooba.Connection.Lifetime.{connect}

-- A write was begun and has not ended.
abbrev pub is_outstanding : WritePlace → Bool
is_outstanding initiator_sent = true
is_outstanding header_sent = true
is_outstanding file_sent = true
is_outstanding body_sent = true
is_outstanding _ = false

-- A connection after any number of calls of its write handler: after a write has ended, or
-- triggered from outside; what else happens leaves the write handler's place and flag alone.
pub data WriteReach (c : Config) : Connection → Type 0 where
  connected : (e : Env) (q : SendQueue) → WriteReach c (connect c e q)
  completed :
      {s : Connection} (e : Env) (good : Bool)
      → is_outstanding s.write_place ≡ true
      → WriteReach c s
      → WriteReach c (write_handler c e good s)
  triggered : {s : Connection} (e : Env) → WriteReach c s → WriteReach c (trigger c e s)
  was_killed : {s : Connection} (e : Env) → WriteReach c s → WriteReach c (kill_connection c e s)
  elsewhere :
      {s : Connection} (t : Connection)
      → t.write_place ≡ s.write_place
      → t.currently_sending ≡ s.currently_sending
      → WriteReach c s
      → WriteReach c t

bools_differ_back : false ≢ true
bools_differ_back = cc

IsFlagged : Connection → Type 0
IsFlagged t = is_outstanding t.write_place ≡ true → t.currently_sending ≡ true

idle-IsFlagged : (t : Connection) → t.write_place ≡ idle → IsFlagged t
unfolding IsFlagged
idle-IsFlagged t p h = absurd (bools_differ_back (sym (ap is_outstanding p) ∙ h))

next-IsFlagged :
    (c : Config) (s : Connection) → s.currently_sending ≡ true → IsFlagged (write_next c s)
unfolding IsFlagged write_next write_front
next-IsFlagged c s h =
    let front : (xs : List Entry) → IsFlagged (write_front c xs s) = λ xs.
      elim xs as (λ ys. IsFlagged (write_front c ys s)) [
        | [] ↦ idle-IsFlagged (write_front c [] s) refl
        | y ∷ ys ↦ λ _. h
      ] in
    if_intro IsFlagged s.killed _ _ (λ _ _. h)
      (λ _. front (if s.registered then s.queue.queued else []))

done-IsFlagged :
    (c : Config) (e : Env) (s : Connection)
    → s.currently_sending ≡ true
    → IsFlagged (write_done c e s)
unfolding IsFlagged write_done pop_front
done-IsFlagged c e s h =
    let pop : (xs : List Entry) → IsFlagged (pop_front c e xs s) = λ xs.
      elim xs as (λ ys. IsFlagged (pop_front c e ys s)) [
        | [] ↦ λ _. h
        | y ∷ ys ↦ next-IsFlagged c (record s { queue = pop_entry e.now y ys s.queue }) h
      ] in
    if_intro IsFlagged s.killed _ _ (λ _. next-IsFlagged c s h) (λ _. pop s.queue.queued)

content-IsFlagged :
    (c : Config) (e : Env) (xs : List Entry) (s : Connection)
    → s.currently_sending ≡ true
    → IsFlagged (content_front c e xs s)
unfolding IsFlagged content_front
content-IsFlagged c e [] s h = λ _. h
content-IsFlagged c e (x ∷ xs) s h =
    if_intro IsFlagged (is_header_only x.kind) _ _ (λ _. done-IsFlagged c e s h)
      (λ _. if_intro IsFlagged (is_file x.kind) _ _ (λ _ _. h) (λ _ _. h))

at-IsFlagged :
    (p : WritePlace) (c : Config) (e : Env) (s : Connection)
    → s.currently_sending ≡ true
    → IsFlagged (write_at p c e s)
unfolding IsFlagged write_at write_content
at-IsFlagged initiator_sent c e s h = next-IsFlagged c s h
at-IsFlagged idle c e s h = next-IsFlagged c s h
at-IsFlagged header_sent c e s h =
    if_intro IsFlagged s.killed _ _ (λ _. next-IsFlagged c s h)
      (λ _. content-IsFlagged c e s.queue.queued s h)
at-IsFlagged file_sent c e s h = done-IsFlagged c e s h
at-IsFlagged body_sent c e s h = done-IsFlagged c e s h
at-IsFlagged end_sent c e s h = λ _. h
at-IsFlagged write_ended c e s h = λ _. h

handler-IsFlagged :
    (c : Config) (e : Env) (good : Bool) (s : Connection)
    → s.currently_sending ≡ true
    → IsFlagged (write_handler c e good s)
unfolding IsFlagged write_handler
handler-IsFlagged c e good s h =
    if_intro IsFlagged (should_handler_be_ended e s) s _ (λ _ _. h)
      (λ _. if_intro IsFlagged (not good) _ _ (λ _ _. h) (λ _. at-IsFlagged s.write_place c e s h))

trigger-IsFlagged :
    (c : Config) (e : Env) (s : Connection) → IsFlagged s → IsFlagged (trigger c e s)
unfolding trigger
trigger-IsFlagged c e s v =
    if_intro IsFlagged s.currently_sending s _ (λ _. v)
      (λ _. handler-IsFlagged c e true (record s { currently_sending = true }) refl)

Reach-IsFlagged : {c : Config} {s : Connection} → WriteReach c s → IsFlagged s
unfolding IsFlagged connect kill_connection
Reach-IsFlagged {c} (connected e q) = if_intro IsFlagged e.stopped _ _ (λ _ _. refl) (λ _ _. refl)
Reach-IsFlagged {c} (completed e good p r) = handler-IsFlagged c e good _ (Reach-IsFlagged r p)
Reach-IsFlagged {c} (triggered e r) = trigger-IsFlagged c e _ (Reach-IsFlagged r)
Reach-IsFlagged {c} (was_killed {s} e r) =
    trigger-IsFlagged c e (record s { killed = true }) (Reach-IsFlagged r)
Reach-IsFlagged {c} (elsewhere t p f r) = λ h. f ∙ Reach-IsFlagged r (sym (ap is_outstanding p) ∙ h)

-- In each state that the write handler leads to, called after writes that ended well or badly,
-- triggered from outside or by a kill: while a write is outstanding, triggering the handler does
-- nothing, so there is never a second write at the same time.
pub trigger-outstanding :
    {c : Config} {s : Connection} (e : Env)
    → WriteReach c s
    → is_outstanding s.write_place ≡ true
    → trigger c e s ≡ s
unfolding trigger IsFlagged
trigger-outstanding {c} {s} e r p = if_true s.currently_sending _ _ (Reach-IsFlagged r p)
