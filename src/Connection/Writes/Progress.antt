-- ===== src/Connection/Writes/Progress.antt =====
-- The write handler of modules/communicator/tcp_connection.cpp writes all that is queued.
use paracooba.Prelude.{
  ℕ, zero, suc, ◌≡◌, refl, sym, ap, ◌∙◌, Bool, true, false, not, List, [], ◌∷◌, ◌++◌, append-nil,
  if_true, if_false, if_intro, if◌then◌else◌, Bool-cases, inl, inr,
}
use mathlib.Core.Path.{subst}
use paracooba.Messages.{is_file}
use paracooba.SendQueue.{Entry, pop_entry}
use paracooba.Connection.{
  Config, Env, Connection, WritePlace, idle, initiator_sent, header_sent, file_sent, body_sent,
  end_sent, write_ended, should_handler_be_ended,
}
use paracooba.Connection.Feed.{IsRunning, running}
use paracooba.Connection.Write.{
  is_header_only, write_front, write_next, pop_front, write_done, content_front, write_content,
  write_at, write_handler,
}
use paracooba.Connection.Transfer.Frames.{frames}
use paracooba.Connection.Writes.{stream, pending, pop_entry-queued, write_handler-stream}

-- n writes end without an error.
unfoldable pub complete : ℕ → Config → Env → Connection → Connection
unfolding write_handler
complete zero c e s = s
complete (suc n) c e s = complete n c e (write_handler c e true s)

-- After a number of writes nothing is queued, and the handler waits for something to write.
record Drains (c : Config) (e : Env) (s : Connection) : Type 0 where
  count : ℕ
  queued : (complete count c e s).queue.queued ≡ []
  place : (complete count c e s).write_place ≡ idle
  sending : (complete count c e s).currently_sending ≡ false

write_handler-running :
    (c : Config) (e : Env) (s : Connection)
    → IsRunning e
    → write_handler c e true s ≡ write_at s.write_place c e s
unfolding write_handler
write_handler-running c e s r = if_false (should_handler_be_ended e s) _ _ (running e s r)

Drains-step :
    (c : Config) (e : Env) (s : Connection)
    → IsRunning e
    → Drains c e (write_at s.write_place c e s)
    → Drains c e s
unfolding complete
Drains-step c e s r d =
    let next = subst (Drains c e) (sym (write_handler-running c e s r)) d in
    record {
      count = suc next.count;
      queued = next.queued;
      place = next.place;
      sending = next.sending;
    }

-- From the head of the loop on.
drain :
    (xs : List Entry) (c : Config) (e : Env) (s : Connection)
    → IsRunning e
    → s.killed ≡ false
    → s.registered ≡ true
    → s.queue.queued ≡ xs
    → Drains c e (write_next c s)
unfolding complete write_next write_front write_at write_content content_front write_done pop_front
drain [] c e s r k g q =
    let whole : write_next c s ≡ write_front c [] s =
      if_false s.killed _ _ k ∙ ap (λ ys. write_front c ys s) (if_true s.registered _ [] g ∙ q) in
    subst (Drains c e) (sym whole) (record { count = 0; queued = q; place = refl; sending = refl })
drain (x ∷ xs) c e s r k g q =
    let v = c.value x.body in
    let s1 = write_front c (x ∷ xs) s in
    let whole : write_next c s ≡ s1 =
      if_false s.killed _ _ k ∙ ap (λ ys. write_front c ys s) (if_true s.registered _ [] g ∙ q) in
    let popped = λ (t : Connection). record t { queue = pop_entry e.now x xs t.queue } in
    let done : (t : Connection)
        → t.killed ≡ false
        → t.registered ≡ true
        → t.queue.queued ≡ x ∷ xs
        → Drains c e (write_done c e t) =
      λ t kt gt qt.
        subst (Drains c e) (sym (if_false t.killed _ _ kt ∙ ap (λ ys. pop_front c e ys t) qt))
          (drain xs c e (popped t) r kt gt (pop_entry-queued e.now x xs t.queue)) in
    let after : Drains c e (write_at header_sent c e s1) =
      subst (Drains c e) (sym (if_false s1.killed _ _ k ∙ ap (λ ys. content_front c e ys s1) q))
        (elim (Bool-cases (is_header_only x.kind)) [
          | inl h ↦ subst (Drains c e) (sym (if_true (is_header_only x.kind) _ _ h)) (done s1 k g q)
          | inr h ↦ elim (Bool-cases (is_file x.kind)) [
            | inl f ↦
                subst (Drains c e)
                  (sym (if_false (is_header_only x.kind) _ _ h ∙ if_true (is_file x.kind) _ _ f))
                  (Drains-step c e _ r (done _ k g q))
            | inr f ↦
                subst (Drains c e)
                  (sym (if_false (is_header_only x.kind) _ _ h ∙ if_false (is_file x.kind) _ _ f))
                  (Drains-step c e _ r (done _ k g q))
          ]
        ]) in
    subst (Drains c e) (sym whole) (Drains-step c e s1 r after)

-- Nothing of this kills the connection.
front-killed :
    (c : Config) (xs : List Entry) (s : Connection) → (write_front c xs s).killed ≡ s.killed
unfolding write_front
front-killed c [] s = refl
front-killed c (x ∷ xs) s = refl

next-killed : (c : Config) (s : Connection) → (write_next c s).killed ≡ s.killed
unfolding write_next
next-killed c s =
    if_intro (λ (t : Connection). t.killed ≡ s.killed) s.killed _ _ (λ _. refl)
      (λ _. front-killed c (if s.registered then s.queue.queued else []) s)

done-killed : (c : Config) (e : Env) (s : Connection) → (write_done c e s).killed ≡ s.killed
unfolding write_done pop_front
done-killed c e s =
    let pop : (xs : List Entry) → (pop_front c e xs s).killed ≡ s.killed = λ xs.
      elim xs as (λ ys. (pop_front c e ys s).killed ≡ s.killed) [
        | [] ↦ refl
        | y ∷ ys ↦ next-killed c (record s { queue = pop_entry e.now y ys s.queue })
      ] in
    if_intro (λ (t : Connection). t.killed ≡ s.killed) s.killed _ _ (λ _. next-killed c s)
      (λ _. pop s.queue.queued)

content-killed :
    (c : Config) (e : Env) (xs : List Entry) (s : Connection)
    → (content_front c e xs s).killed ≡ s.killed
unfolding content_front
content-killed c e [] s = refl
content-killed c e (x ∷ xs) s =
    let P = λ (t : Connection). t.killed ≡ s.killed in
    if_intro P (is_header_only x.kind) _ _ (λ _. done-killed c e s)
      (λ _. if_intro P (is_file x.kind) _ _ (λ _. refl) (λ _. refl))

at-killed :
    (p : WritePlace) (c : Config) (e : Env) (s : Connection) → (write_at p c e s).killed ≡ s.killed
unfolding write_at write_content
at-killed initiator_sent c e s = next-killed c s
at-killed idle c e s = next-killed c s
at-killed header_sent c e s =
    if_intro (λ (t : Connection). t.killed ≡ s.killed) s.killed _ _ (λ _. next-killed c s)
      (λ _. content-killed c e s.queue.queued s)
at-killed file_sent c e s = done-killed c e s
at-killed body_sent c e s = done-killed c e s
at-killed end_sent c e s = refl
at-killed write_ended c e s = refl

handler-killed :
    (c : Config) (e : Env) (good : Bool) (s : Connection)
    → (write_handler c e good s).killed ≡ s.killed
unfolding write_handler
handler-killed c e good s =
    let P = λ (t : Connection). t.killed ≡ s.killed in
    if_intro P (should_handler_be_ended e s) s _ (λ _. refl)
      (λ _. if_intro P (not good) _ _ (λ _. refl) (λ _. at-killed s.write_place c e s))

complete-stream :
    (n : ℕ) (c : Config) (e : Env) (s : Connection)
    → s.killed ≡ false
    → stream c (complete n c e s) ≡ stream c s
unfolding complete
complete-stream zero c e s k = refl
complete-stream (suc n) c e s k =
    complete-stream n c e (write_handler c e true s) (handler-killed c e true s ∙ k)
    ∙ write_handler-stream c e true s k

-- A number of writes writes all that is queued when they begin.
pub complete-frames :
    (c : Config) (e : Env) (s : Connection)
    → IsRunning e
    → s.killed ≡ false
    → s.registered ≡ true
    → s.write_place ≡ idle
    → (n : ℕ) × let t = complete n c e s in
        (t.written ≡ s.written ++ frames c s.queue.queued)
        × (t.queue.queued ≡ [])
        × (t.write_place ≡ idle)
        × (t.currently_sending ≡ false)
unfolding stream pending write_at frames
complete-frames c e s r k g p =
    let start : Drains c e (write_at s.write_place c e s) =
      subst (λ q. Drains c e (write_at q c e s)) (sym p) (drain s.queue.queued c e s r k g refl) in
    let d = Drains-step c e s r start in
    let t = complete d.count c e s in
    let left : stream c t ≡ t.written =
      ap (λ q. t.written ++ pending c q t.queue.queued) d.place
      ∙ ap (λ ys. t.written ++ frames c ys) d.queued
      ∙ append-nil t.written in
    let all =
      complete-stream d.count c e s k ∙ ap (λ q. s.written ++ pending c q s.queue.queued) p in
    (d.count, (sym left ∙ all, d.queued, d.place, d.sending))
