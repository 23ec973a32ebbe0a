-- ===== src/Connection/Writes.antt =====
-- What the write handler of modules/communicator/tcp_connection.cpp writes.
pub mod Progress
pub mod Exclusion
use paracooba.Prelude.{
  ℕ, ◌+◌, ◌≡◌, refl, sym, ap, ◌∙◌, Bool, true, false, not, List, [], ◌∷◌, ◌++◌, append_assoc,
  if◌then◌else◌, if_true, if_false, if_intro, Bool-cases, inl, inr, arith,
}
use paracooba.Messages.{is_file}
use paracooba.SendQueue.{SendQueue, Entry, pop_entry}
use paracooba.Connection.{
  Config, Env, Connection, WritePlace, idle, header_sent, file_sent, body_sent, initiator_sent,
  end_sent, write_ended, should_handler_be_ended,
}
use paracooba.Connection.Write.{
  header_of, is_header_only, write_front, write_next, pop_front, write_done, content_front,
  write_content, write_at, write_handler,
}
use paracooba.Connection.Files.{file_header}
use paracooba.Connection.Stream.{content_of, frame}
use paracooba.Connection.Transfer.Frames.{frames}

-- What is still to be written of what is queued: of the first entry the header may have been
-- written, or everything.
unfoldable pub pending : Config → WritePlace → List Entry → List ℕ
unfolding frames content_of
pending c header_sent (x ∷ xs) = content_of c x ++ frames c xs
pending c file_sent (x ∷ xs) = frames c xs
pending c body_sent (x ∷ xs) = frames c xs
pending c initiator_sent xs = frames c xs
pending c idle xs = frames c xs
pending c end_sent xs = frames c xs
pending c write_ended xs = frames c xs
pending c p [] = []

-- What was written, and what is still to be.
unfoldable pub stream : Config → Connection → List ℕ
unfolding pending
stream c s = s.written ++ pending c s.write_place s.queue.queued

-- The entry is popped as it stands in the queue.
pub pop_entry-queued :
    (now : ℕ) (x : Entry) (xs : List Entry) (q : SendQueue) → (pop_entry now x xs q).queued ≡ xs
unfolding pop_entry
pop_entry-queued now x xs q = ground arith

front-stream :
    (c : Config) (xs : List Entry) (s : Connection)
    → s.queue.queued ≡ xs
    → stream c (write_front c xs s) ≡ s.written ++ frames c xs
unfolding stream pending write_front frames frame
front-stream c [] s q = ap (λ ys. s.written ++ frames c ys) q
front-stream c (x ∷ xs) s q =
    let header = c.layout.encode_header (header_of c x) in
    ap (λ ys. (s.written ++ header) ++ pending c header_sent ys) q
    ∙ append_assoc s.written header (content_of c x ++ frames c xs)
    ∙ ap (λ ys. s.written ++ ys) (sym (append_assoc header (content_of c x) (frames c xs)))

-- With no queue nothing is written.
waiting-stream :
    (c : Config) (s : Connection)
    → stream c (write_front c [] s) ≡ s.written ++ frames c s.queue.queued
unfolding stream pending write_front
waiting-stream c s = refl

write_next-stream :
    (c : Config) (s : Connection)
    → s.killed ≡ false
    → stream c (write_next c s) ≡ s.written ++ frames c s.queue.queued
unfolding write_next
write_next-stream c s k =
    let next = λ (r : Bool).
      stream c (write_front c (if r then s.queue.queued else []) s)
      ≡ s.written ++ frames c s.queue.queued in
    let both : (r : Bool) → next r = λ r. elim r as next [
      | true ↦ front-stream c s.queue.queued s refl
      | false ↦ waiting-stream c s
    ] in
    ap (stream c) (if_false s.killed _ _ k) ∙ both s.registered

pop_front-stream :
    (c : Config) (e : Env) (xs : List Entry) (s : Connection)
    → s.queue.queued ≡ xs
    → s.killed ≡ false
    → stream c (pop_front c e xs s) ≡ s.written ++ pending c body_sent xs
unfolding stream pending pop_front frames
pop_front-stream c e [] s q k = ap (λ ys. s.written ++ frames c ys) q
pop_front-stream c e (x ∷ xs) s q k =
    write_next-stream c (record s { queue = pop_entry e.now x xs s.queue }) k
    ∙ ap (λ ys. s.written ++ frames c ys) (pop_entry-queued e.now x xs s.queue)

write_done-stream :
    (c : Config) (e : Env) (s : Connection)
    → s.killed ≡ false
    → stream c (write_done c e s) ≡ s.written ++ pending c body_sent s.queue.queued
unfolding write_done
write_done-stream c e s k =
    ap (stream c) (if_false s.killed _ _ k) ∙ pop_front-stream c e s.queue.queued s refl k

content_front-stream :
    (c : Config) (e : Env) (xs : List Entry) (s : Connection)
    → s.queue.queued ≡ xs
    → s.killed ≡ false
    → stream c (content_front c e xs s) ≡ s.written ++ pending c header_sent xs
unfolding stream pending content_front frames content_of
content_front-stream c e [] s q k = ap (λ ys. s.written ++ frames c ys) q
content_front-stream c e (x ∷ xs) s q k =
    let v = c.value x.body in
    let file = file_header c.memory v.name ++ v.bytes in
    let rest =
      λ (bytes : List ℕ) (p : WritePlace). ap (λ ys. (s.written ++ bytes) ++ pending c p ys) q in
    elim (Bool-cases (is_header_only x.kind)) [
      | inl h ↦
          ap (stream c) (if_true (is_header_only x.kind) _ _ h)
          ∙ write_done-stream c e s k
          ∙ ap (λ ys. s.written ++ pending c body_sent ys) q
          ∙ ap (λ ys. s.written ++ (ys ++ frames c xs))
              (sym (if_true (is_header_only x.kind) [] _ h))
      | inr h ↦ elim (Bool-cases (is_file x.kind)) [
        | inl f ↦
            ap (stream c) (if_false (is_header_only x.kind) _ _ h ∙ if_true (is_file x.kind) _ _ f)
            ∙ rest file file_sent
            ∙ append_assoc s.written file (frames c xs)
            ∙ ap (λ ys. s.written ++ (ys ++ frames c xs))
                (sym (
                  if_false (is_header_only x.kind) [] _ h
                  ∙ if_true (is_file x.kind) file v.bytes f))
        | inr f ↦
            ap (stream c) (if_false (is_header_only x.kind) _ _ h ∙ if_false (is_file x.kind) _ _ f)
            ∙ rest v.bytes body_sent
            ∙ append_assoc s.written v.bytes (frames c xs)
            ∙ ap (λ ys. s.written ++ (ys ++ frames c xs))
                (sym (
                  if_false (is_header_only x.kind) [] _ h
                  ∙ if_false (is_file x.kind) file v.bytes f))
      ]
    ]

pending-file : (c : Config) (xs : List Entry) → pending c body_sent xs ≡ pending c file_sent xs
unfolding pending
pending-file c [] = refl
pending-file c (x ∷ xs) = refl

write_at-stream :
    (p : WritePlace) (c : Config) (e : Env) (s : Connection)
    → s.write_place ≡ p
    → s.killed ≡ false
    → stream c (write_at p c e s) ≡ s.written ++ pending c p s.queue.queued
unfolding stream pending write_at write_content
write_at-stream initiator_sent c e s h k = write_next-stream c s k
write_at-stream idle c e s h k = write_next-stream c s k
write_at-stream header_sent c e s h k =
    ap (stream c) (if_false s.killed _ _ k) ∙ content_front-stream c e s.queue.queued s refl k
write_at-stream file_sent c e s h k =
    write_done-stream c e s k ∙ ap (λ ys. s.written ++ ys) (pending-file c s.queue.queued)
write_at-stream body_sent c e s h k = write_done-stream c e s k
write_at-stream end_sent c e s h k = ap (λ p. s.written ++ pending c p s.queue.queued) h
write_at-stream write_ended c e s h k = ap (λ p. s.written ++ pending c p s.queue.queued) h

-- On a connection that is not killed, no call of the write handler, with or without an error,
-- changes the bytes written so far followed by those still to be written of what is queued: an
-- entry leaves the queue only after its header and its content were written.
pub write_handler-stream :
    (c : Config) (e : Env) (good : Bool) (s : Connection)
    → s.killed ≡ false
    → stream c (write_handler c e good s) ≡ stream c s
unfolding stream write_handler
write_handler-stream c e good s k =
    if_intro (λ (t : Connection). stream c t ≡ stream c s) (should_handler_be_ended e s) s _
      (λ _. refl)
      (λ _.
        if_intro (λ (t : Connection). stream c t ≡ stream c s) (not good) _ _ (λ _. refl)
          (λ _. write_at-stream s.write_place c e s refl k))
