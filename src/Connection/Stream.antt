-- ===== src/Connection/Stream.antt =====
-- The bytes of entries ks the read handler of modules/communicator/tcp_connection.cpp takes them.
use paracooba.Prelude.{
  ℕ, ◌≡◌, ◌≢◌, refl, sym, ap, ◌∙◌, Bool, true, false, List, [], ◌∷◌, ◌++◌, append_assoc, append-nil,
  if◌then◌else◌, if_intro, if_false, arith,
}
use paracooba.Status.{Status}
use paracooba.Messages.{MessageKind, ack, is_file}
use paracooba.SendQueue.{SendQueue, Entry, send, enqueue, notify}
use paracooba.Connection.{Config, Env, Connection, Delivery, at_header, send_ack, ack_entry_of}
use paracooba.Connection.Files.{file_header}
use paracooba.Connection.Read.{note_read, read_next}
use paracooba.Connection.Write.{header_of, is_header_only}

-- The bytes of an entry.
unfoldable pub content_of : Config → Entry → List ℕ
unfolding file_header
content_of c x =
    let v = c.value x.body in
    if is_header_only x.kind
    then []
    else if is_file x.kind
    then file_header c.memory v.name ++ v.bytes
    else v.bytes

unfoldable pub frame : Config → Entry → List ℕ
unfolding header_of content_of
frame c x = c.layout.encode_header (header_of c x) ++ content_of c x

-- The connection takes what comes.
pub record IsUsable (s : Connection) : Type 0 where
  pub registered : s.registered ≡ true
  pub not_killed : s.killed ≡ false
  pub not_dropped : s.queue.dropped ≡ false

-- From s to t these were delivered, and these acknowledgements were queued.
pub record Took (ds : List Delivery) (ks : List Entry) (s t : Connection) : Type 0 where
  pub usable : IsUsable t
  pub delivered : t.delivered ≡ s.delivered ++ ds
  pub acks : t.queue.queued ≡ s.queue.queued ++ ks

pub Took-trans :
    {ds fs : List Delivery} {ks bs : List Entry} {s t u : Connection}
    → Took ds ks s t
    → Took fs bs t u
    → Took (ds ++ fs) (ks ++ bs) s u
Took-trans {ds} {fs} {ks} {bs} {s} p q = record {
  usable = q.usable;
  delivered = q.delivered ∙ ap (λ xs. xs ++ fs) p.delivered ∙ append_assoc s.delivered ds fs;
  acks = q.acks ∙ ap (λ xs. xs ++ bs) p.acks ∙ append_assoc s.queue.queued ks bs;
}

pub bools_differ : true ≢ false
bools_differ = cc

notify-kept :
    (alive : Bool) (kind : MessageKind) (q : SendQueue)
    → ((notify alive false kind q).queued ≡ q.queued)
      × ((notify alive false kind q).dropped ≡ q.dropped)
unfolding notify paracooba.SendQueue.deregister paracooba.SendQueue.count_message
notify-kept alive kind q = ground arith

-- What is queued, and that the queue is there still.
pub send-queued :
    (c : Config) (alive : Bool) (n : ℕ) (status : Status) (q : SendQueue)
    → q.dropped ≡ false
    → let r = send alive false (ack_entry_of c n status) q in
      (r.queued ≡ q.queued ++ ack_entry_of c n status ∷ []) × (r.dropped ≡ false)
unfolding send enqueue ack_entry_of
send-queued c alive n status q d =
    let x = ack_entry_of c n status in
    let k = notify-kept alive ack (record q { queued = q.queued ++ x ∷ [] }) in
    let eq = if_false q.dropped q (notify alive false x.kind (enqueue false x q)) d in
    (ap (λ r. r.queued) eq ∙ k.0, ap (λ r. r.dropped) eq ∙ (k.1 ∙ d))

-- An acknowledgement is queued.
pub send_ack-Took :
    (c : Config) (e : Env) (n : ℕ) (status : Status) (s : Connection)
    → IsUsable s
    → Took [] (ack_entry_of c n status ∷ []) s (send_ack c e n status s)
unfolding send_ack
send_ack-Took c e n status s v =
    let k = send-queued c e.alive n status s.queue v.not_dropped in
    if_intro (Took [] (ack_entry_of c n status ∷ []) s) s.registered _ s
      (λ _. record {
        usable = record { registered = v.registered; not_killed = v.not_killed; not_dropped = k.1 };
        delivered = sym (append-nil s.delivered);
        acks = k.0;
      })
      (λ r. absurd (bools_differ (sym v.registered ∙ r)))

-- The last two steps of a packet.
pub note_read-Took : (e : Env) (s : Connection) → IsUsable s → Took [] [] s (note_read e s)
unfolding note_read paracooba.SendQueue.Tick.notify_of_read
note_read-Took e s v =
    let same = λ (t : Connection). Took [] [] s t in
    if_intro same s.registered _ s
      (λ _. record {
        usable = record {
          registered = v.registered;
          not_killed = v.not_killed;
          not_dropped = v.not_dropped;
        };
        delivered = sym (append-nil s.delivered);
        acks = sym (append-nil s.queue.queued);
      })
      (λ _. record {
        usable = v;
        delivered = sym (append-nil s.delivered);
        acks = sym (append-nil s.queue.queued);
      })

pub read_next-Took :
    (s : Connection)
    → IsUsable s
    → Took [] [] s (read_next s) × ((read_next s).read_place ≡ at_header)
unfolding read_next
read_next-Took s v =
    let P = λ (t : Connection). Took [] [] s t × (t.read_place ≡ at_header) in
    if_intro P s.killed _ _ (λ k. absurd (bools_differ (sym k ∙ v.not_killed)))
      (λ _. (
        record {
          usable = record {
            registered = v.registered;
            not_killed = v.not_killed;
            not_dropped = v.not_dropped;
          };
          delivered = sym (append-nil s.delivered);
          acks = sym (append-nil s.queue.queued);
        },
        refl,
      ))
