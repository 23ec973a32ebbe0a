-- ===== src/Connection/Packets.antt =====
-- One packet after the other through the read handler of modules/communicator/tcp_connection.cpp.
use paracooba.Prelude.{
  ℕ, ◌≤◌, ◌≡◌, refl, sym, ap, ◌∙◌, true, false, not, ◌||◌, List, [], ◌∷◌, ◌++◌, length, append-nil,
  ltb, ◌==◌, if_true, if_false, if_intro, arith,
}
use mathlib.Core.Path.{subst}
use paracooba.Status.{◌is◌, abort_connection}
use paracooba.Messages.{is_ack, is_file, is_end, is_keepalive}
use paracooba.SendQueue.{Entry}
use paracooba.Connection.{
  Config, Env, Connection, Header, IsLayout, Delivery, message_from, at_header, at_body, send_ack,
  ack_entry_of,
}
use paracooba.Connection.Read.{
  resume_at, wanted_at, after_message, max_buf_size, note_read, read_next, read_header, read_body,
  handle_received_message,
}
use paracooba.Connection.Feed.{Feeds, Feeds-join, Feeds-step, IsRunning, is_ended}
use paracooba.Connection.Stream.{
  IsUsable, Took, Took-trans, send_ack-Took, note_read-Took, read_next-Took,
}

-- From u the bytes xs are taken, whatever comes after them; since s this is delivered and this
-- acknowledged, and the connection waits for a packet.
pub record Passes (c : Config) (e : Env) (xs rest : List ℕ) (ds : List Delivery) (ks : List Entry)
    (u s : Connection) : Type 0 where
  pub target : Connection
  pub feeds : Feeds c e (xs ++ rest) u rest target
  pub took : Took ds ks s target
  pub place : target.read_place ≡ at_header

pub note_read-kept :
    (e : Env) (s : Connection)
    → ((note_read e s).header ≡ s.header)
      × ((note_read e s).delivered ≡ s.delivered)
      × ((note_read e s).read_file ≡ s.read_file)
unfolding note_read
note_read-kept e s =
    if_intro
      (λ (t : Connection).
        (t.header ≡ s.header) × (t.delivered ≡ s.delivered) × (t.read_file ≡ s.read_file))
      s.registered _ s (λ _. (refl, refl, refl)) (λ _. (refl, refl, refl))

-- The header of a message.
read_header-message :
    (c : Config) (e : Env) (h : Header) (s : Connection)
    → IsUsable s
    → (is_ack h.kind ≡ false) × (is_file h.kind ≡ false)
    → (is_end h.kind ≡ false) × (is_keepalive h.kind ≡ false)
    → h.content ≤ max_buf_size
    → read_header c e h s ≡ record (note_read e (record s { header = h })) { read_place = at_body }
unfolding read_header
read_header-message c e h s v (a, f) (n, k) le =
    let t = note_read e (record s { header = h }) in
    let w : IsUsable t =
      (note_read-Took e (record s { header = h })
        (record {
          registered = v.registered;
          not_killed = v.not_killed;
          not_dropped = v.not_dropped;
        })).usable in
    let big : (not t.registered || ltb max_buf_size h.content) ≡ false =
      ground (arith, w.registered, le) in
    if_false (is_ack h.kind) _ _ a
    ∙ if_false (is_file h.kind) _ _ f
    ∙ if_false (is_end h.kind) _ _ n
    ∙ if_false (is_keepalive h.kind) _ _ k
    ∙ if_false (not t.registered || ltb max_buf_size h.content) _ _ big

read_body-Took :
    (c : Config) (e : Env) (bytes : List ℕ) (s : Connection)
    → IsUsable s
    → length bytes ≡ s.header.content
    → let v = message_from s.header.kind s.header.originator bytes in
      let status = c.answer s.delivered v in
      let t = read_body c e bytes s in
      (status is abort_connection) ≡ false
      → Took (v ∷ []) (ack_entry_of c s.header.number status ∷ []) s t × (t.read_place ≡ at_header)
unfolding read_body handle_received_message after_message
read_body-Took c e bytes s w l h =
    let v = message_from s.header.kind s.header.originator bytes in
    let status = c.answer s.delivered v in
    let t = record s { delivered = s.delivered ++ v ∷ [] } in
    let first : Took (v ∷ []) [] s t = record {
      usable = record {
        registered = w.registered;
        not_killed = w.not_killed;
        not_dropped = w.not_dropped;
      };
      delivered = refl;
      acks = sym (append-nil s.queue.queued);
    } in
    let second = Took-trans first (send_ack-Took c e s.header.number status t first.usable) in
    let u = send_ack c e s.header.number status t in
    let third = Took-trans second (note_read-Took e u second.usable) in
    let last = read_next-Took (note_read e u) third.usable in
    let ok : not (length bytes == s.header.content) ≡ false = ground (arith, l) in
    let going : handle_received_message c e bytes s ≡ (true, u) =
      if_false (status is abort_connection) _ _ h in
    let whole : read_body c e bytes s ≡ read_next (note_read e u) =
      if_false (not (length bytes == s.header.content)) _ _ ok ∙ ap (after_message e) going in
    subst
      (λ t.
        Took (v ∷ []) (ack_entry_of c s.header.number status ∷ []) s t × (t.read_place ≡ at_header))
      (sym whole) (Took-trans third last.0, last.1)

-- The header of a packet is read.
pub header-Feeds :
    (c : Config) (e : Env) (h : Header) (rest : List ℕ) (s : Connection)
    → IsLayout c.layout
    → IsRunning e
    → s.read_place ≡ at_header
    → Feeds c e (c.layout.encode_header h ++ rest) s rest (read_header c e h s)
unfolding resume_at wanted_at
header-Feeds c e h rest s l r p =
    let xs = c.layout.encode_header h in
    let size : length xs ≡ wanted_at s.read_place c s =
      l.header_length h ∙ sym (ap (λ q. wanted_at q c s) p) in
    let whole : resume_at s.read_place c e xs s ≡ read_header c e h s =
      ap (λ q. resume_at q c e xs s) p ∙ ap (λ g. read_header c e g s) (l.header_back h) in
    subst (λ t. Feeds c e (xs ++ rest) s rest t) whole
      (Feeds-step c e xs rest s r (ap is_ended p) size)

-- After a header, nothing but it changed.
pub noted-Took :
    (e : Env) (h : Header) (s : Connection)
    → IsUsable s
    → Took [] [] s (note_read e (record s { header = h }))
noted-Took e h s v =
    let k =
      note_read-Took e (record s { header = h })
        (record {
          registered = v.registered;
          not_killed = v.not_killed;
          not_dropped = v.not_dropped;
        }) in
    record { usable = k.usable; delivered = k.delivered; acks = k.acks }

-- A message with its header.
pub message-Passes :
    (c : Config) (e : Env) (h : Header) (bytes rest : List ℕ) (s : Connection)
    → IsLayout c.layout
    → IsRunning e
    → IsUsable s
    → s.read_place ≡ at_header
    → (is_ack h.kind ≡ false) × (is_file h.kind ≡ false)
    → (is_end h.kind ≡ false) × (is_keepalive h.kind ≡ false)
    → length bytes ≡ h.content
    → h.content ≤ max_buf_size
    → let v = message_from h.kind h.originator bytes in
      let status = c.answer s.delivered v in
      (status is abort_connection) ≡ false
      → Passes c e
          (c.layout.encode_header h ++ bytes)
          rest
          (v ∷ [])
          (ack_entry_of c h.number status ∷ [])
          s
          s
unfolding resume_at wanted_at
message-Passes c e h bytes rest s l r w p af nk size le ok =
    let t = note_read e (record s { header = h }) in
    let s1 = record t { read_place = at_body } in
    let same = note_read-kept e (record s { header = h }) in
    let k = noted-Took e h s w in
    let first : Took [] [] s s1 = record {
      usable = record {
        registered = k.usable.registered;
        not_killed = k.usable.not_killed;
        not_dropped = k.usable.not_dropped;
      };
      delivered = k.delivered;
      acks = k.acks;
    } in
    let header : Feeds c e (c.layout.encode_header h ++ (bytes ++ rest)) s (bytes ++ rest) s1 =
      subst (λ u. Feeds c e (c.layout.encode_header h ++ (bytes ++ rest)) s (bytes ++ rest) u)
        (read_header-message c e h s w af nk le) (header-Feeds c e h (bytes ++ rest) s l r p) in
    let body = Feeds-step c e bytes rest s1 r refl (size ∙ ap (λ g. g.content) (sym same.0)) in
    let P = λ (g : Header) (hist : List Delivery).
      let v = message_from g.kind g.originator bytes in
      let status = c.answer hist v in
      (status is abort_connection) ≡ false
      → Took (v ∷ []) (ack_entry_of c g.number status ∷ []) s1 (read_body c e bytes s1)
        × ((read_body c e bytes s1).read_place ≡ at_header) in
    let at_s1 : P s1.header s1.delivered =
      read_body-Took c e bytes s1 first.usable (size ∙ ap (λ g. g.content) (sym same.0)) in
    let last = subst (λ g. P g s.delivered) same.0 (subst (λ d. P s1.header d) same.1 at_s1) ok in
    record {
      target = read_body c e bytes s1;
      feeds = Feeds-join c e (c.layout.encode_header h) bytes rest s s1 _ header body;
      took = Took-trans first last.0;
      place = last.1;
    }

-- A keepalive.
pub keepalive-Passes :
    (c : Config) (e : Env) (h : Header) (rest : List ℕ) (s : Connection)
    → IsLayout c.layout
    → IsRunning e
    → IsUsable s
    → s.read_place ≡ at_header
    → (is_ack h.kind ≡ false) × (is_file h.kind ≡ false)
    → (is_end h.kind ≡ false) × (is_keepalive h.kind ≡ true)
    → Passes c e (c.layout.encode_header h) rest [] [] s s
unfolding read_header
keepalive-Passes c e h rest s l r w p (a, f) (n, k) =
    let t = note_read e (record s { header = h }) in
    let first = noted-Took e h s w in
    let last = read_next-Took t first.usable in
    let whole : read_header c e h s ≡ read_next t =
      if_false (is_ack h.kind) _ _ a
      ∙ if_false (is_file h.kind) _ _ f
      ∙ if_false (is_end h.kind) _ _ n
      ∙ if_true (is_keepalive h.kind) _ _ k in
    record {
      target = read_next t;
      feeds =
          subst (λ u. Feeds c e (c.layout.encode_header h ++ rest) s rest u) whole
            (header-Feeds c e h rest s l r p);
      took = Took-trans first last.0;
      place = last.1;
    }
