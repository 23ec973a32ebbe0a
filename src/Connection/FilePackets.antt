-- ===== src/Connection/FilePackets.antt =====
-- A file through the read handler of modules/communicator/tcp_connection.cpp.
use paracooba.Prelude.{
  ℕ, zero, suc, ◌+◌, ◌≤◌, ◌≡◌, refl, sym, ap, ◌∙◌, true, false, List, [], ◌∷◌, ◌++◌, length, take,
  drop, append-nil, append_assoc, take-append-drop, length-take, length-drop, ltb, if_true,
  if_false, arith,
}
use Prim.Native.Nat.{min}
use mathlib.Core.Path.{subst}
use paracooba.Messages.{is_ack, is_file}
use paracooba.Connection.{
  Config, Env, Connection, Header, IsLayout, FilePath, Delivery, file_from, at_header,
  at_file_header, at_file_chunk, send_ack, ack_entry_of,
}
use paracooba.Connection.Read.{
  resume_at, wanted_at, note_read, read_next, read_header, read_file_chunks, handle_received_file,
  handle_received_file_start, path_of, handle_received_file_chunk,
}
use paracooba.Connection.Feed.{Feeds, Feeds-refl, Feeds-join, Feeds-step, IsRunning}
use paracooba.Connection.Stream.{
  IsUsable, Took, Took-trans, send_ack-Took, note_read-Took, read_next-Took,
}
use paracooba.Connection.Packets.{Passes, note_read-kept, header-Feeds, noted-Took}

-- Of a file from the originator o, announced with the number n, so many bytes are there and m are
-- still to come.
pub record IsReceiving (o n : ℕ) (path : FilePath) (there : List ℕ) (hist : List Delivery) (m : ℕ)
    (s : Connection) : Type 0 where
  pub originator : s.header.originator ≡ o
  pub number : s.header.number ≡ n
  pub left : s.header.content ≡ m
  pub target : s.read_file.path ≡ path
  pub bytes : s.read_file.bytes ≡ there
  pub delivered : s.delivered ≡ hist

-- A file that is there as a whole.
read_file_chunks-end :
    (c : Config) (e : Env) (o n : ℕ) (path : FilePath) (there : List ℕ) (hist : List Delivery)
    (s : Connection)
    → IsUsable s
    → IsReceiving o n path there hist 0 s
    → let d = file_from o path there in
      let t = read_file_chunks c e s in
      Took (d ∷ []) (ack_entry_of c n (c.answer hist d) ∷ []) s t × (t.read_place ≡ at_header)
unfolding read_file_chunks handle_received_file
read_file_chunks-end c e o n path there hist s w v =
    let d = file_from s.header.originator s.read_file.path s.read_file.bytes in
    let status = c.answer s.delivered d in
    let t = record s { delivered = s.delivered ++ d ∷ [] } in
    let first : Took (d ∷ []) [] s t = record {
      usable = record {
        registered = w.registered;
        not_killed = w.not_killed;
        not_dropped = w.not_dropped;
      };
      delivered = refl;
      acks = sym (append-nil s.queue.queued);
    } in
    let second = Took-trans first (send_ack-Took c e s.header.number status t first.usable) in
    let u = send_ack c e s.header.number status t in
    let last = read_next-Took u second.usable in
    let none_left : ltb 0 s.header.content ≡ false = ground (arith, v.left) in
    let whole : read_file_chunks c e s ≡ read_next u =
      if_false (ltb 0 s.header.content) _ _ none_left in
    let same : d ≡ file_from o path there = cc (v.originator, v.target, v.bytes) in
    let replied : ack_entry_of c s.header.number status
        ≡ ack_entry_of c n (c.answer hist (file_from o path there)) =
      cc (same, v.number, v.delivered) in
    let ks = ack_entry_of c n (c.answer hist (file_from o path there)) ∷ [] in
    subst (λ r. Took (file_from o path there ∷ []) ks s r × (r.read_place ≡ at_header)) (sym whole)
      (
        subst (λ x. Took (x ∷ []) ks s (read_next u)) same
            (subst (λ k. Took (d ∷ []) (k ∷ []) s (read_next u)) replied
              (Took-trans second last.0)),
        last.1,
      )

-- A chunk is read, and what is left follows.
chunk-IsReceiving :
    (e : Env) (o n : ℕ) (path : FilePath) (there xs ys : List ℕ) (hist : List Delivery)
    (s : Connection)
    → IsUsable s
    → IsReceiving o n path there hist (length xs + length ys) s
    → let t =
        handle_received_file_chunk xs (note_read e (record s { read_place = at_file_chunk })) in
      IsReceiving o n path (there ++ xs) hist (length ys) t × Took [] [] s t
unfolding handle_received_file_chunk
chunk-IsReceiving e o n path there xs ys hist s w v =
    let s1 = record s { read_place = at_file_chunk } in
    let k = note_read-Took e s1 (record {
      registered = w.registered;
      not_killed = w.not_killed;
      not_dropped = w.not_dropped;
    }) in
    let (h, d, f) = note_read-kept e s1 in
    let left : (note_read e s1).header.content ≡ length xs + length ys =
      ap (λ g. g.content) h ∙ v.left in
    (
      record {
        originator = ap (λ g. g.originator) h ∙ v.originator;
        number = ap (λ g. g.number) h ∙ v.number;
        left = omega (arith, left);
        target = ap (λ g. g.path) f ∙ v.target;
        bytes = ap (λ bs. bs ++ xs) (ap (λ g. g.bytes) f ∙ v.bytes);
        delivered = d ∙ v.delivered;
      },
      record {
        usable = record {
          registered = k.usable.registered;
          not_killed = k.usable.not_killed;
          not_dropped = k.usable.not_dropped;
        };
        delivered = k.delivered;
        acks = k.acks;
      },
    )

-- The loop takes all chunks; k bounds the number of bytes.
chunks-Passes :
    (k : ℕ) (c : Config) (e : Env) (o n : ℕ) (path : FilePath) (there xs rest : List ℕ)
    (hist : List Delivery) (s : Connection)
    → length xs ≤ k
    → IsRunning e
    → IsUsable s
    → IsReceiving o n path there hist (length xs) s
    → let d = file_from o path (there ++ xs) in
      Passes c e xs rest
        (d ∷ [])
        (ack_entry_of c n (c.answer hist d) ∷ [])
        (read_file_chunks c e s)
        s
unfolding read_file_chunks resume_at wanted_at
chunks-Passes k c e o n path there [] rest hist s le r w v =
    let end = read_file_chunks-end c e o n path there hist s w v in
    let d = λ (bs : List ℕ). file_from o path bs in
    subst
      (λ bs.
        Passes c e [] rest (d bs ∷ []) (ack_entry_of c n (c.answer hist (d bs)) ∷ [])
          (read_file_chunks c e s) s)
      (sym (append-nil there))
      (record {
        target = read_file_chunks c e s;
        feeds = Feeds-refl c e rest (read_file_chunks c e s);
        took = end.0;
        place = end.1;
      })
chunks-Passes zero c e o n path there (x ∷ xs) rest hist s le r w v = absurd (omega (arith, le))
chunks-Passes (suc k) c e o n path there (x ∷ xs) rest hist s le r w v =
    let bs = x ∷ xs in
    let front = take 4096 bs in
    let back = drop 4096 bs in
    let lf = length-take 4096 bs in
    let lb = length-drop 4096 bs in
    let size : length bs ≡ length front + length back = omega (arith, lf, lb) in
    let less : length back ≤ k = omega (arith, lb, le) in
    let s1 = record s { read_place = at_file_chunk } in
    let step =
      chunk-IsReceiving e o n path there front back hist s w
        (subst (λ m. IsReceiving o n path there hist m s) size v) in
    let s2 = handle_received_file_chunk front (note_read e s1) in
    let more : ltb 0 s.header.content ≡ true = ground (arith, v.left) in
    let begin : read_file_chunks c e s ≡ s1 = if_true (ltb 0 s.header.content) _ _ more in
    let asked : length front ≡ min 4096 s.header.content = omega (arith, lf, v.left) in
    let one = Feeds-step c e front (back ++ rest) s1 r refl asked in
    let all =
      chunks-Passes k c e o n path (there ++ front) back rest hist s2 less r step.1.usable step.0 in
    let whole : (there ++ front) ++ back ≡ there ++ bs =
      append_assoc there front back ∙ ap (λ zs. there ++ zs) (take-append-drop 4096 bs) in
    let d = λ (zs : List ℕ). file_from o path zs in
    let join =
      Feeds-join c e front back rest s1 (read_file_chunks c e s2) all.target one all.feeds in
    subst
      (λ zs.
        Passes c e bs rest (d zs ∷ []) (ack_entry_of c n (c.answer hist (d zs)) ∷ [])
          (read_file_chunks c e s) s)
      whole
      (record {
        target = all.target;
        feeds =
            subst (λ u. Feeds c e (bs ++ rest) u rest all.target) (sym begin)
              (subst (λ zs. Feeds c e (zs ++ rest) s1 rest all.target) (take-append-drop 4096 bs)
                join);
        took = Took-trans step.1 all.took;
        place = all.place;
      })

-- A file with its two headers.
pub file-Passes :
    (c : Config) (e : Env) (h : Header) (name bytes rest : List ℕ) (s : Connection)
    → IsLayout c.layout
    → IsRunning e
    → IsUsable s
    → s.read_place ≡ at_header
    → is_ack h.kind ≡ false
    → is_file h.kind ≡ true
    → length name ≡ 255
    → length bytes ≡ h.content
    → let d = file_from h.originator (path_of c h.originator name) bytes in
      Passes c e
        (c.layout.encode_header h ++ (name ++ bytes))
        rest
        (d ∷ [])
        (ack_entry_of c h.number (c.answer s.delivered d) ∷ [])
        s
        s
unfolding resume_at wanted_at read_header handle_received_file_start path_of
file-Passes c e h name bytes rest s l r w p a f ln lb =
    let t = note_read e (record s { header = h }) in
    let s1 = record t { read_place = at_file_header } in
    let (kh, kd, kf) = note_read-kept e (record s { header = h }) in
    let k = noted-Took e h s w in
    let s2 = handle_received_file_start c name s1 in
    let first : Took [] [] s s2 = record {
      usable = record {
        registered = k.usable.registered;
        not_killed = k.usable.not_killed;
        not_dropped = k.usable.not_dropped;
      };
      delivered = k.delivered;
      acks = k.acks;
    } in
    let whole : read_header c e h s ≡ s1 =
      if_false (is_ack h.kind) _ _ a ∙ if_true (is_file h.kind) _ _ f in
    let xs = c.layout.encode_header h in
    let ys = (name ++ bytes) ++ rest in
    let header = subst (λ u. Feeds c e (xs ++ ys) s ys u) whole (header-Feeds c e h ys s l r p) in
    let start = Feeds-step c e name (bytes ++ rest) s1 r refl ln in
    let v : IsReceiving h.originator h.number (path_of c h.originator name) [] s.delivered
        (length bytes) s2 =
      record {
        originator = ap (λ g. g.originator) kh;
        number = ap (λ g. g.number) kh;
        left = ap (λ g. g.content) kh ∙ sym lb;
        target = ap (λ g. path_of c g.originator name) kh;
        bytes = refl;
        delivered = kd;
      } in
    let all =
      chunks-Passes (length bytes) c e h.originator h.number (path_of c h.originator name) [] bytes
        rest s.delivered s2 (omega arith) r first.usable v in
    record {
      target = all.target;
      feeds =
          Feeds-join c e xs (name ++ bytes) rest s s1 all.target header (
            Feeds-join c e name bytes rest s1 (read_file_chunks c e s2) all.target start all.feeds);
      took = Took-trans first all.took;
      place = all.place;
    }
