-- ===== src/Connection/Transfer.antt =====
-- What one end of a connection writes and the other end reads
-- (modules/communicator/tcp_connection.cpp).
pub mod Frames
use paracooba.Prelude.{
  ℕ, zero, suc, ◌+◌, ◌-◌, ◌≤◌, ◌<◌, ◌≡◌, ◌≢◌, refl, sym, ap, ◌∙◌, Bool, true, false, not, none,
  some, List, [], ◌∷◌, ◌++◌, length, take, drop, append-nil, length-append, length-take,
  length-drop, ltb, ◌==◌, if◌then◌else◌, if_true, if_false, Bool-cases, inl, inr, arith,
}
use mathlib.Core.Path.{subst}
use paracooba.Status.{◌is◌, abort_connection}
use paracooba.Messages.{MessageKind, keepalive, is_ack, is_file, is_end, is_keepalive}
use paracooba.SendQueue.{Entry}
use paracooba.Connection.{
  Config, Env, Connection, Layout, IsLayout, Delivery, file_from, message_from, at_header,
  ack_entry_of,
}
use paracooba.Connection.Files.{read_name, file_header, strcpy, compact}
use paracooba.Connection.Read.{max_buf_size, path_of}
use paracooba.Connection.Write.{header_of, is_header_only}
use paracooba.Connection.Feed.{IsRunning}
use paracooba.Connection.Stream.{IsUsable, content_of, frame}
use paracooba.Connection.Packets.{Passes, message-Passes, keepalive-Passes}
use paracooba.Connection.FilePackets.{file-Passes}

-- No zero among the characters.
abbrev pub AllNonZero : List ℕ → Type 0
AllNonZero [] = Unit {0}
AllNonZero (x ∷ xs) = (x ≢ 0) × AllNonZero xs

-- A name that its header keeps.
pub record IsName (name : List ℕ) : Type 0 where
  pub size : length name ≤ 254
  pub characters : AllNonZero name

-- A message, a file or a keepalive that the other end takes.
pub record IsSendable (c : Config) (x : Entry) : Type 0 where
  pub not_ack : is_ack x.kind ≡ false
  pub not_end : is_end x.kind ≡ false
  pub size : length (c.value x.body).bytes ≤ max_buf_size
  pub name : IsName (c.value x.body).name

-- What the receiver b hands over of an entry of a.
unfoldable pub delivery_of : (a b : Config) → Entry → List Delivery
delivery_of a b x =
    let v = a.value x.body in
    if is_keepalive x.kind
    then []
    else if is_file x.kind
    then file_from v.originator
        (record {
          directory = if v.originator == b.own then none else some v.originator;
          name = v.name;
        })
        v.bytes
      ∷ []
    else message_from x.kind v.originator v.bytes ∷ []

-- The acknowledgement of each delivery, after those in hist.
unfoldable pub acks_of : (b : Config) → (number : ℕ) → (hist ds : List Delivery) → List Entry
acks_of b n hist [] = []
acks_of b n hist (d ∷ ds) = ack_entry_of b n (b.answer hist d) ∷ acks_of b n (hist ++ d ∷ []) ds

read_name-header :
    (memory name rest : List ℕ)
    → AllNonZero name
    → (n : ℕ) → length name < n
    → read_name (take n (name ++ 0 ∷ rest)) ≡ name
unfolding read_name
read_name-header memory [] rest z (suc n) h = refl
read_name-header memory [] rest z zero h = absurd (omega (arith, h))
read_name-header memory (x ∷ xs) rest z zero h = absurd (omega (arith, h))
read_name-header memory (x ∷ xs) rest z (suc n) h =
    let k : (x == 0) ≡ false = ground (arith, z.0) in
    if_false (x == 0) _ _ k
    ∙ ap (λ ys. x ∷ ys) (read_name-header memory xs rest z.1 n (omega arith))

-- A file's name that is written to the header is read from it.
pub read_name-file_header :
    (memory name : List ℕ)
    → IsName name
    → 255 ≤ length memory
    → (read_name (file_header memory name) ≡ name) × (length (file_header memory name) ≡ 255)
unfolding file_header strcpy compact
read_name-file_header memory name v h =
    let small : ltb 255 (length name) ≡ false = ground (arith, v.size) in
    let whole : compact name ≡ name = if_false (ltb 255 (length name)) _ _ small in
    let rest = drop (suc (length name)) memory in
    let long = length-drop (suc (length name)) memory in
    let size = length-append name (0 ∷ rest) in
    subst
      (λ xs.
        (read_name (take 255 (xs ++ 0 ∷ drop (suc (length xs)) memory)) ≡ name)
        × (length (take 255 (xs ++ 0 ∷ drop (suc (length xs)) memory)) ≡ 255))
      (sym whole)
      (
        read_name-header memory name rest v.characters 255 (omega (arith, v.size)),
        omega (arith, length-take 255 (name ++ 0 ∷ rest), size, long, h, v.size),
      )

-- The nodes a and b lay out their structs alike, a file's header has 255 bytes, and b aborts no
-- connection.
pub record AreConnected (a b : Config) : Type 0 where
  pub layout : a.layout ≡ b.layout
  pub laws : IsLayout b.layout
  pub memory : 255 ≤ length a.memory
  pub accepts :
      (hist : List Delivery) (d : Delivery) → (b.answer hist d is abort_connection) ≡ false

-- The bytes of an entry of each kind.
frame-keepalive :
    (a b : Config) (x : Entry)
    → a.layout ≡ b.layout
    → is_header_only x.kind ≡ true
    → frame a x ≡ b.layout.encode_header (header_of a x)
unfolding frame content_of
frame-keepalive a b x l k =
    let c = if_true (is_header_only x.kind) _ _ k in
    ap (λ ys. a.layout.encode_header (header_of a x) ++ ys) c
    ∙ append-nil (a.layout.encode_header (header_of a x))
    ∙ ap (λ m. m.encode_header (header_of a x)) l

frame-file :
    (a b : Config) (x : Entry)
    → a.layout ≡ b.layout
    → is_header_only x.kind ≡ false
    → is_file x.kind ≡ true
    → let v = a.value x.body in
      frame a x ≡ b.layout.encode_header (header_of a x) ++ (file_header a.memory v.name ++ v.bytes)
unfolding frame content_of
frame-file a b x l k f =
    let v = a.value x.body in
    let bytes = file_header a.memory v.name ++ v.bytes in
    let c = if_false (is_header_only x.kind) [] _ k ∙ if_true (is_file x.kind) bytes v.bytes f in
    ap (λ ys. a.layout.encode_header (header_of a x) ++ ys) c
    ∙ ap (λ m. m.encode_header (header_of a x) ++ bytes) l

frame-message :
    (a b : Config) (x : Entry)
    → a.layout ≡ b.layout
    → is_header_only x.kind ≡ false
    → is_file x.kind ≡ false
    → frame a x ≡ b.layout.encode_header (header_of a x) ++ (a.value x.body).bytes
unfolding frame content_of
frame-message a b x l k f =
    let v = a.value x.body in
    let bytes = file_header a.memory v.name ++ v.bytes in
    let c = if_false (is_header_only x.kind) [] _ k ∙ if_false (is_file x.kind) bytes v.bytes f in
    ap (λ ys. a.layout.encode_header (header_of a x) ++ ys) c
    ∙ ap (λ m. m.encode_header (header_of a x) ++ v.bytes) l

keepalive_not_file : (k : MessageKind) → is_keepalive k ≡ true → is_file k ≡ false
keepalive_not_file keepalive h = refl
keepalive_not_file k h = ground arith

header_of-size :
    (a : Config) (x : Entry)
    → is_ack x.kind ≡ false
    → (header_of a x).content ≡ length (a.value x.body).bytes
unfolding header_of
header_of-size a x h = if_false (is_ack x.kind) _ _ h

-- The bytes of one entry.
pub entry-Passes :
    (a b : Config) (e : Env) (x : Entry) (rest : List ℕ) (s : Connection)
    → AreConnected a b
    → IsRunning e
    → IsSendable a x
    → IsUsable s
    → s.read_place ≡ at_header
    → Passes b e
        (frame a x)
        rest
        (delivery_of a b x)
        (acks_of b x.number s.delivered (delivery_of a b x))
        s
        s
unfolding delivery_of acks_of header_of path_of
entry-Passes a b e x rest s l r v w p =
    let h = header_of a x in
    let val = a.value x.body in
    let size = header_of-size a x v.not_ack in
    let P = λ (xs : List ℕ) (ds : List Delivery).
      Passes b e xs rest ds (acks_of b x.number s.delivered ds) s s in
    elim (Bool-cases (is_keepalive x.kind)) [
      | inl k ↦
          let only : is_header_only x.kind ≡ true = ground (arith, k) in
          let f = keepalive_not_file x.kind k in
          subst (λ xs. P xs (delivery_of a b x)) (sym (frame-keepalive a b x l.layout only))
            (subst (P (b.layout.encode_header h)) (sym (if_true (is_keepalive x.kind) _ _ k))
              (keepalive-Passes b e h rest s l.laws r w p (v.not_ack, f) (v.not_end, k)))
      | inr k ↦
          let only : is_header_only x.kind ≡ false = ground (arith, v.not_ack, v.not_end, k) in
          elim (Bool-cases (is_file x.kind)) [
            | inl f ↦
                let named = read_name-file_header a.memory val.name v.name l.memory in
                let d = λ (name : List ℕ).
                  file_from val.originator
                    (record {
                      directory = if val.originator == b.own then none else some val.originator;
                      name = name;
                    })
                    val.bytes
                  ∷ [] in
                subst (λ xs. P xs (delivery_of a b x)) (sym (frame-file a b x l.layout only f))
                  (subst
                    (P (b.layout.encode_header h ++ (file_header a.memory val.name ++ val.bytes)))
                    (ap d named.0
                      ∙ sym (if_false (is_keepalive x.kind) _ _ k ∙ if_true (is_file x.kind) _ _ f))
                    (file-Passes b e h (file_header a.memory val.name) val.bytes rest s l.laws r w p
                      v.not_ack f named.1 (sym size)))
            | inr f ↦
                subst (λ xs. P xs (delivery_of a b x)) (sym (frame-message a b x l.layout only f))
                  (subst (P (b.layout.encode_header h ++ val.bytes))
                    (sym (if_false (is_keepalive x.kind) _ _ k ∙ if_false (is_file x.kind) _ _ f))
                    (message-Passes b e h val.bytes rest s l.laws r w p (v.not_ack, f)
                      (v.not_end, k) (sym size) (subst (λ m. m ≤ max_buf_size) (sym size) v.size)
                      (l.accepts _ _)))
          ]
    ]
