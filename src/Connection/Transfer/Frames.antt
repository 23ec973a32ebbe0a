-- ===== src/Connection/Transfer/Frames.antt =====
-- All entries of a list from one end of a connection to the other
-- (modules/communicator/tcp_connection.cpp).
use paracooba.Prelude.{ℕ, ◌+◌, ◌≡◌, sym, ap, ◌∙◌, List, [], ◌∷◌, ◌++◌, append-nil, arith}
use mathlib.Core.Path.{subst}
use paracooba.SendQueue.{Entry}
use paracooba.Connection.{Config, Env, Connection, Delivery, at_header}
use paracooba.Connection.Feed.{feed, Feeds-refl, Feeds-join, IsRunning}
use paracooba.Connection.Stream.{IsUsable, Took, Took-trans, frame}
use paracooba.Connection.Packets.{Passes}
use paracooba.Connection.Transfer.{IsSendable, AreConnected, delivery_of, acks_of, entry-Passes}

-- The bytes of the entries, one after the other.
unfoldable pub frames : Config → List Entry → List ℕ
unfolding frame
frames a [] = []
frames a (x ∷ xs) = frame a x ++ frames a xs

-- What the receiver hands over of them, and what it acknowledges after the deliveries hist.
unfoldable pub received : (a b : Config) → List Entry → List Delivery
unfolding delivery_of
received a b [] = []
received a b (x ∷ xs) = delivery_of a b x ++ received a b xs

unfoldable pub replies : (a b : Config) → (hist : List Delivery) → List Entry → List Entry
unfolding delivery_of acks_of
replies a b hist [] = []
replies a b hist (x ∷ xs) =
    acks_of b x.number hist (delivery_of a b x) ++ replies a b (hist ++ delivery_of a b x) xs

abbrev pub AllSendable : Config → List Entry → Type 0
AllSendable a [] = Unit {0}
AllSendable a (x ∷ xs) = IsSendable a x × AllSendable a xs

all-Passes :
    (a b : Config) (e : Env) (xs : List Entry) (rest : List ℕ) (s : Connection)
    → AreConnected a b
    → IsRunning e
    → AllSendable a xs
    → IsUsable s
    → s.read_place ≡ at_header
    → Passes b e (frames a xs) rest (received a b xs) (replies a b s.delivered xs) s s
unfolding frames received replies
all-Passes a b e [] rest s l r v w p = record {
  target = s;
  feeds = Feeds-refl b e rest s;
  took = record {
    usable = w;
    delivered = sym (append-nil s.delivered);
    acks = sym (append-nil s.queue.queued);
  };
  place = p;
}
all-Passes a b e (x ∷ xs) rest s l r v w p =
    let one = entry-Passes a b e x (frames a xs ++ rest) s l r v.0 w p in
    let t = one.target in
    let more = all-Passes a b e xs rest t l r v.1 one.took.usable one.place in
    let ds = delivery_of a b x in
    record {
      target = more.target;
      feeds = Feeds-join b e (frame a x) (frames a xs) rest s t more.target one.feeds more.feeds;
      took = Took-trans one.took (
          subst (λ hist. Took (received a b xs) (replies a b hist xs) t more.target)
            one.took.delivered more.took);
      place = more.place;
    }

-- The bytes of entries are taken as a whole.
pub feed-frames :
    (a b : Config) (e : Env) (xs : List Entry) (s : Connection)
    → AreConnected a b
    → IsRunning e
    → AllSendable a xs
    → IsUsable s
    → s.read_place ≡ at_header
    → (n : ℕ) × (t : Connection) × (feed n b e (frames a xs) s ≡ (t, []))
      × (t.delivered ≡ s.delivered ++ received a b xs)
      × (t.queue.queued ≡ s.queue.queued ++ replies a b s.delivered xs)
      × (t.read_place ≡ at_header)
unfolding feed
feed-frames a b e xs s l r v w p =
    let q = all-Passes a b e xs [] s l r v w p in
    let n = q.feeds.count in
    let whole : feed n b e (frames a xs) s ≡ (q.target, []) =
      let z : n + 0 ≡ n = omega arith in
      ap (λ zs. feed n b e zs s) (sym (append-nil (frames a xs)))
      ∙ ap (λ m. feed m b e (frames a xs ++ []) s) (sym z)
      ∙ q.feeds.reaches 0 in
    (n, q.target, whole, q.took.delivered, q.took.acks, q.place)
