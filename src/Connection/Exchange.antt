-- ===== src/Connection/Exchange.antt =====
-- Both ends of a connection together (modules/communicator/tcp_connection.cpp).
use paracooba.Prelude.{ℕ, ◌≡◌, refl, ap, ◌∙◌, some, List, [], ◌++◌}
use paracooba.Status.{Status, ok}
use paracooba.SendQueue.{Entry, find, handle_ack, ack_entry}
use paracooba.Connection.{
  Config, Env, Connection, at_header, idle, ack_header, set_size, ack_entry_of,
}
use paracooba.Connection.Read.{handle_received_ack}
use paracooba.Connection.Write.{header_of}
use paracooba.Connection.Feed.{feed, IsRunning}
use paracooba.Connection.Stream.{IsUsable}
use paracooba.Connection.Transfer.{AreConnected}
use paracooba.Connection.Transfer.Frames.{AllSendable, frames, received, replies, feed-frames}
use paracooba.Connection.Writes.Progress.{complete, complete-frames}

-- Between two nodes with the same layout of structs, whose packets are no acknowledgements and no
-- end tags, with messages and files of at most 100 million bytes, file names of at most 254
-- characters and no connection that is aborted, where both ends run, with connections that are
-- not killed and are registered with queues that are not dropped: from an idle connection, a
-- number of completed writes writes everything that is queued and empties the queue, and on these
-- bytes a number of calls of the other end's read handler, which waits for a header, takes them
-- all, hands over each message and each file, whole, in their order, and queues an
-- acknowledgement with its number for each of them.
pub complete-feed :
    (a b : Config) (d e : Env) (s r : Connection)
    → AreConnected a b
    → IsRunning d
    → IsRunning e
    → IsUsable s
    → s.write_place ≡ idle
    → AllSendable a s.queue.queued
    → IsUsable r
    → r.read_place ≡ at_header
    → (n m : ℕ) × (bytes : List ℕ) × let t = complete n a d s in
        let (u, rest) = feed m b e bytes r in
        (t.written ≡ s.written ++ bytes)
        × (t.queue.queued ≡ [])
        × (rest ≡ [])
        × (u.delivered ≡ r.delivered ++ received a b s.queue.queued)
        × (u.queue.queued ≡ r.queue.queued ++ replies a b r.delivered s.queue.queued)
complete-feed a b d e s r l rd re us p v ur q =
    let xs = s.queue.queued in
    let (n, w) = complete-frames a d s rd us.not_killed us.registered p in
    let (m, u, f, ds, ks, place) = feed-frames a b e xs r l re v ur q in
    (
      n,
      m,
      frames a xs,
      (
        w.0,
        w.1,
        ap (λ t. t.1) f,
        ap (λ t. t.0.delivered) f ∙ ds,
        ap (λ t. t.0.queue.queued) f ∙ ks,
      ),
    )

-- Whatever status a message was answered with, the acknowledgement of it tells the sender, for an
-- entry that waits with this number, that it is ok: the constructor of the acknowledgement
-- overwrites the status with the size 0, which shares its memory.
pub handle_received_ack-ok :
    (b : Config) (n : ℕ) (status : Status) (s : Connection) (x : Entry)
    → find n s.queue.waiting_for_ack ≡ some x
    → handle_received_ack (header_of b (ack_entry_of b n status)) s
      ≡ some (record s { queue = ack_entry n x ok s.queue })
unfolding handle_received_ack header_of ack_entry_of ack_header set_size handle_ack
handle_received_ack-ok b n status s x h = rw (handle_received_ack, h) refl
