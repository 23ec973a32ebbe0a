-- ===== src/Connection/Lifetime.antt =====
-- How a connection of modules/communicator/tcp_connection.cpp starts and ends, and when it is
-- established again.
use paracooba.Prelude.{
  ℕ, suc, ◌-◌, ◌≤◌, ◌<◌, ◌≡◌, ◌≢◌, sym, refl, Bool, true, false, not, ◌&&◌, Option, none, some,
  List, [], ◌∷◌, ltb, if◌then◌else◌, arith, Option-cases, inl, inr, Bool-cases,
}
use paracooba.Status.{connection_closed}
use paracooba.SendQueue.{SendQueue, Entry, Event, TransmitMode, init, end, finish, send, deregister}
use paracooba.Connection.{
  Config, Env, Connection, at_initiator, read_ended, initiator_sent, write_ended, ResumeMode,
  end_after_shutdown, restart_after_shutdown,
}

-- The state of a new connection; the coroutines have not run yet.
unfoldable pub initial_state : Config → SendQueue → Connection
initial_state c q = record {
  read_place = at_initiator;
  write_place = initiator_sent;
  header = c.blank;
  read_file = record { path = record { directory = none; name = [] }; bytes = [] };
  killed = false;
  resume_mode = elim c.connection_try [
    | none ↦ end_after_shutdown
    | some n ↦ restart_after_shutdown
  ];
  registered = false;
  queue = q;
  currently_sending = true;
  transmit_mode = init;
  closed = false;
  written = [];
  delivered = [];
}

-- The constructor: the write handler sends the initiator message, the read handler waits for one;
-- q is the queue that the service has for the remote.
unfoldable pub connect : Config → Env → SendQueue → Connection
unfolding initial_state
connect c e q =
    let s = initial_state c q in
    if e.stopped
    then record s { read_place = read_ended; write_place = write_ended; closed = true }
    else record s {
      written = c.layout.encode_initiator (record { sender_id = c.own; tcp_port = c.listen_port });
    }

-- TCPConnection::send: with no queue the callbacks are called at once.
unfoldable pub send_entry : Env → Entry → Connection → Connection × List Event
unfolding send
send_entry e x s =
    if s.registered
    then (record s { queue = send e.alive false x s.queue }, [])
    else (s, finish x connection_closed)

is_end_mode : TransmitMode → Bool
is_end_mode end = true
is_end_mode _ = false

-- ~TCPConnection: `last` is whether this is the last reference to the state, and x the end tag.
unfoldable pub release : Env → (last : Bool) → Entry → Connection → Connection
unfolding send_entry is_end_mode
release e last x s =
    if not e.stopped && not (is_end_mode s.transmit_mode) && last then (send_entry e x s).0 else s

-- The number of the next try: only the side that established the connection tries again.
unfoldable pub next_try : ResumeMode → (current : Option ℕ) → (retries : ℕ) → Option ℕ
next_try restart_after_shutdown (some n) retries = if ltb n retries then some (suc n) else none
next_try restart_after_shutdown none retries = none
next_try end_after_shutdown current retries = none

-- ~State: the queue, and the number of the next try if the connection is established again.
unfoldable pub destruct : Config → Env → Connection → SendQueue × Option ℕ
unfolding deregister next_try
destruct c e s = if e.stopped then (s.queue, none) else (
  (if s.registered then deregister s.queue else s.queue),
  next_try s.resume_mode c.connection_try c.retries,
)

-- One connection after the other between two nodes, each with what it ended as: how many are
-- established after the one of the try in c.
unfoldable pub reconnects : Config → List (Env × Connection) → ℕ
unfolding destruct
reconnects c [] = 0
reconnects c ((e, s) ∷ rest) =
    let next = (destruct c e s).1 in
    elim next [ none ↦ 0 | some n ↦ suc (reconnects (record c { connection_try = some n }) rest) ]

-- How many tries are left after that of c.
unfoldable pub tries_left : Config → ℕ
tries_left c = elim c.connection_try [ none ↦ 0 | some n ↦ c.retries - n ]

some-inj : {m n : ℕ} → some m ≡ some n → m ≡ n
some-inj h = cc

none-some : {m : ℕ} → none ≢ some m
none-some = cc

next_try-some :
    (mode : ResumeMode) (current : Option ℕ) (retries m : ℕ)
    → next_try mode current retries ≡ some m
    → (n : ℕ) × (current ≡ some n) × (m ≡ suc n) × (n < retries)
unfolding next_try
next_try-some restart_after_shutdown (some n) retries m h = elim (Bool-cases (ltb n retries)) [
  | inl e ↦ (n, refl, sym (some-inj (rw e at h)), ground (arith))
  | inr e ↦ absurd (none-some (rw e at h))
]
next_try-some restart_after_shutdown none retries m h = absurd (none-some h)
next_try-some end_after_shutdown current retries m h = absurd (none-some h)

destruct-some :
    (c : Config) (e : Env) (s : Connection) (m : ℕ)
    → (destruct c e s).1 ≡ some m
    → (n : ℕ) × (c.connection_try ≡ some n) × (m ≡ suc n) × (n < c.retries)
unfolding destruct
destruct-some c e s m h = elim (Bool-cases e.stopped) [
  | inl y ↦ absurd (none-some (rw y at h))
  | inr y ↦ next_try-some s.resume_mode c.connection_try c.retries m (rw y at h)
]

-- However connections between two nodes end, one after the other, at most as many are established
-- again as the service allows retries beyond the try of the first, and none by the side that
-- accepted the connection.
pub reconnects-bounded :
    (c : Config) (ss : List (Env × Connection)) → reconnects c ss ≤ tries_left c
unfolding reconnects tries_left
reconnects-bounded c [] = omega arith
reconnects-bounded c ((e, s) ∷ rest) = elim (Option-cases (destruct c e s).1) [
  | inl h ↦ rw (reconnects, h) (omega arith)
  | inr (m, h) ↦
      let (n, t, k, lt) = destruct-some c e s m h in
      let more = reconnects-bounded (record c { connection_try = some m }) rest in
      rw (reconnects, h, t) (omega (arith, more, k, lt))
]
