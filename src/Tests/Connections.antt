-- ===== src/Tests/Connections.antt =====
-- The theorems on a connection between the nodes 3 and 7.
use paracooba.Prelude.{
  ℕ, ◌≤◌, ◌≡◌, refl, true, false, none, some, List, [], ◌∷◌, ◌++◌, replicate, length-replicate, ap,
  get_or, map, arith,
}
use paracooba.Status.{Status, ok, undefined}
use paracooba.Messages.{
  MessageKind, unknown, online_announcement, offline_announcement, announcement_request,
  node_status, node_description, new_remotes, task_reparent, task_result, task_abort,
  solver_description, solver_task, solver_sat_assignment, solver_new_learned_clause,
  solver_new_remote_available, file, ack, end, keepalive,
}
use paracooba.SendQueue.{SendQueue, Entry, ack_entry, TransmitMode}
use paracooba.Connection.{
  Config, Env, Connection, Layout, IsLayout, Value, active, idle, at_header, ack_entry_of,
  header_sent, restart_after_shutdown, end_after_shutdown,
}
use paracooba.Connection.Files.{moved, file_sender, send_chunks, file_header, send_chunks-finishes}
use paracooba.Connection.Read.{handle_received_ack}
use paracooba.Connection.Write.{header_of, write_handler, trigger}
use paracooba.Connection.Lifetime.{connect, reconnects, tries_left, reconnects-bounded}
use paracooba.Connection.Feed.{feed, IsRunning}
use paracooba.Connection.Stream.{IsUsable}
use paracooba.Connection.Transfer.{AreConnected, IsName}
use paracooba.Connection.Transfer.Frames.{AllSendable, received, replies}
use paracooba.Connection.Writes.{stream, write_handler-stream}
use paracooba.Connection.Writes.Progress.{complete}
use paracooba.Connection.Writes.Exclusion.{connected, trigger-outstanding}
use paracooba.Connection.Exchange.{complete-feed, handle_received_ack-ok}
use paracooba.Tests.Messages.{to_seven, to_three, result}

-- A layout of a struct: its members one after the other.
abbrev kind_number : MessageKind → ℕ
kind_number unknown = 0
kind_number online_announcement = 1
kind_number offline_announcement = 2
kind_number announcement_request = 3
kind_number node_status = 4
kind_number node_description = 5
kind_number new_remotes = 6
kind_number task_reparent = 7
kind_number task_result = 8
kind_number task_abort = 9
kind_number solver_description = 10
kind_number solver_task = 11
kind_number solver_sat_assignment = 12
kind_number solver_new_learned_clause = 13
kind_number solver_new_remote_available = 14
kind_number file = 15
kind_number ack = 16
kind_number end = 17
kind_number keepalive = 18

abbrev kinds : List MessageKind
kinds =
    unknown ∷ online_announcement ∷ offline_announcement ∷ announcement_request ∷ node_status
    ∷ node_description ∷ new_remotes ∷ task_reparent ∷ task_result ∷ task_abort ∷ solver_description
    ∷ solver_task ∷ solver_sat_assignment ∷ solver_new_learned_clause ∷ solver_new_remote_available
    ∷ file ∷ ack ∷ end ∷ keepalive ∷ []

kind_back : (k : MessageKind) → get_or kinds (kind_number k) unknown ≡ k
kind_back unknown = refl
kind_back online_announcement = refl
kind_back offline_announcement = refl
kind_back announcement_request = refl
kind_back node_status = refl
kind_back node_description = refl
kind_back new_remotes = refl
kind_back task_reparent = refl
kind_back task_result = refl
kind_back task_abort = refl
kind_back solver_description = refl
kind_back solver_task = refl
kind_back solver_sat_assignment = refl
kind_back solver_new_learned_clause = refl
kind_back solver_new_remote_available = refl
kind_back file = refl
kind_back ack = refl
kind_back end = refl
kind_back keepalive = refl

abbrev members : Layout
members = record {
  initiator_size = 2;
  encode_initiator = λ i. i.sender_id ∷ i.tcp_port ∷ [];
  decode_initiator = λ xs. record { sender_id = get_or xs 0 0; tcp_port = get_or xs 1 0 };
  header_size = 4;
  encode_header = λ h. h.originator ∷ h.number ∷ kind_number h.kind ∷ h.content ∷ [];
  decode_header = λ xs. record {
    originator = get_or xs 0 0;
    number = get_or xs 1 0;
    kind = get_or kinds (get_or xs 2 0) unknown;
    content = get_or xs 3 0;
  };
}

members-IsLayout : IsLayout members
members-IsLayout = record {
  initiator_length = λ i. refl;
  initiator_back = λ i. refl;
  header_length = λ h. refl;
  header_back = λ h.
      ap
        (λ k. record {
          originator = h.originator;
          number = h.number;
          kind = k;
          content = h.content;
        })
        (kind_back h.kind);
}

abbrev value_of : ℕ → Value
value_of n = record { originator = 3; name = 97 ∷ 98 ∷ []; bytes = n ∷ 1 ∷ 2 ∷ [] }

-- Node 3 established the connection; every message is taken.
abbrev three : Config
three = record {
  layout = members;
  own = 3;
  listen_port = 18001;
  connection_try = some 0;
  retries = 2;
  connection_string = λ i. i.tcp_port;
  value = value_of;
  answer = λ hist d. ok;
  memory = replicate 255 7;
  blank = record { originator = 9; number = 9; kind = unknown; content = 9 };
}

abbrev seven : Config
seven = record three { own = 7; connection_try = none; answer = λ hist d. undefined }

abbrev quiet : Env
quiet = record { node_state = active; stopped = false; alive = true; now = 50 }

quiet-IsRunning : IsRunning quiet
quiet-IsRunning = record { not_gone = refl; not_stopped = refl }

three-AreConnected-seven : AreConnected three seven
unfolding paracooba.Status.Status-discrete
three-AreConnected-seven = record {
  layout = refl;
  laws = members-IsLayout;
  memory = omega (arith, length-replicate {A = ℕ} 255 7);
  accepts = λ hist d. refl;
}

-- A message, a file and a keepalive are queued.
abbrev entries : List Entry
entries =
    result
    ∷ record result { number = 1; kind = file; transmit_mode = TransmitMode.file; body = 4 }
    ∷ record result { number = 2; kind = keepalive; has_callback = false }
    ∷ []

abbrev at_three : Connection
at_three = record {
  read_place = at_header;
  write_place = idle;
  header = record { originator = 9; number = 9; kind = unknown; content = 9 };
  read_file = record { path = record { directory = none; name = [] }; bytes = [] };
  killed = false;
  resume_mode = restart_after_shutdown;
  registered = true;
  queue = record to_seven { queued = entries };
  currently_sending = false;
  transmit_mode = TransmitMode.init;
  closed = false;
  written = [];
  delivered = [];
}

abbrev at_seven : Connection
at_seven = record at_three { queue = to_three; resume_mode = end_after_shutdown }

at_three-IsUsable : IsUsable at_three
at_three-IsUsable = record { registered = refl; not_killed = refl; not_dropped = refl }

at_seven-IsUsable : IsUsable at_seven
at_seven-IsUsable = record { registered = refl; not_killed = refl; not_dropped = refl }

ab-IsName : IsName (97 ∷ 98 ∷ [])
ab-IsName = record {
  size = omega arith;
  characters = (λ e. omega (arith, e), (λ e. omega (arith, e), tt));
}

entries-AllSendable : AllSendable three entries
entries-AllSendable = (
  record { not_ack = refl; not_end = refl; size = omega arith; name = ab-IsName },
  (
    record { not_ack = refl; not_end = refl; size = omega arith; name = ab-IsName },
    (record { not_ack = refl; not_end = refl; size = omega arith; name = ab-IsName }, tt),
  ),
)

complete-feed_example :
    (n m : ℕ) × (bytes : List ℕ) × let t = complete n three quiet at_three in
      let (u, rest) = feed m seven quiet bytes at_seven in
      (t.written ≡ [] ++ bytes)
      × (t.queue.queued ≡ [])
      × (rest ≡ [])
      × (u.delivered ≡ [] ++ received three seven entries)
      × (u.queue.queued ≡ [] ++ replies three seven [] entries)
complete-feed_example =
    complete-feed three seven quiet quiet at_three at_seven three-AreConnected-seven quiet-IsRunning
      quiet-IsRunning at_three-IsUsable refl entries-AllSendable at_seven-IsUsable refl

-- The header of a message was written.
abbrev half : Connection
half = record at_three { write_place = header_sent; currently_sending = true }

write_handler-stream_example :
    stream three (write_handler three quiet true half) ≡ stream three half
write_handler-stream_example = write_handler-stream three quiet true half refl

-- The first message waits for its acknowledgement, and was not understood.
abbrev waits : Connection
waits = record at_three { queue = record to_seven { waiting_for_ack = result ∷ [] } }

handle_received_ack-ok_example :
    handle_received_ack (header_of seven (ack_entry_of seven 0 undefined)) waits
    ≡ some (record waits { queue = ack_entry 0 result ok waits.queue })
unfolding paracooba.SendQueue.find
handle_received_ack-ok_example = handle_received_ack-ok seven 0 undefined waits result refl

send_chunks-finishes_example :
    let t =
      send_chunks true
        (map moved (2 ∷ 1 ∷ 1 ∷ 1 ∷ []))
        (file_sender (replicate 255 7) (97 ∷ []) (1 ∷ 2 ∷ 3 ∷ [])) in
    (t.finished ≡ some true)
    × (t.written ≡ file_header (replicate 255 7) (97 ∷ []) ++ (1 ∷ 2 ∷ 3 ∷ []))
send_chunks-finishes_example =
    send_chunks-finishes (replicate 255 7) (97 ∷ []) (1 ∷ 2 ∷ 3 ∷ []) (2 ∷ 1 ∷ 1 ∷ 1 ∷ [])
      (omega arith, (omega arith, (omega arith, (omega arith, tt)))) (omega arith)

reconnects-bounded_example :
    reconnects three ((quiet, at_three) ∷ (quiet, at_three) ∷ (quiet, at_three) ∷ [])
    ≤ tries_left three
reconnects-bounded_example =
    reconnects-bounded three ((quiet, at_three) ∷ (quiet, at_three) ∷ (quiet, at_three) ∷ [])

-- The initiator message is being written.
trigger-outstanding_example :
    trigger three quiet (connect three quiet to_seven) ≡ connect three quiet to_seven
unfolding connect
trigger-outstanding_example = trigger-outstanding quiet (connected quiet to_seven) refl
