-- ===== src/Connection/Read.antt =====
-- TCPConnection::readHandler of modules/communicator/tcp_connection.cpp and the handlers it calls:
-- one call with what `async_read` gave, from where the coroutine stands to its next read.
use paracooba.Prelude.{
  ℕ, ◌-◌, ◌%◌, ◌^◌, Bool, true, false, not, ◌||◌, Option, none, some, List, [], ◌∷◌, ◌++◌, length,
  ltb, ◌==◌, if◌then◌else◌,
}
use Prim.Native.Nat.{min}
use paracooba.Status.{◌is◌, abort_connection}
use paracooba.Messages.{is_ack, is_file, is_end, is_keepalive}
use paracooba.SendQueue.{SendQueue, handle_ack}
use paracooba.SendQueue.Register.{register}
use paracooba.SendQueue.Tick.{notify_of_read}
use paracooba.Connection.{
  Config, Env, Connection, Header, InitiatorMessage, ReadPlace, FilePath, message_from, file_from,
  at_initiator, at_header, at_file_header, at_file_chunk, at_body, read_ended, read_undefined,
  end_after_shutdown, should_handler_be_ended, send_ack, status_of, was_initiator,
}
use paracooba.Connection.Write.{trigger}
use paracooba.Connection.Files.{read_name}

-- REC_BUF_SIZE and MAX_BUF_SIZE
abbrev pub rec_buf_size : ℕ
rec_buf_size = 4096

abbrev pub max_buf_size : ℕ
max_buf_size = 100000000

-- What a read ended with: the bytes that were asked for, or an error.
pub data Received : Type 0 where
  got : List ℕ → Received
  failed : Received

-- The end of the coroutine.
abbrev pub end_reading : Connection → Connection
end_reading s = record s { read_place = read_ended }

-- notifyOfRead, once there is a queue.
unfoldable pub note_read : Env → Connection → Connection
unfolding notify_of_read
note_read e s = if s.registered then record s { queue = notify_of_read e.now s.queue } else s

-- The end of the loop's body: the connection may have been killed.
unfoldable pub read_next : Connection → Connection
read_next s = if s.killed then end_reading s else record s { read_place = at_header }

-- What registerNotificationCB gave: the connection has a queue, of which the messages are sent, or
-- is not to be restarted.
unfoldable pub take_queue : Config → Env → Bool × SendQueue → Connection → Bool × Connection
unfolding trigger
take_queue c e (true, q) s =
    let t = record s { registered = true; queue = q } in
    (true, elim q.queued [ [] ↦ t | x ∷ xs ↦ trigger c e t ])
take_queue c e (false, q) s = (false, record s { queue = q; resume_mode = end_after_shutdown })

-- handleInitiatorMessage: whether the connection is taken.
unfoldable pub handle_initiator_message :
    Config → Env → InitiatorMessage → Connection → Bool × Connection
unfolding register was_initiator take_queue
handle_initiator_message c e i s =
    if i.sender_id == c.own
    then (false, s)
    else take_queue c e (register (was_initiator c) c.own (c.connection_string i) s.queue) s

-- Lines 705 to 726.
unfoldable pub after_initiator : Env → Bool × Connection → Connection
unfolding note_read
after_initiator e (true, s) = record (note_read e s) { read_place = at_header }
after_initiator e (false, s) = end_reading s

unfoldable pub read_initiator : Config → Env → InitiatorMessage → Connection → Connection
unfolding handle_initiator_message after_initiator
read_initiator c e i s = after_initiator e (handle_initiator_message c e i s)

-- handleReceivedACK; no result if no entry waits for this acknowledgement, where the source reads an
-- empty optional.
unfoldable pub handle_received_ack : Header → Connection → Option Connection
unfolding handle_ack status_of
handle_received_ack h s = elim (handle_ack h.number (status_of (h.content % 2 ^ 32)) s.queue) [
  | none ↦ none
  | some q ↦ some (record s { queue = q })
]

-- handleReceivedMessage: the message is handed over, and its status is sent back.
unfoldable pub handle_received_message :
    Config → Env → (bytes : List ℕ) → Connection → Bool × Connection
unfolding send_ack
handle_received_message c e bytes s =
    let d = message_from s.header.kind s.header.originator bytes in
    let status = c.answer s.delivered d in
    let t = record s { delivered = s.delivered ++ d ∷ [] } in
    if status is abort_connection then (false, t) else (true, send_ack c e s.header.number status t)

-- Where a file is stored: below a directory of the originator's unless that is this node.
unfoldable pub path_of : Config → (originator : ℕ) → (file_header : List ℕ) → FilePath
unfolding read_name
path_of c originator name = record {
  directory = if originator == c.own then none else some originator;
  name = read_name name;
}

-- handleReceivedFileStart
unfoldable pub handle_received_file_start :
    Config → (file_header : List ℕ) → Connection → Connection
unfolding path_of
handle_received_file_start c name s = record s {
  read_file = record { path = path_of c s.header.originator name; bytes = [] };
}

-- handleReceivedFileChunk, and what is left to read.
unfoldable pub handle_received_file_chunk : List ℕ → Connection → Connection
handle_received_file_chunk bytes s = record s {
  header = record s.header { content = s.header.content - length bytes };
  read_file = record s.read_file { bytes = s.read_file.bytes ++ bytes };
}

-- handleReceivedFile
unfoldable pub handle_received_file : Config → Env → Connection → Connection
unfolding send_ack
handle_received_file c e s =
    let d = file_from s.header.originator s.read_file.path s.read_file.bytes in
    send_ack c e s.header.number (c.answer s.delivered d)
      (record s { delivered = s.delivered ++ d ∷ [] })

-- The loop over the chunks of a file, to its next read or to its end.
unfoldable pub read_file_chunks : Config → Env → Connection → Connection
unfolding handle_received_file read_next
read_file_chunks c e s =
    if ltb 0 s.header.content
    then record s { read_place = at_file_chunk }
    else read_next (handle_received_file c e s)

-- Lines 769 to 779 and the end of the loop's body.
unfoldable pub after_ack : Connection → Option Connection → Connection
unfolding read_next
after_ack t none = record t { read_place = read_undefined }
after_ack t (some u) = read_next u

-- Lines 751 to 875: a header was read.
unfoldable pub read_header : Config → Env → Header → Connection → Connection
unfolding note_read handle_received_ack after_ack read_next
read_header c e h s =
    let t = note_read e (record s { header = h }) in
    if is_ack h.kind
    then after_ack t (handle_received_ack h t)
    else if is_file h.kind
    then record t { read_place = at_file_header }
    else if is_end h.kind
    then record t { read_place = read_ended; resume_mode = end_after_shutdown }
    else if is_keepalive h.kind
    then read_next t
    else if not t.registered || ltb max_buf_size h.content
    then end_reading t
    else record t { read_place = at_body }

-- Lines 896 to 907: what follows upon the result of handleReceivedMessage.
unfoldable pub after_message : Env → Bool × Connection → Connection
unfolding note_read read_next
after_message e (true, s) = read_next (note_read e s)
after_message e (false, s) = end_reading s

-- Lines 878 to 916: the bytes of a message were read.
unfoldable pub read_body : Config → Env → List ℕ → Connection → Connection
unfolding handle_received_message after_message
read_body c e bytes s =
    if not (length bytes == s.header.content)
    then end_reading s
    else after_message e (handle_received_message c e bytes s)

-- The coroutine goes on with the bytes it asked for.
unfoldable pub resume_at : ReadPlace → Config → Env → List ℕ → Connection → Connection
unfolding read_initiator read_header handle_received_file_start read_file_chunks note_read
    handle_received_file_chunk read_body
resume_at at_initiator c e bytes s = read_initiator c e (c.layout.decode_initiator bytes) s
resume_at at_header c e bytes s = read_header c e (c.layout.decode_header bytes) s
resume_at at_file_header c e bytes s = read_file_chunks c e (handle_received_file_start c bytes s)
resume_at at_file_chunk c e bytes s =
    read_file_chunks c e (handle_received_file_chunk bytes (note_read e s))
resume_at at_body c e bytes s = read_body c e bytes s
resume_at read_ended c e bytes s = s
resume_at read_undefined c e bytes s = s

-- readHandler: each of its places ends the coroutine upon an error.
unfoldable pub read_handler : Config → Env → Received → Connection → Connection
unfolding should_handler_be_ended resume_at
read_handler c e r s =
    if should_handler_be_ended e s then record (end_reading s) { closed = true } else elim r [
      | failed ↦ record (end_reading s) { closed = true }
      | got bytes ↦ resume_at s.read_place c e bytes s
    ]

-- How many bytes the coroutine waits for.
unfoldable pub wanted_at : ReadPlace → Config → Connection → ℕ
wanted_at at_initiator c s = c.layout.initiator_size
wanted_at at_header c s = c.layout.header_size
wanted_at at_file_header c s = 255
wanted_at at_file_chunk c s = min rec_buf_size s.header.content
wanted_at at_body c s = s.header.content
wanted_at read_ended c s = 0
wanted_at read_undefined c s = 0
