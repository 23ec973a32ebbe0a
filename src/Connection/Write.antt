-- ===== src/Connection/Write.antt =====
-- TCPConnection::writeHandler of modules/communicator/tcp_connection.cpp, and what makes it run:
-- one call, from where the coroutine stands to its next write. The bytes of an operation are
-- noted when it is given to the socket.
use paracooba.Prelude.{
  ◌-◌, ◌^◌, Bool, true, false, not, ◌||◌, List, [], ◌∷◌, ◌++◌, length, if◌then◌else◌,
}
use paracooba.Messages.{MessageKind, end, is_ack, is_file, is_end, is_keepalive}
use paracooba.SendQueue.{Entry, pop_entry}
use paracooba.Connection.{
  Config, Env, Connection, Header, WritePlace, idle, header_sent, file_sent, body_sent,
  initiator_sent, end_sent, write_ended, should_handler_be_ended,
}
use paracooba.Connection.Files.{file_header}

-- The header of an entry: its size is that of the message or of the file.
unfoldable pub header_of : Config → Entry → Header
header_of c e = record {
  originator = (c.value e.body).originator;
  number = e.number;
  kind = e.kind;
  content = if is_ack e.kind then e.body else length (c.value e.body).bytes;
}

-- Acknowledgements, end tags and keepalives are nothing but a header.
abbrev pub is_header_only : MessageKind → Bool
is_header_only k = is_ack k || is_end k || is_keepalive k

-- The header that a killed connection ends with.
unfoldable pub end_header : Config → Header
end_header c = record { originator = c.own; number = 2 ^ 32 - 1; kind = end; content = 0 }

-- Lines 1000 to 1029: the first entry's header is written; with none, the handler waits.
unfoldable pub write_front : Config → List Entry → Connection → Connection
unfolding header_of
write_front c [] s = record s { currently_sending = false; write_place = idle }
write_front c (x ∷ xs) s = record s {
  transmit_mode = x.transmit_mode;
  written = s.written ++ c.layout.encode_header (header_of c x);
  write_place = header_sent;
}

-- Lines 977 to 1029, from the head of the loop to the next time that the handler waits.
unfoldable pub write_next : Config → Connection → Connection
unfolding write_front end_header
write_next c s =
    if s.killed
    then record s {
      written = s.written ++ c.layout.encode_header (end_header c);
      write_place = end_sent;
    }
    else write_front c (if s.registered then s.queue.queued else []) s

-- popFromQueued on what is queued; on nothing it is not defined in the source, here the coroutine
-- ends.
unfoldable pub pop_front : Config → Env → List Entry → Connection → Connection
unfolding pop_entry write_next
pop_front c e [] s = record s { write_place = write_ended }
pop_front c e (x ∷ xs) s = write_next c (record s { queue = pop_entry e.now x xs s.queue })

-- Lines 1107 to 1110: the front entry is done.
unfoldable pub write_done : Config → Env → Connection → Connection
unfolding pop_front write_next
write_done c e s = if s.killed then write_next c s else pop_front c e s.queue.queued s

-- Lines 1051 to 1095: what follows the header. A FileSender that succeeds writes the file's header
-- and the file.
unfoldable pub content_front : Config → Env → List Entry → Connection → Connection
unfolding write_done file_header
content_front c e [] s = record s { write_place = write_ended }
content_front c e (x ∷ xs) s =
    let v = c.value x.body in
    if is_header_only x.kind
    then write_done c e s
    else if is_file x.kind
    then record s {
      written = s.written ++ (file_header c.memory v.name ++ v.bytes);
      write_place = file_sent;
    }
    else record s { written = s.written ++ v.bytes; write_place = body_sent }

-- Lines 1031 to 1095, after the header was written.
unfoldable pub write_content : Config → Env → Connection → Connection
unfolding write_next content_front
write_content c e s = if s.killed then write_next c s else content_front c e s.queue.queued s

-- The coroutine goes on; once the end header was sent it does nothing more.
unfoldable pub write_at : WritePlace → Config → Env → Connection → Connection
unfolding write_next write_content write_done
write_at initiator_sent c e s = write_next c s
write_at idle c e s = write_next c s
write_at header_sent c e s = write_content c e s
write_at file_sent c e s = write_done c e s
write_at body_sent c e s = write_done c e s
write_at end_sent c e s = s
write_at write_ended c e s = s

-- writeHandler: `good` is whether the write before was without error.
unfoldable pub write_handler : Config → Env → (good : Bool) → Connection → Connection
unfolding should_handler_be_ended write_at
write_handler c e good s =
    if should_handler_be_ended e s
    then s
    else if not good
    then record s { closed = true }
    else write_at s.write_place c e s

-- conditionallyTriggerWriteHandler
unfoldable pub trigger : Config → Env → Connection → Connection
unfolding write_handler
trigger c e s =
    if s.currently_sending
    then s
    else write_handler c e true (record s { currently_sending = true })

-- kill
unfoldable pub kill_connection : Config → Env → Connection → Connection
unfolding trigger
kill_connection c e s = trigger c e (record s { killed = true })
