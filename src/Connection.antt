-- ===== src/Connection.antt =====
-- The class TCPConnection of modules/communicator/tcp_connection.cpp with the packets of
-- modules/communicator/packet.hpp: its state, and how it starts. How structs lie in memory is a
-- parameter; a byte is a number.
pub mod Files
pub mod Read
pub mod Write
pub mod Lifetime
pub mod Initiator
pub mod Feed
pub mod Stream
pub mod Packets
pub mod FilePackets
pub mod Transfer
pub mod Writes
pub mod Exchange
use paracooba.Prelude.{
  ℕ, ◌+◌, ◌*◌, ◌/◌, ◌^◌, ◌≡◌, Bool, true, false, Option, none, some, List, [], ◌∷◌, length, get_or,
  if◌then◌else◌, ◌||◌, ◌&&◌,
}
use paracooba.Status.{
  Status, ◌is◌, ok, auto_shutdown_triggered, full, pending, undefined, sat, unsat, unknown, aborted,
  splitted, no_splits_left, abort_connection, to_be_deleted, connection_closed,
  no_connection_established_error, message_timeout_error, out_of_memory, invalid_char_encountered,
  invalid_ip, invalid_path_error, compute_node_not_found_error, path_not_found_error, parse_error,
  premature_exit, formula_received_twice_error, file_not_found_error,
  connection_already_established_error, bind_error, solver_already_configured_error, generic_error,
}
use paracooba.Messages.{MessageKind, ack}
use paracooba.SendQueue.{SendQueue, Entry, TransmitMode, send}

-- The numbers of the codes, in the order of the enumeration.
unfoldable pub statuses : List Status
statuses =
    ok ∷ auto_shutdown_triggered ∷ full ∷ pending ∷ undefined ∷ sat ∷ unsat ∷ unknown ∷ aborted
    ∷ splitted ∷ no_splits_left ∷ abort_connection ∷ to_be_deleted ∷ connection_closed
    ∷ no_connection_established_error ∷ message_timeout_error ∷ out_of_memory
    ∷ invalid_char_encountered ∷ invalid_ip ∷ invalid_path_error ∷ compute_node_not_found_error
    ∷ path_not_found_error ∷ parse_error ∷ premature_exit ∷ formula_received_twice_error
    ∷ file_not_found_error ∷ connection_already_established_error ∷ bind_error
    ∷ solver_already_configured_error ∷ generic_error ∷ []

-- A number beyond the last code is taken for the last one.
unfoldable pub status_of : ℕ → Status
unfolding statuses
status_of n = get_or statuses n generic_error

code_of : Status → ℕ → List Status → ℕ
code_of s n [] = n
code_of s n (x ∷ xs) = if s is x then n else code_of s (1 + n) xs

unfoldable pub status_number : Status → ℕ
unfolding code_of statuses
status_number s = code_of s 0 statuses

-- PacketHeader; `content` is the union of `size` and `ack_status`.
pub record Header : Type 0 where
  pub originator : ℕ
  pub number : ℕ
  pub kind : MessageKind
  pub content : ℕ

-- The two assignments to the union: a code has 32 of its 64 bits, the lower ones.
unfoldable pub set_ack_status : Status → Header → Header
unfolding status_number
set_ack_status s h = record h { content = h.content / 2 ^ 32 * 2 ^ 32 + status_number s }

unfoldable pub set_size : ℕ → Header → Header
set_size n h = record h { content = n }

-- The constructor Entry(uint32_t id, parac_status status), on the header h as it is before.
unfoldable pub ack_header : (id : ℕ) → Status → Header → Header
unfolding set_ack_status set_size
ack_header id status h =
    set_size 0 (record (set_ack_status status (record h { kind = ack })) { number = id })

-- InitiatorMessage
pub record InitiatorMessage : Type 0 where
  pub sender_id : ℕ
  pub tcp_port : ℕ

-- The images of the structs in memory, and their sizes.
pub record Layout : Type 0 where
  pub initiator_size : ℕ
  pub encode_initiator : InitiatorMessage → List ℕ
  pub decode_initiator : List ℕ → InitiatorMessage
  pub header_size : ℕ
  pub encode_header : Header → List ℕ
  pub decode_header : List ℕ → Header

-- An image has the size of the struct and gives it back.
pub record IsLayout (l : Layout) : Type 0 where
  pub initiator_length : (i : InitiatorMessage) → length (l.encode_initiator i) ≡ l.initiator_size
  pub initiator_back : (i : InitiatorMessage) → l.decode_initiator (l.encode_initiator i) ≡ i
  pub header_length : (h : Header) → length (l.encode_header h) ≡ l.header_size
  pub header_back : (h : Header) → l.decode_header (l.encode_header h) ≡ h

-- Where a received file is written: below the temporary directory, in a directory named after the
-- originator unless that is this node.
pub record FilePath : Type 0 where
  pub directory : Option ℕ
  pub name : List ℕ

-- What the compute node is given: receive_message_from and receive_file_from.
pub data Delivery : Type 0 where
  message_from : MessageKind → (originator : ℕ) → (bytes : List ℕ) → Delivery
  file_from : (originator : ℕ) → FilePath → (bytes : List ℕ) → Delivery

-- What an entry's body refers to: a message's bytes, or a file's name and bytes.
pub record Value : Type 0 where
  pub originator : ℕ
  pub name : List ℕ
  pub bytes : List ℕ

-- What does not change while the connection exists. `answer` is the status that the compute node
-- gives to what it gets after what it got before; `memory` and `blank` are what is in memory before
-- a file's name or an acknowledgement's header is written there. `connection_try` is none for a
-- negative number, that of the accepting side.
pub record Config : Type 0 where
  pub layout : Layout
  pub own : ℕ
  pub listen_port : ℕ
  pub connection_try : Option ℕ
  pub retries : ℕ
  pub connection_string : InitiatorMessage → ℕ
  pub value : ℕ → Value
  pub answer : List Delivery → Delivery → Status
  pub memory : List ℕ
  pub blank : Header

-- parac_compute_node_state
pub data NodeState : Type 0 where
  new active timeout exited : NodeState

-- What a handler sees of the rest of the program when it is called: `alive` is what the function
-- registered with the queue returns.
pub record Env : Type 0 where
  pub node_state : NodeState
  pub stopped : Bool
  pub alive : Bool
  pub now : ℕ

-- ResumeMode
pub data ResumeMode : Type 0 where
  end_after_shutdown restart_after_shutdown : ResumeMode

-- Where the read handler goes on.
pub data ReadPlace : Type 0 where
  at_initiator at_header at_file_header at_file_chunk at_body read_ended read_undefined : ReadPlace

-- Where the write handler goes on.
pub data WritePlace : Type 0 where
  initiator_sent idle header_sent file_sent body_sent end_sent write_ended : WritePlace

-- FileOstream, with what was written to it.
pub record OpenFile : Type 0 where
  pub path : FilePath
  pub bytes : List ℕ

-- TCPConnection::State. `queue` is the service's queue for the remote, and `registered` whether it
-- and the compute node are set; `written` is what was given to the socket to write.
pub record Connection : Type 0 where
  pub read_place : ReadPlace
  pub write_place : WritePlace
  pub header : Header
  pub read_file : OpenFile
  pub killed : Bool
  pub resume_mode : ResumeMode
  pub registered : Bool
  pub queue : SendQueue
  pub currently_sending : Bool
  pub transmit_mode : TransmitMode
  pub closed : Bool
  pub written : List ℕ
  pub delivered : List Delivery

-- A compute node that is not to be spoken to.
abbrev pub is_gone : NodeState → Bool
is_gone timeout = true
is_gone exited = true
is_gone _ = false

-- shouldHandlerBeEnded
unfoldable pub should_handler_be_ended : Env → Connection → Bool
should_handler_be_ended e s = (s.registered && is_gone e.node_state) || e.stopped

-- wasInitiator
unfoldable pub was_initiator : Config → Bool
was_initiator c = elim c.connection_try [ none ↦ false | some n ↦ true ]

-- The entry of an acknowledgement: its `body` is the union in its header.
unfoldable pub ack_entry_of : Config → (id : ℕ) → Status → Entry
unfolding ack_header
ack_entry_of c id status = record {
  number = id;
  kind = ack;
  transmit_mode = TransmitMode.ack;
  body = (ack_header id status c.blank).content;
  has_callback = false;
  sent = 0;
}

-- sendACK
unfoldable pub send_ack : Config → Env → (id : ℕ) → Status → Connection → Connection
unfolding ack_entry_of send
send_ack c e id status s =
    if s.registered
    then record s { queue = send e.alive false (ack_entry_of c id status) s.queue }
    else s
