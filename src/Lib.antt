-- ===== src/Lib.antt =====
-- A model of the core of Paracooba, a distributed solver for SAT and QBF by cube and conquer: the
-- paths in the tree of splits, the tasks at its nodes and how their results combine, the broker's
-- task store, and the cubes and assignments that the solver modules exchange.
--
-- The parts, and the files that model them:
-- * Path models modules/commonc/path.c and include/paracooba/common/path.h. A path is the 64-bit
--   number `rep`; the C bit fields are readings of it (`length_field`, `path_field`,
--   `overlength_length`, `left_right`). Path/Fields, Path/Next, Path/Family and Path/Number are on
--   decisions, steps, relatives and numbers, Path/Text on strings, where a C string is a buffer of
--   codes.
-- * Words holds the shifts and masks on numbers that the other files use.
-- * Status models include/paracooba/common/status.h.
-- * Task models include/paracooba/common/task.h and modules/commonc/task.c. A pointer is a number,
--   and a heap gives the task at each. The flags of a task's state are fields of a record. In
--   Task/Assess, an assessment returns the task, the children whose `terminate` it calls, and the
--   messages.
-- * Store models the class TaskStore of modules/broker/broker_task_store.cpp. Store/State has the
--   containers of TaskStore::Internal in one record with the heap, and the calls to other modules as
--   a list of events; Store/Queue has the work queue and offloads, Store/Lifecycle creation, removal
--   and shutdown. The queue is sorted by `compare` of Task. When new work is counted, the compute
--   node store may offload tasks in the same call; which ones, and which of them are given back at
--   once, is an argument of type Offloading.
-- * Assignment models the class SolverAssignment of modules/solver/solver_assignment.hpp, of which
--   modules/solver_qbf has a copy.
-- * Cubes models QuantifierTreeCubes of modules/solver_qbf/qbf_cube_source.cpp and the functions on
--   integer based splits of modules/solver_qbf/solver_qbf_config.cpp.
-- * Messages models include/paracooba/common/message_kind.h and modules/commonc/message_kind.c.
-- * SendQueue models the class MessageSendQueue of modules/communicator/message_send_queue.cpp: what
--   is sent to one remote node. An operation is a function on the queue's record, which logs the
--   calls to callbacks, to the connection and to the service as events; the clock and the answer of
--   the connection's writer are arguments. SendQueue/Register has registerNotificationCB,
--   SendQueue/Tick the time limits, clear and the destructor. SendQueue/Ledger and
--   SendQueue/Numbers have the account of the messages and their numbers, SendQueue/Reachable the
--   sequences of operations.
-- * Connection models the class TCPConnection of modules/communicator/tcp_connection.cpp with the
--   packets of modules/communicator/packet.hpp, and uses SendQueue: Connection/Read and
--   Connection/Write are its two coroutines, where a call goes on from the place at which the call
--   before stopped, and Connection/Lifetime its start and end. Connection/Files models
--   modules/communicator/file_sender.cpp, and Connection/Initiator
--   modules/communicator/tcp_connection_initiator.cpp. The bytes are numbers in a list; how structs
--   lie in memory is the parameter Layout, with the hypothesis that a struct's bytes give it back.
--   What the compute node answers is a function of all that it was given. Connection/Feed calls the
--   read handler on a stream of bytes, and Connection/Transfer, Connection/Writes and
--   Connection/Exchange have what both ends do together.
-- * ComputeNode models the class ComputeNode of modules/broker/broker_compute_node.cpp: its
--   status with the counts of work, in ComputeNode/State and ComputeNode/Sending what the remote
--   node is told, in ComputeNode/Offload the offers of tasks with the store of Store, and in
--   ComputeNode/Parsing the callbacks that wait for a formula, with two threads whose steps
--   interleave, and in ComputeNode/Dispatch what a received message or file does; the bytes of a
--   message are read by functions that are parameters. ComputeNode/Table has the table of nodes
--   and ComputeNode/Targets the loop over offload targets, both of
--   modules/broker/broker_compute_node_store.cpp. A utilization is a fraction, where the source
--   divides floats.
-- * Qdimacs models Parser::parse of modules/solver_qbf/parser_qbf.cpp as an automaton that reads one
--   character after the other; the labels and loops of the source are its modes, and a literal that
--   overflows an int is an error of its own. Qdimacs/Text describes the files independently.
-- * SatCubes models the cube sources of modules/solver/cube_source.cpp, with the pregenerated cubes of
--   modules/solver/cadical_handle.cpp.
-- * Tests applies the theorems to concrete data.
--
-- Numbers are natural numbers; counters of 64 bits wrap around in `succ64` and `pred64`, and the
-- fields of a path keep their widths. Each operation of the store is one step, with the
-- offloading that it sets off in the same call; the order of steps by several threads is modelled
-- for the callbacks in ComputeNode/Parsing alone.
--
-- Fuel: `feed`, `complete` and `send_chunks` take a number of calls, which the theorems on them
-- give or bound.
--
-- Not modelled: TaskStore::assess_task, default_terminate_task, receiveTaskResultFromPeer and what
-- calls them, since they call one another and the terminate functions of tasks in the same call;
-- logging, memory management, reference counts (which are written and not read),
-- the `work` callbacks, sockets and timers, the threads of the runner, the serialisation of
-- messages, and the third-party solvers with their handles. The digits that `snprintf` prints for
-- a number, the check of an offload's target and the values that a solver gives are parameters,
-- as are the results of `sendfile` and of each read and write on a socket.
pub mod Prelude
pub mod Words
pub mod Status
pub mod Path
pub mod Task
pub mod Store
pub mod Assignment
pub mod Cubes
pub mod Messages
pub mod SendQueue
pub mod Connection
pub mod ComputeNode
pub mod Qdimacs
pub mod SatCubes
mod Tests
