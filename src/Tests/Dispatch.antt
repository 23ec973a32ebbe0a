-- ===== src/Tests/Dispatch.antt =====
-- The theorems on received messages at concrete ones.
use paracooba.Prelude.{refl, true, false, none, [], ◌∷◌, arith}
use paracooba.Status.{ok}
use paracooba.Messages.{node_description, offline_announcement}
use paracooba.ComputeNode.State.{Description}
use paracooba.ComputeNode.Dispatch.{Host, Archive, Receiver, receive_message_from}
use paracooba.ComputeNode.Dispatch.Answers.{Replies, receive_message_from-Replies}
use paracooba.ComputeNode.Dispatch.Solvers.{IsSingle, receive_all, receive_all-IsSingle}
use paracooba.Tests.Nodes.{node_five}

-- Node 3 has the formula.
abbrev here : Host
here = record {
  id = 3;
  has_input_file = true;
  auto_shutdown = true;
  nodes = [];
  knows = λ id. false;
  utilization = record { numerator = 1; denominator = 4 };
  result_answers = ok ∷ [];
  originator_has_solver = true;
  solver_answers = ok ∷ [];
}

abbrev client : Description
client = record { workers = 2; daemon = false }

-- A description is one byte or more, and nothing else can be read.
abbrev archive : Archive
archive = record {
  description = λ xs. elim xs [ [] ↦ (client, false) | x ∷ ys ↦ (client, true) ];
  status = λ xs. none;
  remotes = λ xs. none;
  parent = λ xs. 0;
}

abbrev peer : Receiver
peer = record { node = node_five; has_solver = false; calls = [] }

receive_message_from-Replies_example :
    Replies true peer (receive_message_from archive here node_description [] peer)
receive_message_from-Replies_example =
    receive_message_from-Replies archive here node_description [] peer refl

-- The client describes itself twice and goes offline.
receive_all-IsSingle_example : IsSingle (
    receive_all archive
      ((here, node_description, 1 ∷ [])
        ∷ (here, node_description, 1 ∷ [])
        ∷ (here, offline_announcement, [])
        ∷ [])
      peer)
receive_all-IsSingle_example =
    receive_all-IsSingle archive
      ((here, node_description, 1 ∷ [])
        ∷ (here, node_description, 1 ∷ [])
        ∷ (here, offline_announcement, [])
        ∷ [])
      peer (omega arith)
