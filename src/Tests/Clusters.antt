-- ===== src/Tests/Clusters.antt =====
-- A master that sends to a slave which does not answer.
use grandma_scheduling_servi.Prelude.{
  ℕ, ◌/◌, ◌%◌, ◌≡◌, refl, Bool, true, List, [], ◌∷◌, ◌++◌, length, none, some, done, Outcome,
}
use grandma_scheduling_servi.Prelude.Int.{pos}
use grandma_scheduling_servi.Prelude.Text.{Bytes, codes, bytes_eq}
use grandma_scheduling_servi.Message.{Obj, get_message_payload}
use grandma_scheduling_servi.Queue.{increase, decrease, is_empty, pop_message, push_front}
use grandma_scheduling_servi.Cluster.Nodes.{Slaves, send_slave}
use grandma_scheduling_servi.Cluster.Discovery.{Dialled, failed, new_node}
use grandma_scheduling_servi.Cluster.Network.{new_slaves}
use grandma_scheduling_servi.Cluster.Sending.{
  Sender, waits, execute_slave_queue, send_popped, wait_or_return, await_answer, select_answer,
  return_message,
}
use grandma_scheduling_servi.Cluster.Sending.Steps.{here, there, Run, start, sends, ends}

abbrev fix : ℕ → ℕ → Slaves → Outcome Slaves
fix i n s = done s

abbrev nowhere : Bytes → Dialled
nowhere address = failed

-- A slave at an address.
abbrev one_slave : Slaves
one_slave = new_slaves (new_node 0 (codes "a:1") ∷ [])

abbrev message : Bytes → Obj
message body = record {
  message_type = pos 107;
  endpoint = codes "GET x y";
  message_body = body;
  expiration = pos 5000;
}

-- Three messages for the slave.
abbrev sender : Sender
sender = record {
  slaves = one_slave;
  cluster_queue = record {
    queue =
        some (message (codes "a"))
        ∷ some (message (codes "b"))
        ∷ some (message (codes "c"))
        ∷ none
        ∷ [];
    front = 0;
    pointer = 3;
  };
}

-- What is written for a message.
abbrev sent_for : Bytes → List Bytes
sent_for body =
    let content = 151 ∷ get_message_payload (message body) in
    ((length content / 256 % 256) ∷ (length content % 256) ∷ []) ∷ content ∷ []

-- The slaves behind the two messages, and the queue with the first back in it.
abbrev written : List Bytes → Slaves
written bs = record one_slave { nodes = record (new_node 0 (codes "a:1")) { written = bs } ∷ [] }

abbrev first_sent : Sender
first_sent = record {
  slaves = written (sent_for (codes "a"));
  cluster_queue = record sender.cluster_queue { front = 1 };
}

abbrev second_sent : Sender
second_sent = record {
  slaves = written (sent_for (codes "a") ++ sent_for (codes "b"));
  cluster_queue = record sender.cluster_queue { front = 2 };
}

abbrev one_back : Sender
one_back = record second_sent {
  cluster_queue = record {
    queue =
        some (message (codes "a"))
        ∷ some (message (codes "a"))
        ∷ some (message (codes "c"))
        ∷ none
        ∷ [];
    front = 1;
    pointer = 3;
  };
}

sends_first :
    execute_slave_queue fix 4 true sender ≡ done (waits 0 (message (codes "a")), first_sent)
unfolding execute_slave_queue send_popped wait_or_return pop_message is_empty increase send_slave
sends_first = refl

sends_second :
    execute_slave_queue fix 4 true first_sent ≡ done (waits 0 (message (codes "b")), second_sent)
unfolding execute_slave_queue send_popped wait_or_return pop_message is_empty increase send_slave
sends_second = refl

first_ends : await_answer fix 4 0 (message (codes "a")) second_sent ≡ done one_back
unfolding await_answer select_answer return_message push_front decrease
first_ends = refl

-- Two messages are sent, and the wait for the first ends.
abbrev run : Run fix 4 sender [] one_back (waits 0 (message (codes "b")) ∷ [])
run =
    ends 0 (message (codes "a"))
      (sends (waits 0 (message (codes "b")))
        (sends (waits 0 (message (codes "a"))) start sends_first) sends_second)
      (there (waits 0 (message (codes "b"))) (here [])) first_ends

abbrev is_a : Obj → Bool
is_a msg = bytes_eq msg.message_body (codes "a")
