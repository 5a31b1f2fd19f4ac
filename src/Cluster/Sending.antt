-- ===== src/Cluster/Sending.antt =====
-- src/clustering/clusterqueue.go, `executeSlaveQueue`: a message of the cluster's queue is sent to
-- the first slave and waits for its answer, or goes back to the front of the queue. The function
-- runs in two parts, as it starts itself again between them: one run of it always stands in
-- PopMessage, and any number of them behind, in the `select`.
pub mod Returned
pub mod Runs
pub mod Steps
use grandma_scheduling_servi.Prelude.{
  ℕ, zero, suc, Bool, true, false, List, [], ◌∷◌, Option, none, some, if◌then◌else◌, Outcome, done,
  panic, ◌>>=◌, load,
}
use grandma_scheduling_servi.Prelude.Int.{ℤ}
use grandma_scheduling_servi.Prelude.Text.{Bytes}
use grandma_scheduling_servi.Message.{Obj, get_message_payload}
use grandma_scheduling_servi.Queue.{GrandmaQueue, pop_message, push_message, push_front}
use grandma_scheduling_servi.Cluster.Nodes.{Node, Slaves, modify, update, send_slave}
use grandma_scheduling_servi.Cluster.Calls.{plus_3}

pub record Sender : Type 0 where
  pub slaves : Slaves
  pub cluster_queue : GrandmaQueue Obj

-- How the first part ends: the message is back in the queue, or waits for the answer of a node.
pub data Sent : Type 0 where
  returned : Sent
  waits : ℕ → Obj → Sent

-- `len` is the configured length of the queue, `fix` is of container/heap.
module _ (fix : ℕ → ℕ → Slaves → Outcome Slaves) (len : ℕ) where
  unfoldable pub push_to_send : Obj → Sender → Outcome Sender
  push_to_send msg s =
      push_message len s.cluster_queue (some msg) >>= λ q. done (record s { cluster_queue = q })

  unfoldable pub return_message : Obj → Sender → Outcome Sender
  return_message msg s =
      push_front len s.cluster_queue (some msg) >>= λ q. done (record s { cluster_queue = q })

  -- What the sending returned, with a nil error or not.
  unfoldable pub wait_or_return : Obj → Sender → (ℕ × Bool) × Slaves → Outcome (Sent × Sender)
  unfolding return_message
  wait_or_return msg s ((p, fine), slaves) =
      let s1 : Sender = record s { slaves = slaves } in
      let back : Outcome (Sent × Sender) = return_message msg s1 >>= λ s2. done (returned, s2) in
      if fine then done (waits p msg, s1) else back

  -- The type is COMM_TYPE_SCHEDULE. A nil message panics.
  unfoldable pub send_popped : Bool → Option Obj → Sender → Outcome (Sent × Sender)
  unfolding wait_or_return
  send_popped sent none s = panic
  send_popped sent (some msg) s =
      send_slave fix sent (151 ∷ get_message_payload msg) 0 s.slaves >>= wait_or_return msg s

  unfoldable pub execute_slave_queue : Bool → Sender → Outcome (Sent × Sender)
  unfolding send_popped
  execute_slave_queue sent s = pop_message len s.cluster_queue >>= λ r.
      send_popped sent r.0 (record s { cluster_queue = r.1 })

  -- The node's complexity is read before the lock is taken.
  unfoldable pub received : ℕ → List ℤ → Sender → Outcome Sender
  unfolding modify
  received p ids s = do
    s1 ← modify p (λ n. record n { channel = ids }) s.slaves
    node ← load s1.nodes p
    s2 ← update fix p (plus_3 node.complexity) node.index s1
    done (record s { slaves = s2 })

  -- The `select`: a schedule's id from the channel, or the end of three seconds.
  unfoldable pub select_answer : ℕ → Obj → List ℤ → Sender → Outcome Sender
  unfolding return_message received
  select_answer p msg [] s = return_message msg s
  select_answer p msg (id ∷ ids) s = received p ids s

  unfoldable pub await_answer : ℕ → Obj → Sender → Outcome Sender
  await_answer p msg s = load s.slaves.nodes p >>= λ node. select_answer p msg node.channel s
