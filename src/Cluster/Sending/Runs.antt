-- ===== src/Cluster/Sending/Runs.antt =====
-- Which messages are in the queue and which are waited for, in whatever order the runs of
-- `executeSlaveQueue` go on, as long as the first slave answers nothing and no write fails.
use grandma_scheduling_servi.Prelude.{
  ℕ, ◌+◌, ◌<◌, ◌≡◌, Bool, if◌then◌else◌, List, map, some, length, Outcome,
}
use grandma_scheduling_servi.Message.{Obj}
use grandma_scheduling_servi.Queue.Inv.{IsValid, contents}
use grandma_scheduling_servi.Cluster.Nodes.{Slaves}
use grandma_scheduling_servi.Cluster.Sending.{Sender, Sent, waits}
use grandma_scheduling_servi.Cluster.Sending.Returned.{IsSilent}
use grandma_scheduling_servi.Cluster.Sending.Steps.{count}

module _ (fix : ℕ → ℕ → Slaves → Outcome Slaves) (cap : ℕ) where
  module _ (p : ℕ) (f : Obj → Bool) (msgs : List Obj) (room : length msgs < cap) where
    -- Of the messages each is in the queue or waited for, once.
    pub record Kept (s : Sender) (ws : List Sent) : Type 0 where
      pub queued : List Obj
      pub waited : List Obj
      pub silent : IsSilent p s.slaves
      pub valid : IsValid cap s.cluster_queue
      pub in_queue : contents cap s.cluster_queue ≡ map some queued
      pub in_waits : ws ≡ map (waits p) waited
      pub sized : length queued + length waited ≡ length msgs
      pub counted : count f queued + count f waited ≡ count f msgs

    -- One wait of those that are all for `p`.
    record Taken (msg : Obj) (waited : List Obj) (w : Sent) (r : List Sent) : Type 0 where
      others : List Obj
      own : Obj
      is_own : w ≡ waits p own
      rests : r ≡ map (waits p) others
      sized : length waited ≡ length others + 1
      counted : count f waited ≡ (if f own then 1 else 0) + count f others
