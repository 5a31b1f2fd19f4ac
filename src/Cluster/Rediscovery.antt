-- ===== src/Cluster/Rediscovery.antt =====
-- src/clustering/network.go, `rediscoverSlaves` with `heartbeatSlave`: the rounds in which a master
-- sends a heartbeat to its slaves and looks for those it has lost. A round runs here as one step.
pub mod Stuck
use grandma_scheduling_servi.Prelude.{
  ℕ, zero, suc, Bool, true, false, not, List, [], ◌∷◌, ◌++◌, if◌then◌else◌, length, Outcome, done,
  ◌>>=◌, load,
}
use grandma_scheduling_servi.Prelude.Text.{Bytes}
use grandma_scheduling_servi.Schedule.Keystore.{acquire, release}
use grandma_scheduling_servi.Cluster.Handshake.{Status, success}
use grandma_scheduling_servi.Cluster.Nodes.{Node, Slaves, modify, update, send_slave}
use grandma_scheduling_servi.Cluster.Discovery.{Dialled, failed, connected}

-- COMM_TYPE_HEARTBEAT
abbrev pub heartbeat : Bytes
heartbeat = 153 ∷ []

-- `fix` is of container/heap.
module _ (fix : ℕ → ℕ → Slaves → Outcome Slaves) where
  -- A heartbeat for each of `n` slots from `index` on; `sent` says which writes succeed.
  unfoldable pub beat : (ℕ → Bool) → ℕ → ℕ → Slaves → Outcome Slaves
  beat sent zero index s = done s
  beat sent (suc n) index s =
      send_slave fix (sent index) heartbeat index s >>= λ r. beat sent n (suc index) r.1

  unfoldable pub heartbeat_slave : (ℕ → Bool) → Slaves → Outcome Slaves
  unfolding beat
  heartbeat_slave sent s = beat sent (length s.slave_connections) 0 s

  -- The node `p` is found again: it is open, and taken out of the list, of which `others` remain.
  unfoldable pub reopen : ℕ → List ℕ → Slaves → Outcome Slaves
  unfolding modify
  reopen p others s = do
    held ← acquire s.lock
    s1 ← modify p (λ node. record node { closed = false }) (record s { lock = held })
    node ← load s1.nodes p
    update fix p node.saved node.index
        (record s1 { dropped_connections = others; lock = release s1.lock })

  -- A node that is open already is only taken out of the list.
  unfoldable pub forget : List ℕ → Slaves → Outcome Slaves
  forget others s = do
    held ← acquire s.lock
    done (record s { dropped_connections = others; lock = release held })

  -- Behind the handshake: only success with a connection that can be kept ends the loop.
  unfoldable pub by_master_status : (next found : Outcome Slaves) → Bool → Status → Outcome Slaves
  by_master_status next found true success = found
  by_master_status next found _ _ = next

  module _ (dial : Bytes → Dialled) where
    -- The loop over the list, `kept` being behind it. An element that is removed has no next, so
    -- that the loop ends with the first removal.
    unfoldable pub look_for : List ℕ → List ℕ → Slaves → Outcome Slaves
    unfolding by_master_status reopen forget
    look_for kept [] s = done s
    look_for kept (p ∷ rest) s =
        let next = look_for (kept ++ (p ∷ [])) rest s in
        let dialled : Node → Outcome Slaves = λ node. elim (dial node.address) [
          | failed ↦ next
          | connected status alive ↦
              status >>= by_master_status next (reopen p (kept ++ rest) s) alive
        ] in
        load s.nodes p >>= λ node. if node.closed then dialled node else forget (kept ++ rest) s

    -- What one round of the loop does between two sleeps.
    unfoldable pub rediscover_slaves : (ℕ → Bool) → Slaves → Outcome Slaves
    unfolding heartbeat_slave look_for
    rediscover_slaves sent s =
        heartbeat_slave sent s >>= λ s1. look_for [] s1.dropped_connections s1
