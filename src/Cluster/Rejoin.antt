-- ===== src/Cluster/Rejoin.antt =====
-- src/clustering/network.go, `rediscoverMasterConnection` with `heartbeatMaster`: the rounds in
-- which a slave sends a heartbeat to its master, and waits for it again where it has lost it.
pub mod Taken
use grandma_scheduling_servi.Prelude.{
  ℕ, Bool, true, false, List, [], ◌∷◌, Option, none, some, if◌then◌else◌, Outcome, done, blocked,
  ◌>>=◌,
}
use grandma_scheduling_servi.Prelude.Text.{Bytes}
use grandma_scheduling_servi.Schedule.Service.{change_connection}
use grandma_scheduling_servi.Cluster.Handshake.{Status, success}
use grandma_scheduling_servi.Cluster.Calls.{Node, send_master}
use grandma_scheduling_servi.Cluster.Network.{Session, shaken}
use grandma_scheduling_servi.Cluster.Rediscovery.{heartbeat}

-- Behind the handshake: only success with a connection that can be kept ends the loop.
abbrev pub is_taken : Session → Status → Bool
is_taken s success = s.keep_alive
is_taken s _ = false

-- `session` is `master_connection.conn`.
pub record Slave (D : Type 0) : Type 0 where
  pub node : Node D
  pub session : Session

module _ {D : Type 0} where
  -- The new connection, on which nothing has been written yet.
  unfoldable pub rejoined : Session → Slave D → Slave D
  unfolding change_connection
  rejoined session c = record {
    session = session;
    node = record c.node { closed = false; world = change_connection (some []) c.node.world };
  }

  module _ (secret name : Bytes) where
    -- The inner loop. An error of accepting goes on, too.
    unfoldable pub await_master : List (Option Session) → Slave D → Outcome (Slave D)
    await_master [] c = blocked
    await_master (none ∷ rest) c = await_master rest c
    await_master (some s ∷ rest) c =
        let next = await_master rest c in
        shaken secret name s >>= λ status. if is_taken s status then done (rejoined s c) else next

    -- What one round does before it sleeps. Where the port cannot be listened to it begins again.
    unfoldable pub rediscover_master :
        Bool → Bool → List (Option Session) → Slave D → Outcome (Slave D)
    unfolding send_master
    rediscover_master sent can_listen accepts c = send_master sent heartbeat c.node >>= λ node.
        let c1 : Slave D = record c { node = node } in
        let waited = await_master accepts c1 in
        if node.closed then (if can_listen then waited else done c1) else done c1
