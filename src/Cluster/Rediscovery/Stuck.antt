-- ===== src/Cluster/Rediscovery/Stuck.antt =====
-- What a lost slave leaves: `update` asks for the lock that it holds, and so do all others.
use grandma_scheduling_servi.Prelude.{ℕ, ◌≡◌, true, length, get_or}
use grandma_scheduling_servi.Cluster.Nodes.{Slaves}
use grandma_scheduling_servi.Cluster.Nodes.Locked.{nobody}

-- The node `p` as the others see it behind the loss, and the rest of the slaves.
pub record Abandoned (p : ℕ) (s s' : Slaves) : Type 0 where
  pub closed : (get_or s'.nodes p nobody).closed ≡ true
  pub saved : (get_or s'.nodes p nobody).saved ≡ (get_or s.nodes p nobody).complexity
  pub complexity : (get_or s'.nodes p nobody).complexity ≡ 999999
  pub held : s'.lock.writer ≡ true
  pub sized : length s'.nodes ≡ length s.nodes
  pub slots : s'.slave_connections ≡ s.slave_connections
  pub not_dropped : s'.dropped_connections ≡ s.dropped_connections
