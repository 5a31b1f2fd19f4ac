-- ===== src/Cluster/Network.antt =====
-- src/clustering/clustering.go, `Network`, with `waitMasterConnection` of network.go: how a node
-- starts, alone, as a master or as a slave. The loops that it starts for the rest of its life are
-- elsewhere or left out.
pub mod Waiting
pub mod Started
use grandma_scheduling_servi.Prelude.{
  ℕ, suc, Bool, true, false, List, [], ◌∷◌, Option, none, some, if◌then◌else◌, length, Outcome,
  done, blocked, Result, ok, err, ◌>>=◌,
}
use grandma_scheduling_servi.Prelude.Text.{Bytes}
use grandma_scheduling_servi.Schedule.Keystore.{unlocked}
use grandma_scheduling_servi.Conf.{Settings}
use grandma_scheduling_servi.Conf.Files.{get_network_port}
use grandma_scheduling_servi.Cluster.Handshake.{
  Status, success, timeout, refused, badconn, svr_err, unknown, Arrival, handshake_master,
  handshake_slave, run,
}
use grandma_scheduling_servi.Cluster.Nodes.{Node, Slaves}
use grandma_scheduling_servi.Cluster.Discovery.{
  Dialled, failed, connected, Error, underlying, discover_slaves,
}

-- A connection: whether each write succeeds, what arrives at each read, and whether it can be kept
-- alive.
pub record Session : Type 0 where
  pub writes : List Bool
  pub arrivals : List Arrival
  pub keep_alive : Bool

-- The network, and `heap.Init`. `none` where an address cannot be resolved or dialled, or where
-- accepting fails; `accepts` are the connections that come, in order.
pub record Outside : Type 0 where
  pub dial : Bytes → Option Session
  pub can_listen : Bytes → Bool
  pub accepts : List (Option Session)
  pub rank : Slaves → Outcome Slaves

-- Behind the handshake: with any status but success the loop goes on.
unfoldable pub by_slave_status :
    Session → Outcome (Result Error Session) → Status → Outcome (Result Error Session)
by_slave_status s next success = done (if s.keep_alive then ok s else err underlying)
by_slave_status s next timeout = next
by_slave_status s next refused = next
by_slave_status s next badconn = next
by_slave_status s next svr_err = next
by_slave_status s next unknown = next

module _ (secret name : Bytes) where
  abbrev pub shaken : Session → Outcome Status
  shaken s = run (handshake_slave secret name) s.writes s.arrivals

  -- The loop. Where no more connections come it waits for one.
  unfoldable pub accept_master : List (Option Session) → Outcome (Result Error Session)
  accept_master [] = blocked
  accept_master (none ∷ rest) = done (err underlying)
  accept_master (some s ∷ rest) =
      let next = accept_master rest in shaken s >>= by_slave_status s next

  -- What discovery finds at an address.
  unfoldable pub dialled : Option Session → Dialled
  dialled none = failed
  dialled (some s) = connected (run (handshake_master secret name) s.writes s.arrivals) s.keep_alive

unfoldable pub wait_master_connection : Outside → Settings → Outcome (Result Error Session)
wait_master_connection outside s =
    let accepted = accept_master s.network_secret s.grandma_name outside.accepts in
    if outside.can_listen (get_network_port s) then accepted else done (err underlying)

-- What a node is after the start. `single` and `master` return a nil connection.
pub data Role : Type 0 where
  single : Role
  master : Slaves → Role
  slave : Session → Role

abbrev numbers : ℕ → List Node → List ℕ
numbers i [] = []
numbers i (n ∷ nodes) = i ∷ numbers (suc i) nodes

-- The vector that is made of the list of nodes.
abbrev pub new_slaves : List Node → Slaves
new_slaves pool = record {
  nodes = pool;
  slave_connections = numbers 0 pool;
  dropped_connections = [];
  lock = unlocked;
}

unfoldable pub rank_slaves : Outside → Result Error (List Node) → Outcome (Option Role)
rank_slaves outside (err e) = done none
rank_slaves outside (ok pool) =
    outside.rank (new_slaves pool) >>= λ slaves. done (some (master slaves))

unfoldable pub serve_master : Result Error Session → Outcome (Option Role)
serve_master (err e) = done none
serve_master (ok session) = done (some (slave session))

-- `none` is `false`.
unfoldable pub network : Outside → Settings → Outcome (Option Role)
unfolding rank_slaves serve_master
network outside s =
    let find : Bytes → Dialled =
      λ address. dialled s.network_secret s.grandma_name (outside.dial address) in
    let clustered : Outcome (Option Role) = elim s.slave_list [
      | some addresses ↦ discover_slaves find addresses >>= rank_slaves outside
      | none ↦ wait_master_connection outside s >>= serve_master
    ] in
    if s.cluster_mode then clustered else done (some single)
