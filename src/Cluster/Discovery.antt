-- ===== src/Cluster/Discovery.antt =====
-- src/clustering/network.go, `discoverSlaves`: the nodes that a master starts with. Resolving,
-- dialling and keeping alive are parameters, as is how the handshake with an address ends.
pub mod Pool
use grandma_scheduling_servi.Prelude.{
  ℕ, suc, ◌-◌, ◌+◌, ◌≡◌, ◌≢◌, Bool, true, false, List, [], ◌∷◌, ◌++◌, if◌then◌else◌, length,
  Outcome, done, ◌>>=◌, Result, ok, err, ◌==◌,
}
use grandma_scheduling_servi.Prelude.Text.{Bytes}
use grandma_scheduling_servi.Cluster.Handshake.{
  Status, success, timeout, refused, badconn, svr_err, unknown,
}
use grandma_scheduling_servi.Cluster.Nodes.{Node}

-- What an address leads to: nothing, or a connection with the end of the handshake on it, and
-- whether the connection can be kept alive.
pub data Dialled : Type 0 where
  failed : Dialled
  connected : Outcome Status → Bool → Dialled

pub data Error : Type 0 where
  no_available_slave : Error
  underlying : Error

abbrev pub new_node : ℕ → Bytes → Node
new_node index address = record {
  complexity = 100;
  saved = 100;
  index = index;
  closed = false;
  address = address;
  written = [];
  channel = [];
}

-- Behind the loop.
abbrev pub pool_or_error : List Node → Result Error (List Node)
pool_or_error pool = if length pool == 0 then err no_available_slave else ok pool

-- Behind the handshake: `count` goes on with a node, and also where the master itself failed.
unfoldable pub by_status :
    (next same : Outcome (Result Error (List Node)))
    → (pushed : Outcome (Result Error (List Node))) → Bool
    → Status
    → Outcome (Result Error (List Node))
by_status next same pushed alive success = if alive then pushed else done (err underlying)
by_status next same pushed alive svr_err = next
by_status next same pushed alive badconn = same
by_status next same pushed alive refused = same
by_status next same pushed alive timeout = same
by_status next same pushed alive unknown = same

module _ (dial : Bytes → Dialled) where
  unfoldable pub connect_all : ℕ → List Bytes → List Node → Outcome (Result Error (List Node))
  unfolding by_status
  connect_all count [] pool = done (pool_or_error pool)
  connect_all count (address ∷ rest) pool =
      let next = connect_all (count + 1) rest pool in
      let same = connect_all count rest pool in
      let pushed = connect_all (count + 1) rest (pool ++ (new_node (count - 1) address ∷ [])) in
      elim (dial address) [
        | failed ↦ done (err underlying)
        | connected status alive ↦ status >>= by_status next same pushed alive
      ]

  unfoldable pub discover_slaves : List Bytes → Outcome (Result Error (List Node))
  unfolding connect_all
  discover_slaves addresses = connect_all 1 addresses []

-- The address leads to a handshake that ends well or is refused by the slave.
pub record Answers (dial : Bytes → Dialled) (address : Bytes) : Type 0 where
  pub status : Status
  pub dialled : dial address ≡ connected (done status) true
  pub not_own : status ≢ svr_err

abbrev is_success : Dialled → Bool
is_success (connected (done success) alive) = true
is_success _ = false

-- The addresses that shake hands, in order, each with its number.
abbrev pub answering : (Bytes → Dialled) → List Bytes → List Bytes
answering dial [] = []
answering dial (a ∷ rest) =
    let others = answering dial rest in if is_success (dial a) then a ∷ others else others

abbrev pub numbered : ℕ → List Bytes → List Node
numbered i [] = []
numbered i (a ∷ rest) = new_node i a ∷ numbered (suc i) rest
