-- ===== src/Cluster/Listeners.antt =====
-- src/clustering/network.go, the loops of `startLoopListener` and `startPointListener`: what is read
-- from a connection is copied and handed to a handler, a message at a time. The handlers are
-- goroutines of their own; here the loop yields what each of them is started with.
pub mod Stream
use grandma_scheduling_servi.Prelude.{
  ℕ, zero, suc, List, [], ◌∷◌, if◌then◌else◌, ltb, take, Outcome, done, panic, ◌>>=◌,
}
use grandma_scheduling_servi.Prelude.Text.{Bytes}
use grandma_scheduling_servi.Cluster.Framing.{Link, read_data}

-- The first rounds of the loop, which never ends. Nothing is handed on where the size is 0.
unfoldable pub listen : ℕ → ℕ → Link → Outcome (List Bytes × Link)
listen cap zero l = done ([], l)
listen cap (suc n) l = do
  (size, l1) ← read_data cap l
  (handed, l2) ← listen cap n l1
  done (if ltb 0 size then take size l1.read_buffer ∷ handed else handed, l2)
