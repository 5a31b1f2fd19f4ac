-- ===== src/Cluster/Nodes.antt =====
-- src/clustering/network.go and manage.go: the slaves of a master. A `*Node` is a number into `nodes`,
-- so that the slots of `slave_connections` and the goroutines that hold a node share it. A call runs
-- here as one step: a lock that it finds held in its way it waits for itself, for ever.
pub mod Locked
pub mod Order
use grandma_scheduling_servi.Prelude.{
  ℕ, zero, suc, ◌+◌, ◌-◌, ◌*◌, ◌/◌, ◌%◌, ◌^◌, Bool, true, false, List, [], ◌∷◌, ◌++◌, Option, none,
  some, if◌then◌else◌, length, Outcome, done, panic, ◌>>=◌, load, store, ◌==◌, ltb,
}
use grandma_scheduling_servi.Prelude.Int.{ℤ, sub_ℕ, pos}
use grandma_scheduling_servi.Prelude.Text.{Bytes}
use grandma_scheduling_servi.Schedule.Keystore.{
  RwMutex, acquire, release, acquire_read, release_read,
}

-- `channel` holds what has been sent to the channel and not received, in order: behind the first,
-- for which it has room, what the goroutines hold that wait to send. `written` is what has been
-- written to the connection.
pub record Node : Type 0 where
  pub complexity : ℕ
  pub saved : ℕ
  pub index : ℕ
  pub closed : Bool
  pub address : Bytes
  pub written : List Bytes
  pub channel : List ℤ

-- `lock` is RWLock.
pub record Slaves : Type 0 where
  pub nodes : List Node
  pub slave_connections : List ℕ
  pub dropped_connections : List ℕ
  pub lock : RwMutex

-- A field of a node is changed.
unfoldable pub modify : ℕ → (Node → Node) → Slaves → Outcome Slaves
modify p f s = do
  node ← load s.nodes p
  nodes ← store s.nodes p (f node)
  done (record s { nodes = nodes })

unfoldable pub less : ℕ → ℕ → Slaves → Outcome (Bool × Slaves)
less i j s = do
  held ← acquire_read s.lock
  p ← load s.slave_connections i
  q ← load s.slave_connections j
  first ← load s.nodes p
  second ← load s.nodes q
  done (ltb first.complexity second.complexity, record s { lock = release_read held })

-- `NodeQueue.Len`
unfoldable pub len : Slaves → Outcome (ℕ × Slaves)
len s = do
  held ← acquire_read s.lock
  done (length s.slave_connections, record s { lock = release_read held })

unfoldable pub swap : ℕ → ℕ → Slaves → Outcome Slaves
unfolding modify
swap i j s = do
  held ← acquire s.lock
  p ← load s.slave_connections i
  q ← load s.slave_connections j
  conns ← store s.slave_connections i q
  conns' ← store conns j p
  s1 ←
      modify q (λ node. record node { index = j })
        (record s { slave_connections = conns'; lock = held })
  s2 ← modify p (λ node. record node { index = i }) s1
  done (record s2 { lock = release s2.lock })

-- On uint.
abbrev pub less_3 : ℕ → ℕ
less_3 c = (c + 2 ^ 64 - 3) % 2 ^ 64

-- An int32 of four little-endian bytes.
abbrev pub int32 : ℕ → ℕ → ℕ → ℕ → ℤ
int32 a b c d =
    let word = a + 2 ^ 8 * b + 2 ^ 16 * c + 2 ^ 24 * d in
    if ltb word (2 ^ 31) then pos word else sub_ℕ word (2 ^ 32)

-- What follows the type of a message that something is consumed; `none` where it is too short.
unfoldable pub schedule_id : Bytes → Option ℤ
schedule_id (a ∷ b ∷ c ∷ d ∷ more) = some (int32 a b c d)
schedule_id _ = none

-- The parts of `update` and `disconnectSlave` in front of `heap.Fix`.
unfoldable pub begin_update : ℕ → ℕ → Slaves → Outcome Slaves
unfolding modify
begin_update p complexity s = do
  held ← acquire s.lock
  modify p (λ node. record node { complexity = complexity }) (record s { lock = held })

unfoldable pub mark_closed : ℕ → Slaves → Outcome (ℕ × Slaves)
unfolding modify
mark_closed slave_num s = do
  held ← acquire s.lock
  p ← load s.slave_connections slave_num
  s1 ←
      modify p (λ node. record node { closed = true; saved = node.complexity })
        (record s { lock = held })
  done (p, record s1 { lock = release s1.lock })

-- What `disconnectSlave` has written when it comes to `heap.Fix`. Where that waits, it is what the
-- other goroutines see from then on.
unfoldable pub left_waiting : ℕ → Slaves → Outcome Slaves
unfolding mark_closed begin_update
left_waiting slave_num s = mark_closed slave_num s >>= λ r. begin_update r.0 999999 r.1

-- `heap.Fix` asks for the length first; `fix` is the rest of it, of container/heap. A call that is
-- `blocked` says nothing of what it has written before: that is `left_waiting`.
module _ (fix : ℕ → ℕ → Slaves → Outcome Slaves) where
  unfoldable pub update : ℕ → ℕ → ℕ → Slaves → Outcome Slaves
  unfolding begin_update len
  update p complexity position s = do
    s1 ← begin_update p complexity s
    r ← len s1
    s2 ← fix position r.0 r.1
    done (record s2 { lock = release s2.lock })

  unfoldable pub disconnect_slave : ℕ → Slaves → Outcome Slaves
  unfolding mark_closed
  disconnect_slave slave_num s = do
    r ← mark_closed slave_num s
    s2 ← update r.0 999999 slave_num r.1
    done (record s2 { dropped_connections = s2.dropped_connections ++ (r.0 ∷ []) })

  -- `sent` says whether the second `Write` succeeds. `true` is a nil error.
  unfoldable pub send_slave : Bool → Bytes → ℕ → Slaves → Outcome ((ℕ × Bool) × Slaves)
  unfolding modify
  send_slave sent content slave_num s = do
    held ← acquire_read s.lock
    p ← load s.slave_connections slave_num
    node ← load s.nodes p
    let header : Bytes = (length content / 256 % 256) ∷ (length content % 256) ∷ []
    let s1 : Slaves = record s { lock = release_read held }
    let wrote : Outcome ((ℕ × Bool) × Slaves) =
        modify p (λ n. record n { written = n.written ++ (header ∷ content ∷ []) }) s1 >>= λ s2.
        done ((p, true), s2)
    let failed : Outcome ((ℕ × Bool) × Slaves) =
        disconnect_slave slave_num s1 >>= λ s2. done ((p, false), s2)
    if node.closed then done ((p, true), s1) else if sent then wrote else failed

  -- The types are COMM_TYPE_CONSUMED and COMM_TYPE_FINISHED; nothing is done for the others.
  unfoldable pub master_handler : Bytes → ℕ → Slaves → Outcome Slaves
  unfolding modify
  master_handler [] p s = done s
  master_handler (data_type ∷ rest) p s =
      let consumed : Outcome Slaves = elim (schedule_id rest) [
        | none ↦ done s
        | some id ↦ modify p (λ n. record n { channel = n.channel ++ (id ∷ []) }) s
      ] in
      let finished : Outcome Slaves =
        load s.nodes p >>= λ node. update p (less_3 node.complexity) node.index s in
      if data_type == 150 then consumed else if data_type == 152 then finished else done s
