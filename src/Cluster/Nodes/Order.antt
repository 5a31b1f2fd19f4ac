-- ===== src/Cluster/Nodes/Order.antt =====
-- `Swap`, by which container/heap keeps the slaves in order.
use grandma_scheduling_servi.Prelude.{
  ℕ, ◌<◌, ◌≡◌, ◌≢◌, ◌∙◌, refl, true, set, get_or, length, done, load, load-get_or, ltb, length-set,
  get_or-set_self, get_or-set_ne, arith,
}
use grandma_scheduling_servi.Schedule.Keystore.{unlocked}
use grandma_scheduling_servi.Cluster.Nodes.{Node, Slaves, swap}
use grandma_scheduling_servi.Cluster.Nodes.Locked.{nobody, modify-done}

-- Two slots of the queue that hold different nodes.
pub record Differ (s : Slaves) (i j p q : ℕ) : Type 0 where
  pub free : s.lock ≡ unlocked
  pub first : load s.slave_connections i ≡ done p
  pub second : load s.slave_connections j ≡ done q
  pub in_i : i < length s.slave_connections
  pub in_j : j < length s.slave_connections
  pub in_p : p < length s.nodes
  pub in_q : q < length s.nodes
  pub slots : i ≢ j
  pub pointers : p ≢ q

-- Two slots that hold different nodes are exchanged by `Swap`, which gives each node the index of
-- the slot that it has left.
pub swap-index :
    (s : Slaves) (i j p q : ℕ)
    → Differ s i j p q
    → (s' : Slaves) × (swap i j s ≡ done s')
      × (s'.lock ≡ unlocked)
      × (load s'.slave_connections i ≡ done q)
      × (load s'.slave_connections j ≡ done p)
      × ((get_or s'.nodes p nobody).index ≡ i)
      × ((get_or s'.nodes q nobody).index ≡ j)
unfolding swap
swap-index s i j p q d =
    let conns = set (set s.slave_connections i q) j p in
    let left_j : Node → Node = λ node. record node { index = j } in
    let left_i : Node → Node = λ node. record node { index = i } in
    let nodes = set s.nodes q (left_j (get_or s.nodes q nobody)) in
    let nodes' = set nodes p (left_i (get_or nodes p nobody)) in
    let conn_size = length-set s.slave_connections i q in
    let conn_size' = length-set (set s.slave_connections i q) j p in
    let size = length-set s.nodes q (left_j (get_or s.nodes q nobody)) in
    let room_i : ltb i (length s.slave_connections) ≡ true = ground (arith, d.in_i) in
    let room_j : ltb j (length (set s.slave_connections i q)) ≡ true =
      ground (arith, d.in_j, conn_size) in
    let held : Slaves = record s {
      slave_connections = conns;
      lock = record { readers = 0; writer = true };
    } in
    let last : Slaves = record held { nodes = nodes } in
    (
      record s { nodes = nodes'; slave_connections = conns; lock = unlocked },
      rw (
        d.free,
        d.first,
        d.second,
        room_i,
        room_j,
        modify-done q left_j held d.in_q,
        modify-done p left_i last (omega (arith, size, d.in_p)),
      ),
      refl,
      load-get_or conns i 0 (omega (arith, d.in_i, conn_size, conn_size'))
          ∙ rw (
            get_or-set_ne (set s.slave_connections i q) j i p 0 (λ e. d.slots (cc)),
            get_or-set_self s.slave_connections i q 0 d.in_i,
          ),
      load-get_or conns j 0 (omega (arith, d.in_j, conn_size, conn_size'))
          ∙ rw (
              get_or-set_self (set s.slave_connections i q) j p 0
                (omega (arith, d.in_j, conn_size))),
      rw (
          get_or-set_self nodes p (left_i (get_or nodes p nobody)) nobody
            (omega (arith, size, d.in_p))),
      rw (
        get_or-set_ne nodes p q (left_i (get_or nodes p nobody)) nobody d.pointers,
        get_or-set_self s.nodes q (left_j (get_or s.nodes q nobody)) nobody d.in_q,
      ),
    )
