-- ===== src/Cluster/Nodes/Locked.antt =====
-- `update` asks for the lock that it holds.
use grandma_scheduling_servi.Prelude.{
  ℕ, ◌+◌, ◌<◌, ◌≡◌, inl, inr, Bool-cases, true, false, ◌||◌, [], ◌∷◌, length, get_or, set, ltb,
  Outcome, done, blocked, load, load-get_or, length-set, ◌-◌, arith,
}
use grandma_scheduling_servi.Prelude.Text.{Bytes}
use grandma_scheduling_servi.Cluster.Nodes.{
  Node, Slaves, modify, update, disconnect_slave, send_slave, less_3, master_handler,
}

abbrev pub nobody : Node
nobody = record {
  complexity = 0;
  saved = 0;
  index = 0;
  closed = false;
  address = [];
  written = [];
  channel = [];
}

-- The node at a pointer that is in range.
pub modify-done :
    (p : ℕ) (f : Node → Node) (s : Slaves)
    → p < length s.nodes
    → modify p f s ≡ done (record s { nodes = set s.nodes p (f (get_or s.nodes p nobody)) })
unfolding modify
modify-done p f s h =
    let room : ltb p (length s.nodes) ≡ true = ground arith in
    rw (load-get_or s.nodes p nobody h, room)

module _ (fix : ℕ → ℕ → Slaves → Outcome Slaves) where
  pub update-blocked :
      (p complexity position : ℕ) (s : Slaves)
      → p < length s.nodes
      → update fix p complexity position s ≡ blocked
  unfolding update
  update-blocked p complexity position s h =
      elim (Bool-cases (s.lock.writer || ltb 0 s.lock.readers)) [
        | inl held ↦ rw held
        | inr free ↦ rw (
          free,
          modify-done p (λ node. record node { complexity = complexity })
              (record s { lock = record s.lock { writer = true } }) h,
        )
      ]

  disconnect_slave-blocked :
      (i p : ℕ) (s : Slaves)
      → load s.slave_connections i ≡ done p
      → p < length s.nodes
      → disconnect_slave fix i s ≡ blocked
  unfolding disconnect_slave
  disconnect_slave-blocked i p s hi h =
      let close : Node → Node = λ node. record node { closed = true; saved = node.complexity } in
      elim (Bool-cases (s.lock.writer || ltb 0 s.lock.readers)) [
        | inl held ↦ rw held
        | inr free ↦ rw (
          free,
          hi,
          modify-done p close (record s { lock = record s.lock { writer = true } }) h,
          update-blocked p 999999 i
              (record s {
                nodes = set s.nodes p (close (get_or s.nodes p nobody));
                lock = record s.lock { writer = false };
              })
              (omega (arith, h, length-set s.nodes p (close (get_or s.nodes p nobody)))),
        )
      ]

  -- A failing write to a slave that is not closed yet, and a slave's report that it has finished,
  -- each block their goroutine for ever.
  pub slaves-blocked :
      (p i : ℕ) (content rest : Bytes) (s : Slaves) (n : Node)
      → load s.slave_connections i ≡ done p
      → load s.nodes p ≡ done n
      → p < length s.nodes
      → n.closed ≡ false
      → (send_slave fix false content i s ≡ blocked)
        × (master_handler fix (152 ∷ rest) p s ≡ blocked)
  unfolding send_slave master_handler
  slaves-blocked p i content rest s n hi hp h opened = (
    elim (Bool-cases s.lock.writer) [
      | inl held ↦ rw held
      | inr free ↦ rw (
        free,
        hi,
        hp,
        opened,
        disconnect_slave-blocked i p
            (record s { lock = record { readers = s.lock.readers + 1 - 1; writer = false } }) hi h,
      )
    ],
    rw (hp, update-blocked p (less_3 n.complexity) n.index s h),
  )
