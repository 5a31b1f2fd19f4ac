-- ===== src/Cluster/Listeners/Stream.antt =====
-- A whole stream of messages: a loop hands on each of them.
use grandma_scheduling_servi.Prelude.{ℕ, ◌^◌, ◌≤◌, ◌<◌, List, [], ◌∷◌, ◌++◌, length}
use grandma_scheduling_servi.Prelude.Text.{Bytes}
use grandma_scheduling_servi.Cluster.Framing.{frame}

-- A `Read` that brings two bytes or more, and leaves room for one.
abbrev pub IsCut : ℕ → Bytes → Type 0
IsCut cap c = (2 ≤ length c) × (length c < cap)

-- A message that one frame can carry.
abbrev pub IsCarried : ℕ → Bytes → Type 0
IsCarried cap msg = (0 < length msg) × (length msg ≤ cap) × (length msg < 2 ^ 15)

-- What is written for some messages, one after the other.
abbrev pub stream : List Bytes → Bytes
stream [] = []
stream (msg ∷ msgs) = frame msg ++ stream msgs
