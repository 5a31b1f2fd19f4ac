-- ===== src/Ws.antt =====
-- src/ws/ws.go: which connections are live under an id, and which get a message. A connection is
-- told apart by its address, `pointer`. Here, that a message goes to a connection is the write to its
-- channel; who reads that stands in Sockets.
pub mod Live
pub mod Sockets
use grandma_scheduling_servi.Prelude.{
  ℕ, ◌+◌, Bool, true, false, ◌||◌, List, [], ◌∷◌, ◌++◌, Option, none, some, ◌==◌, ltb,
  if◌then◌else◌, length,
}
use grandma_scheduling_servi.Prelude.Text.{Bytes, bytes_eq}

pub record Connection : Type 0 where
  pub id : Bytes
  pub key : Bytes
  pub pointer : ℕ

pub data Error : Type 0 where
  exceeds_max_conn : Error
  no_live_connection : Error

abbrev pub max_conn : ℕ
max_conn = 20

abbrev pub ConnMap : Type 0
ConnMap = Bytes → Option (List Connection)

unfoldable pub set_conns : Bytes → Option (List Connection) → ConnMap → ConnMap
set_conns id conns m = λ k. if bytes_eq id k then conns else m k

-- `conn_map[id]`, made if it is nil.
abbrev pub list_of : Option (List Connection) → List Connection
list_of none = []
list_of (some l) = l

unfoldable pub join : Connection → ConnMap → Option Error × ConnMap
unfolding set_conns
join c m =
    let conns = list_of (m c.id) in
    if ltb max_conn (length conns)
    then (some exceeds_max_conn, set_conns c.id (some conns) m)
    else (none, set_conns c.id (some (conns ++ (c ∷ []))) m)

-- The loop of `Leave`: the list without the connection, if it is there.
unfoldable pub remove_conn : Connection → List Connection → Option (List Connection)
remove_conn c [] = none
remove_conn c (x ∷ xs) =
    let rest = remove_conn c xs in
    if x.pointer == c.pointer then some xs else elim rest [ none ↦ none | some ys ↦ some (x ∷ ys) ]

abbrev pub kept : List Connection → Option (List Connection)
kept [] = none
kept (x ∷ xs) = some (x ∷ xs)

unfoldable pub leave : Connection → ConnMap → Option Error × ConnMap
unfolding set_conns remove_conn
leave c m = elim (m c.id) [
  | none ↦ (some no_live_connection, m)
  | some p ↦ elim (remove_conn c p) [
    | none ↦ (some no_live_connection, m)
    | some rest ↦ (none, set_conns c.id (kept rest) m)
  ]
]

-- The connections whose channels `Send` writes to, in order.
unfoldable pub recipients : Bytes → List Connection → List Connection
recipients key [] = []
recipients key (c ∷ cs) =
    let rest = recipients key cs in if bytes_eq key [] || bytes_eq c.key key then c ∷ rest else rest

unfoldable pub send : Bytes → Bytes → ConnMap → Option (List Connection)
unfolding recipients
send id key m = elim (m id) [ none ↦ none | some l ↦ some (recipients key l) ]
