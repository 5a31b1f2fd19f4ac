-- ===== src/Tests/Nodes.antt =====
-- A node that is asked over HTTP, a slave that is sent a message, and the slaves of a master.
use grandma_scheduling_servi.Prelude.{
  ℕ, ◌≡◌, refl, true, false, List, [], ◌∷◌, ◌++◌, none, some, Outcome, done, panic, blocked, ok,
  set, get_or, arith,
}
use grandma_scheduling_servi.Prelude.Text.{codes, bytes_eq, Lacks}
use grandma_scheduling_servi.Prelude.Dict.{lookup}
use grandma_scheduling_servi.Strconv.{parse_int}
use grandma_scheduling_servi.Message.{get_message_payload}
use grandma_scheduling_servi.Message.Valid
use grandma_scheduling_servi.Schedule.Keystore.{Schedule, unlocked}
use grandma_scheduling_servi.Schedule.Timer
use grandma_scheduling_servi.Schedule.Timer.{ticks}
use grandma_scheduling_servi.Schedule.Timer.Clock.{every_60}
use grandma_scheduling_servi.Schedule.Timer.Delivery.{fires}
use grandma_scheduling_servi.Schedule.Database.{Row, MySql, connected}
use grandma_scheduling_servi.Schedule.Service.{World, put_uint32}
use grandma_scheduling_servi.Json.{child}
use grandma_scheduling_servi.Json.Path.{at, at_key}
use grandma_scheduling_servi.Cluster.Calls
use grandma_scheduling_servi.Cluster.Calls.{slave_handler, plus_3}
use grandma_scheduling_servi.Cluster.Calls.Consumed.{answered, slave_handler-answered}
use grandma_scheduling_servi.Cluster.Nodes.{Node, Slaves, send_slave, master_handler}
use grandma_scheduling_servi.Cluster.Nodes.Locked.{nobody, slaves-blocked}
use grandma_scheduling_servi.Cluster.Nodes.Order.{Differ}
use grandma_scheduling_servi.Server.{Request, Response, Library, handler}
use grandma_scheduling_servi.Server.Answers.{Accepted}
use grandma_scheduling_servi.Server.Scheduling.{node_library, handler-fired, handler-panic}
use grandma_scheduling_servi.Tests.Services.{
  memory, name, fresh, message, row, inserted, fresh-IsConsistent, synced, synced-IsSynced,
}
use grandma_scheduling_servi.Tests.Requests.{document}

abbrev library : Library (Calls.Node (List Row))
library = record {
  decode = λ body. ok (child document);
  mac = λ s. s;
  fprintf = λ s. s;
  dist_calls = λ obj n. panic;
}

abbrev request : Request
request = record {
  method = codes "POST";
  time = codes "1";
  token = codes "test";
  body = some (codes "{}");
}

abbrev alone : Calls.Node (List Row)
alone = record {
  world = record fresh { tcp = none };
  complexity = 320;
  closed = false;
  waiting = [];
}

message-IsValid : Valid.IsValid (message 5000)
message-IsValid = record {
  addressed = λ e. cc;
  not_negative = omega arith;
  within = omega arith;
  type_low = omega arith;
  type_high = omega arith;
}

request-Accepted :
    (db : MySql (List Row))
    → Accepted (node_library db name 4 100000 100000 library) request (message 5000)
unfolding at parse_int at_key bytes_eq
request-Accepted db = record {
  posted = refl;
  body = codes "{}";
  arrived = refl;
  token = refl;
  encodes = record {
    root = child document;
    decoded = refl;
    has_type = (_, refl, (codes "107", refl, refl));
    has_endpoint = (_, refl, refl);
    has_message = (_, refl, refl);
    has_expiration = (_, refl, (codes "5000", refl, refl));
    valid = message-IsValid;
  };
}

endpoint-Lacks : Lacks b'\n' (codes "GET x y")
endpoint-Lacks = (λ e. cc, (λ e. cc, (λ e. cc, (λ e. cc, (λ e. cc, (λ e. cc, (λ e. cc, tt)))))))

body-Lacks : Lacks b'\n' (codes "hi")
body-Lacks = (λ e. cc, (λ e. cc, tt))

handler-fired_example :
    (reply : Response) × (c1 : Calls.Node (List Row)) × (ss : List Schedule) × (after : Timer.World)
    × (handler (node_library memory name 4 100000 100000 library) request alone ≡ done (reply, c1))
    × (reply.status ≡ 200)
    × (c1.complexity ≡ plus_3 320)
    × (ticks (every_60 100000 100) (record { timer = synced; store = c1.world.store })
        ≡ done (ss, after))
    × (fires 1 ss ≡ 1)
    × (lookup 1 after.store.time_table ≡ none)
handler-fired_example =
    handler-fired memory name 4 100000 100000 library request alone (message 5000) 100 5000 synced
      (row 1 105000 ∷ []) 1 (request-Accepted memory) (inserted 5000) fresh-IsConsistent
      (unfold lookup in refl) refl (omega arith) (omega arith) synced-IsSynced (omega arith)

-- Nothing can be prepared.
abbrev full : MySql (List Row)
full = record memory { prepare = λ s rows. false }

handler-panic_example :
    handler (node_library full name 4 100000 100000 library) request alone ≡ panic
handler-panic_example =
    handler-panic full name 4 100000 100000 library request alone (message 5000) []
      (request-Accepted full) (unfold connected in refl) refl

abbrev slave : Calls.Node (List Row)
slave = record { world = fresh; complexity = 320; closed = false; waiting = [] }

abbrev node : ℕ → Node
node complexity = record {
  complexity = complexity;
  saved = complexity;
  index = 0;
  closed = false;
  address = codes "localhost:12345";
  written = [];
  channel = [];
}

abbrev master : Slaves
master = record {
  nodes = node 100 ∷ node 90 ∷ [];
  slave_connections = 0 ∷ 1 ∷ [];
  dropped_connections = [];
  lock = unlocked;
}

abbrev no_fix : ℕ → ℕ → Slaves → Outcome Slaves
no_fix i n s = done s

slave_handler-answered_example :
    (w1 : World (List Row)) × (ss : List Schedule) × (after : Timer.World) × (slave_handler memory
        name 4 100000 100000 true true
        (151 ∷ get_message_payload (message 5000))
        slave
      ≡ done (record slave { world = w1 }))
    × (ticks (every_60 100000 100) (record { timer = synced; store = w1.store }) ≡ done (ss, after))
    × (fires 1 ss ≡ 1)
    × (w1.tcp ≡ some ([] ++ ((0 ∷ 5 ∷ []) ∷ (150 ∷ put_uint32 1) ∷ [])))
    × (master_handler no_fix (150 ∷ put_uint32 1) 1 master
        ≡ done (record master {
          nodes = set master.nodes 1 (answered 1 (get_or master.nodes 1 nobody));
        }))
slave_handler-answered_example =
    slave_handler-answered memory name 4 true true 100000 100000 100 5000 (message 5000) slave []
      synced (row 1 105000 ∷ []) 1 no_fix 1 master message-IsValid endpoint-Lacks body-Lacks
      (inserted 5000) fresh-IsConsistent (unfold lookup in refl) refl refl (omega arith)
      (omega arith) synced-IsSynced (omega arith) (omega arith) (omega arith)

slaves-blocked_example :
    (send_slave no_fix false (153 ∷ []) 1 master ≡ blocked)
    × (master_handler no_fix (152 ∷ []) 1 master ≡ blocked)
slaves-blocked_example =
    slaves-blocked no_fix 1 1 (153 ∷ []) [] master (node 90) refl refl (omega arith) refl

two_slaves : Differ master 0 1 0 1
two_slaves = record {
  free = refl;
  first = refl;
  second = refl;
  in_i = omega arith;
  in_j = omega arith;
  in_p = omega arith;
  in_q = omega arith;
  slots = λ e. cc;
  pointers = λ e. cc;
}
