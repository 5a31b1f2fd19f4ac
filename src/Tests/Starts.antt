-- ===== src/Tests/Starts.antt =====
-- A slave that starts, and one that comes back, behind a connection that was no master's.
use grandma_scheduling_servi.Prelude.{
  ◌≡◌, ◌↔◌, ◌⊎◌, refl, true, false, List, [], ◌∷◌, Option, none, some, done, ok, inl, inr, arith,
}
use grandma_scheduling_servi.Prelude.Text.{codes, bytes_eq}
use grandma_scheduling_servi.Prelude.Dict.{lookup, insert}
use grandma_scheduling_servi.Json.{
  Json, child, text, bool, object, field, end, as_object, object_from_value, get_string,
  get_boolean, as_string, as_boolean,
}
use grandma_scheduling_servi.Conf.{Settings, initial, set_default}
use grandma_scheduling_servi.Conf.Files.{
  Files, Flags, read_flags, set_keys, read_content, read_path, read_config_from_file, configure,
  get_port,
}
use grandma_scheduling_servi.Conf.Keys.{set_key, key_of, set_known}
use grandma_scheduling_servi.Schedule.Database.{Row, initialize_my_sql_database}
use grandma_scheduling_servi.Schedule.Service.{World, timed}
use grandma_scheduling_servi.Schedule.Service.Recovery.{Recovered}
use grandma_scheduling_servi.Cluster.Handshake.{
  bytes, run, handshake_slave, slave_secret, read_and_check_time_out,
}
use grandma_scheduling_servi.Cluster.Network.{
  Session, Outside, slave, by_slave_status, accept_master, wait_master_connection, serve_master,
  network,
}
use grandma_scheduling_servi.Cluster.Calls.{send_master}
use grandma_scheduling_servi.Cluster.Rejoin.{Slave, rejoined, await_master, rediscover_master}
use grandma_scheduling_servi.Cluster.Rejoin.Taken.{Comes, on_session, rediscover_master-done_iff}
use grandma_scheduling_servi.Server.Main.{serving, main}
use grandma_scheduling_servi.Server.Main.Restart.{opened, Left, main-Recovered}
use grandma_scheduling_servi.Tests.Services.{memory, row, name, memory-IsUp, select, clock}

abbrev document : Json
document =
    object
      (field (codes "cluster_mode") (bool true) (field (codes "secret") (text (codes "k")) end))

abbrev files : Files
files = record {
  read_dir = some [];
  read_file = λ path. some (codes "{}");
  decode = λ content. ok (child document);
  range = λ keys. keys;
}

abbrev flags : Flags
flags = record { c = some (codes "my.conf"); p = none; np = none; n = none; v = false }

abbrev settings : Settings
settings = record (set_default initial) {
  path_conf = codes "my.conf";
  cluster_mode = true;
  network_secret = codes "k";
}

configure-files : configure files (read_flags flags initial).1 ≡ done settings
unfolding configure read_flags read_config_from_file set_default read_path read_content
    object_from_value as_object set_keys set_key key_of bytes_eq set_known get_string get_boolean
    as_string as_boolean
configure-files = refl

-- What comes first is no request.
abbrev stranger : Session
stranger = record { writes = true ∷ []; arrivals = bytes (1 ∷ []) ∷ []; keep_alive = true }

abbrev friend : Session
friend = record {
  writes = true ∷ true ∷ true ∷ [];
  arrivals = bytes (100 ∷ []) ∷ bytes (codes "k") ∷ bytes (codes "m") ∷ bytes (220 ∷ []) ∷ [];
  keep_alive = true;
}

abbrev outside : Outside
outside = record {
  dial = λ address. none;
  can_listen = λ port. true;
  accepts = some stranger ∷ some friend ∷ [];
  rank = done;
}

accept_master-friend : accept_master (codes "k") name outside.accepts ≡ done (ok friend)
unfolding accept_master by_slave_status run handshake_slave read_and_check_time_out bytes_eq
    slave_secret
accept_master-friend = refl

network-friend : network outside settings ≡ done (some (slave friend))
unfolding network wait_master_connection serve_master set_default
network-friend = rw accept_master-friend refl

-- One schedule is due, one is not.
abbrev rows : List Row
rows = row 1 105000 ∷ row 2 90000 ∷ []

left :
    Left memory name 1000
      (λ r rs. select r.id rs ≡ r ∷ [])
      clock
      rows
      (opened memory name (slave friend) rows)
unfolding lookup insert initialize_my_sql_database
left = record {
  unsent = refl;
  there = (refl, (refl, tt));
  new = (inr refl, (inl refl, tt));
  room = omega arith;
}

main-Recovered_example :
    (w : World (List Row)) × (main memory clock rows flags files outside
      ≡ done (serving (get_port settings) (slave friend) w))
    × Recovered 1000 (timed clock 0 rows) (opened memory name (slave friend) rows) w
unfolding set_default
main-Recovered_example =
    main-Recovered memory clock rows (λ r rs. select r.id rs ≡ r ∷ []) flags files outside settings
      (slave friend) rows refl configure-files refl network-friend memory-IsUp left

-- A slave whose master is gone.
abbrev left_alone : Slave (List Row)
left_alone = record {
  node = record {
    world = opened memory name (slave friend) rows;
    complexity = 320;
    closed = true;
    waiting = [];
  };
  session = stranger;
}

abbrev callers : List (Option Session)
callers = none ∷ some stranger ∷ some friend ∷ []

comes_back :
    rediscover_master (codes "k") name true true callers left_alone
    ≡ done (on_session friend left_alone)
unfolding rediscover_master send_master await_master rejoined run handshake_slave
    read_and_check_time_out bytes_eq slave_secret
comes_back = refl

rediscover_master-done_iff_example :
    (rediscover_master (codes "k") name true true callers left_alone
      ≡ done (on_session friend left_alone))
    ↔ (((true ≡ false) × (on_session friend left_alone ≡ left_alone))
        ⊎ ((true ≡ true)
            × (s : Session) × (on_session friend left_alone ≡ on_session s left_alone)
            × Comes (codes "k") name callers s))
rediscover_master-done_iff_example =
    rediscover_master-done_iff (codes "k") name left_alone true true callers
      (on_session friend left_alone) refl
