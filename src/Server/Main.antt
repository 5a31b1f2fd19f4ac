-- ===== src/Server/Main.antt =====
-- server.go: `main`. What package flag has parsed, the files, the network, the database and the
-- readings of the clock are parameters. `ProcessMessageQueue` runs by itself, and serving HTTP has
-- no end: here the program has come to it.
pub mod Start
pub mod Restart
use grandma_scheduling_servi.Prelude.{
  ℕ, Bool, true, false, List, [], ◌∷◌, Option, none, some, if◌then◌else◌, Outcome, done, ◌>>=◌,
}
use grandma_scheduling_servi.Prelude.Int.{pos_part}
use grandma_scheduling_servi.Prelude.Text.{Bytes}
use grandma_scheduling_servi.Queue.{new_queue}
use grandma_scheduling_servi.Conf.{Settings, initial}
use grandma_scheduling_servi.Conf.Files.{Files, Flags, read_flags, configure, get_port}
use grandma_scheduling_servi.Schedule.Keystore.{unlocked}
use grandma_scheduling_servi.Schedule.Database.{MySql}
use grandma_scheduling_servi.Schedule.Service.{World, init_scheduler}
use grandma_scheduling_servi.Cluster.Network.{Outside, Role, single, master, slave, network}

pub data Ended (D : Type 0) : Type 0 where
  only_version : Ended D
  going_down : Ended D
  serving : Bytes → Role → World D → Ended D

-- The state that the packages are initialized to: before the settings are read, so that the queue
-- has the default length.
abbrev pub initial_world : {D : Type 0} → D → World D
initial_world d = record {
  db = d;
  store = record { data_map = []; time_table = []; lock = unlocked };
  main_queue = new_queue (pos_part initial.queue_length);
  tcp = none;
}

-- The connection that `Network` returns, of which nothing has been written by the scheduler.
abbrev pub connection : Role → Option (List Bytes)
connection single = none
connection (master slaves) = none
connection (slave session) = some []

module _ {D : Type 0} (db : MySql D) (clock : ℕ → ℕ × ℕ) (d : D) where
  unfoldable pub start_scheduler : Settings → Option Role → Outcome (Ended D)
  unfolding get_port
  start_scheduler s none = done going_down
  start_scheduler s (some role) =
      init_scheduler db s.grandma_name (pos_part s.queue_length) (connection role) clock
        (initial_world d)
      >>= λ w. done (serving (get_port s) role w)

  unfoldable pub main : Flags → Files → Outside → Outcome (Ended D)
  main flags files outside =
      let (goes_on, s) = read_flags flags initial in
      let started : Outcome (Ended D) =
        configure files s >>= λ s1. network outside s1 >>= start_scheduler s1 in
      if goes_on then started else done only_version
