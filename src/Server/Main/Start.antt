-- ===== src/Server/Main/Start.antt =====
-- What holds when the program has come to serve.
use grandma_scheduling_servi.Prelude.{ℕ, ◌≡◌, refl, false, done, ◌>>=◌}
use grandma_scheduling_servi.Prelude.Int.{pos, pos_part, ◌≤ℤ◌}
use grandma_scheduling_servi.Prelude.Text.{Bytes}
use grandma_scheduling_servi.Conf.{Settings, initial}
use grandma_scheduling_servi.Conf.Files.{Files, Flags, read_flags, configure, get_port}
use grandma_scheduling_servi.Schedule.Database.{MySql}
use grandma_scheduling_servi.Schedule.Service.{World, init_scheduler}
use grandma_scheduling_servi.Cluster.Network.{Outside, Role, network}
use grandma_scheduling_servi.Cluster.Network.Started.{Plays}
use grandma_scheduling_servi.Server.Main.{initial_world, connection, start_scheduler, main}

-- The program serves with settings that a file has given it, in the role of these settings, and its
-- scheduler has recovered what it could read.
pub record Serves {D : Type 0} (db : MySql D) (clock : ℕ → ℕ × ℕ) (d : D) (flags : Flags)
    (files : Files) (outside : Outside) (port : Bytes) (role : Role) (w : World D) : Type 0 where
  pub settings : Settings
  pub configured : configure files (read_flags flags initial).1 ≡ done settings
  pub at_least : pos 10 ≤ℤ settings.queue_length
  pub at_most : settings.queue_length ≤ℤ pos 1000000
  pub plays : Plays outside settings role
  pub port_there : port ≡ get_port settings
  pub scheduled :
      init_scheduler db settings.grandma_name
        (pos_part settings.queue_length)
        (connection role)
        clock
        (initial_world d)
      ≡ done w

module _ {D : Type 0} (db : MySql D) (clock : ℕ → ℕ × ℕ) (d : D) (flags : Flags) (files : Files)
    (outside : Outside) where
  pub goes_on :
      flags.v ≡ false
      → main db clock d flags files outside ≡ (
          configure files (read_flags flags initial).1 >>= λ s1.
          network outside s1 >>= start_scheduler db clock d s1)
  unfolding main read_flags
  goes_on hidden = rw hidden refl
