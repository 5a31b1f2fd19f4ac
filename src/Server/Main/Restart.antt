-- ===== src/Server/Main/Restart.antt =====
-- A restart, from the flags to the recovered schedules.
use grandma_scheduling_servi.Prelude.{
  ℕ, ◌<◌, ◌≡◌, refl, ap, ◌∙◌, false, List, [], some, done, ◌>>=◌, length, All, arith,
}
use grandma_scheduling_servi.Prelude.Int.{pos, pos_part}
use grandma_scheduling_servi.Prelude.Text.{Bytes}
use grandma_scheduling_servi.Prelude.Dict.{lookup}
use grandma_scheduling_servi.Message.{Obj}
use grandma_scheduling_servi.Conf.{Settings, initial}
use grandma_scheduling_servi.Conf.Files.{Files, Flags, read_flags, configure, get_port}
use grandma_scheduling_servi.Queue.{new_queue}
use grandma_scheduling_servi.Queue.Inv.{contents, new_queue-IsValid}
use grandma_scheduling_servi.Schedule.Keystore.Invariant.{IsConsistent}
use grandma_scheduling_servi.Schedule.Database.{MySql, Row, records, initialize_my_sql_database}
use grandma_scheduling_servi.Schedule.Service.{World, timed, init_scheduler}
use grandma_scheduling_servi.Schedule.Service.Recovery.{
  IsUp, AreNew, due_messages, Recovered, recover_schedule-Recovered,
}
use grandma_scheduling_servi.Cluster.Network.{Outside, Role, network}
use grandma_scheduling_servi.Server.Main.{serving, initial_world, connection, start_scheduler, main}
use grandma_scheduling_servi.Server.Main.Start.{goes_on}

-- The world before the recovery.
abbrev pub opened : {D : Type 0} → MySql D → Bytes → Role → D → World D
opened db name role d = record (initial_world (initialize_my_sql_database db name d).1) {
  tcp = connection role;
}

initial_world-IsConsistent : {D : Type 0} (d : D) → IsConsistent (initial_world d).store
unfolding lookup
initial_world-IsConsistent d = record { idle = refl; filled = λ t h. cc; agrees = λ id t. refl }

-- The rows that were not sent before a restart.
pub record Left {D : Type 0} (db : MySql D) (name : Bytes) (len : ℕ) (Has : Row → D → Type 0)
    (clock : ℕ → ℕ × ℕ) (rows : List Row) (w : World D) : Type 0 where
  pub unsent : db.unsent (records name) w.db ≡ some rows
  pub there : All (λ t. Has t.1 w.db) (timed clock 0 rows)
  pub new : AreNew (timed clock 0 rows) w.store.time_table
  pub room : length (due_messages (timed clock 0 rows)) < len

fresh-contents : (cap : ℕ) → contents cap (new_queue {A = Obj} cap) ≡ []
unfolding new_queue
fresh-contents cap = refl

module _ {D : Type 0} (db : MySql D) (clock : ℕ → ℕ × ℕ) (d : D) (Has : Row → D → Type 0) where
  init_scheduler-Recovered :
      (name : Bytes) (role : Role) (rows : List Row)
      → IsUp db name Has
      → Left db name 1000 Has clock rows (opened db name role d)
      → (w : World D) × (init_scheduler db name 1000 (connection role) clock (initial_world d)
          ≡ done w)
        × Recovered 1000 (timed clock 0 rows) (opened db name role d) w
  unfolding init_scheduler
  init_scheduler-Recovered name role rows up l =
      let w0 = opened db name role d in
      let empty : length (contents 1000 w0.main_queue) ≡ 0 = ap length (fresh-contents 1000) in
      let (w, ran, r) =
        recover_schedule-Recovered db name 1000 Has up clock rows w0 l.unsent l.there l.new
          (initial_world-IsConsistent d) (new_queue-IsValid 1000 (omega arith))
          (omega (arith, empty, l.room)) in
      (w, rw ran refl, r)

  started_at :
      (s : Settings) (role : Role) (w : World D)
      → init_scheduler db s.grandma_name
          (pos_part s.queue_length)
          (connection role)
          clock
          (initial_world d)
        ≡ done w
      → start_scheduler db clock d s (some role) ≡ done (serving (get_port s) role w)
  unfolding start_scheduler
  started_at s role w e = rw e refl

  -- Without the flag for the version, where the settings are read, with the queue length of the
  -- default, the node finds its place in the network and the database answers, the program comes to
  -- serve: each schedule that was not sent before is in the main queue, where it is due, or waits in
  -- its slot. This where the queue has room for those that are due, and no two rows that wait have
  -- one id.
  pub main-Recovered :
      (flags : Flags) (files : Files) (outside : Outside) (s : Settings) (role : Role)
      (rows : List Row)
      → flags.v ≡ false
      → configure files (read_flags flags initial).1 ≡ done s
      → s.queue_length ≡ pos 1000
      → network outside s ≡ done (some role)
      → IsUp db s.grandma_name Has
      → Left db s.grandma_name 1000 Has clock rows (opened db s.grandma_name role d)
      → (w : World D) × (main db clock d flags files outside ≡ done (serving (get_port s) role w))
        × Recovered 1000 (timed clock 0 rows) (opened db s.grandma_name role d) w
  main-Recovered flags files outside s role rows hidden configured default found up l =
      let (w, ran, r) = init_scheduler-Recovered s.grandma_name role rows up l in
      (
        w,
        goes_on db clock d flags files outside hidden
            ∙ (ap (λ o. o >>= λ s1. network outside s1 >>= start_scheduler db clock d s1) configured
                ∙ (ap (λ o. o >>= start_scheduler db clock d s) found
                    ∙ started_at s role w (
                        ap
                          (λ n.
                            init_scheduler db s.grandma_name (pos_part n) (connection role) clock
                              (initial_world d))
                          default
                        ∙ ran))),
        r,
      )
