-- ===== src/Schedule/Timer.antt =====
-- src/schedule/timer.go: `tickingFunc`, which runs every 60 ms. The goroutine that it starts runs
-- here as part of the tick, so it is done before the next one. `now` is the reading of the clock in
-- milliseconds, which is far above 1000.
pub mod Fire
pub mod Clock
pub mod Delivery
pub mod Startup
use grandma_scheduling_servi.Prelude.{
  ℕ, ◌+◌, ◌-◌, ◌/◌, List, [], ◌∷◌, Option, none, some, ◌==◌, if◌then◌else◌, Outcome, done, panic,
  ◌>>=◌, ◌++◌,
}
use grandma_scheduling_servi.Prelude.Dict.{lookup, delete}
use grandma_scheduling_servi.Schedule.Keystore.{Schedule, Store, get}

abbrev pub breakpoint : ℕ
breakpoint = 500

-- `counter` and `current_time`.
pub record Timer : Type 0 where
  pub counter : ℕ
  pub current_time : ℕ

-- As the program starts.
abbrev pub initial : Timer
initial = record { counter = 0; current_time = 0 }

unfoldable pub advance : ℕ → Timer → Timer
advance now tm =
    if tm.counter == breakpoint
    then record { counter = 0; current_time = now - 1000 }
    else record { counter = tm.counter + 1; current_time = tm.current_time + 62 }

abbrev pub slot : Timer → ℕ
slot tm = tm.current_time / 100

-- The body of the loop: `get` gives a nil schedule for an id that `time_table` lacks, and reading
-- its `Id` panics. The schedules are those that `pushToSendingQueue` is started for.
unfoldable pub fire_one : Option Schedule → Store → Outcome (Schedule × Store)
fire_one none st = panic
fire_one (some s) st = done (s, record st { time_table = delete s.id st.time_table })

unfoldable pub fire_each : List ℕ → Store → Outcome (List Schedule × Store)
unfolding fire_one
fire_each [] st = done ([], st)
fire_each (x ∷ xs) st = do
  (found, st1) ← get x st
  (s, st2) ← fire_one found st1
  (ss, st3) ← fire_each xs st2
  done (s ∷ ss, st3)

-- The goroutine: the loop over the slot's list, then the deletion of the slot.
unfoldable pub fire : ℕ → List ℕ → Store → Outcome (List Schedule × Store)
unfolding fire_each
fire t l st = do
  (ss, st') ← fire_each l st
  done (ss, record st' { data_map = delete t st'.data_map })

pub record World : Type 0 where
  pub timer : Timer
  pub store : Store

-- `data_map[current_time/100]`, if it is there.
unfoldable pub fire_slot : ℕ → Option (List ℕ) → Store → Outcome (List Schedule × Store)
unfolding fire
fire_slot t none st = done ([], st)
fire_slot t (some l) st = fire t l st

unfoldable pub ticking_func : ℕ → World → Outcome (List Schedule × World)
unfolding advance fire_slot
ticking_func now w = do
  let tm = advance now w.timer
  (ss, st) ← fire_slot (slot tm) (lookup (slot tm) w.store.data_map) w.store
  done (ss, record { timer = tm; store = st })

-- The loop of `startLoop` over the readings of the clock at its ticks, with all that it fires.
unfoldable pub ticks : List ℕ → World → Outcome (List Schedule × World)
ticks [] w = done ([], w)
ticks (now ∷ nows) w = do
  (ss, w') ← ticking_func now w
  (more, w'') ← ticks nows w'
  done (ss ++ more, w'')
