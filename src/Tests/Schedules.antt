-- ===== src/Tests/Schedules.antt =====
-- The store of schedules and the timer.
use grandma_scheduling_servi.Prelude.{
  ℕ, ◌+◌, ◌*◌, ◌≤◌, ◌≡◌, refl, false, List, [], ◌∷◌, none, some, done, panic, blocked, arith,
}
use grandma_scheduling_servi.Prelude.Dict.{lookup, insert, delete}
use grandma_scheduling_servi.Schedule.Keystore.{
  Schedule, Store, unlocked, put, put_schedule, get, get_all, remove,
}
use grandma_scheduling_servi.Schedule.Keystore.Invariant.{IsConsistent, bucket}
use grandma_scheduling_servi.Schedule.Keystore.Put.{refiled, put_schedule-done, put_schedule-panic}
use grandma_scheduling_servi.Schedule.Keystore.Locks.{put-blocked_by-get_all}
use grandma_scheduling_servi.Schedule.Timer.{Timer, World, initial, advance, ticks, ticking_func}
use grandma_scheduling_servi.Schedule.Timer.Clock.{
  IsSynced, every_60, run_timer, run_timer-IsSynced,
}
use grandma_scheduling_servi.Schedule.Timer.Delivery.{
  fires, Ran, ticks-Ran, put_schedule-fired, put_schedule-waits,
}
use grandma_scheduling_servi.Schedule.Timer.Startup.{ticks_missed_at_start}

abbrev no_schedules : Store
no_schedules = record { data_map = []; time_table = []; lock = unlocked }

abbrev two_seconds : Schedule
two_seconds = record { id = 7; exp = 2000 }

-- The id 7 is due in the slot 1020.
abbrev one_schedule : Store
one_schedule = record {
  data_map = (1020, 7 ∷ []) ∷ [];
  time_table = (7, 1020) ∷ [];
  lock = unlocked;
}

-- The timer is set from the clock at 100000.
abbrev set_timer : Timer
set_timer = record { counter = 0; current_time = 99000 }

put_two_seconds : put_schedule 100000 two_seconds no_schedules ≡ done one_schedule
unfolding put_schedule lookup insert
put_two_seconds = refl

put_twice : put_schedule 100000 two_seconds one_schedule ≡ panic
unfolding put_schedule lookup insert remove delete
put_twice = refl

fired_after_49_ticks :
    ticks (every_60 100000 49) (record { timer = set_timer; store = one_schedule })
    ≡ done (
      record { id = 7; exp = 1020 } ∷ [],
      record { timer = record { counter = 49; current_time = 102038 }; store = no_schedules },
    )
unfolding ticks ticking_func every_60 advance get lookup delete
fired_after_49_ticks = refl

no_schedules-IsConsistent : IsConsistent no_schedules
unfolding lookup
no_schedules-IsConsistent = record {
  idle = refl;
  filled = λ t e. ground arith;
  agrees = λ id t. refl;
}

one_schedule-IsConsistent : IsConsistent one_schedule
unfolding lookup
one_schedule-IsConsistent = record {
  idle = refl;
  filled = λ t e. ground arith;
  agrees = λ id t. ground arith;
}

set_timer-IsSynced : IsSynced 100000 set_timer
set_timer-IsSynced = omega arith

put_schedule-done_example :
    (st' : Store) × (put_schedule 100000 two_seconds no_schedules ≡ done st')
    × IsConsistent st'
    × (st'.time_table ≡ insert 7 1020 [])
    × ((u : ℕ) → bucket st'.data_map u ≡ refiled 7 1020 [] u)
unfolding lookup
put_schedule-done_example =
    put_schedule-done 100000 two_seconds no_schedules no_schedules-IsConsistent
      (λ alone. ground arith)

put_schedule-panic_example : put_schedule 100000 two_seconds one_schedule ≡ panic
unfolding lookup
put_schedule-panic_example =
    put_schedule-panic 100000 two_seconds one_schedule one_schedule-IsConsistent (refl, refl)

put-blocked_by-get_all_example :
    put 100000
      (some two_seconds)
      (record no_schedules { lock = record { readers = 1; writer = false } })
    ≡ blocked
unfolding get_all
put-blocked_by-get_all_example =
    put-blocked_by-get_all no_schedules
      (record no_schedules { lock = record { readers = 1; writer = false } }) none 100000
      two_seconds refl refl refl

abbrev world : World
world = record { timer = set_timer; store = one_schedule }

ticks-Ran_example :
    (ss : List Schedule) × (w' : World) × (ticks (100060 ∷ 100125 ∷ []) world ≡ done (ss, w'))
    × Ran (100060 ∷ 100125 ∷ []) world ss w'
ticks-Ran_example = ticks-Ran (100060 ∷ 100125 ∷ []) world one_schedule-IsConsistent

put_schedule-fired_example :
    (ss : List Schedule) × (w' : World) × (ticks (every_60 100000 50) world ≡ done (ss, w'))
    × (fires 7 ss ≡ 1)
    × (lookup 7 w'.store.time_table ≡ none)
unfolding lookup
put_schedule-fired_example =
    put_schedule-fired 100000 50 two_seconds set_timer no_schedules one_schedule (omega arith)
      set_timer-IsSynced no_schedules-IsConsistent refl (omega arith) (omega arith) put_two_seconds

put_schedule-waits_example :
    (ss : List Schedule) × (w' : World) × (ticks (every_60 100000 31) world ≡ done (ss, w'))
    × (fires 7 ss ≡ 0)
    × (lookup 7 w'.store.time_table ≡ some 1020)
unfolding lookup
put_schedule-waits_example =
    put_schedule-waits 100000 31 two_seconds set_timer no_schedules one_schedule (omega arith)
      set_timer-IsSynced no_schedules-IsConsistent refl (omega arith) (omega arith) put_two_seconds

run_timer-IsSynced_example :
    IsSynced (100000 + 60 * 7) (run_timer (every_60 100000 7) set_timer)
    × ((run_timer (every_60 100000 7) set_timer).current_time ≤ 100000 + 60 * 7)
    × (100000 + 60 * 7 ≤ (run_timer (every_60 100000 7) set_timer).current_time + 1000)
run_timer-IsSynced_example = run_timer-IsSynced 7 100000 set_timer (omega arith) set_timer-IsSynced

-- Ticks every 60 ms from 100000 on: the 501st reads 130060, more than a second past slot 1020.
ticks_missed_at_start_example :
    (ss : List Schedule) × (w' : World) × (ticks
        (every_60 100000 502)
        (record { timer = initial; store = one_schedule })
      ≡ done (ss, w'))
    × (fires 7 ss ≡ 0)
    × (lookup 7 w'.store.time_table ≡ some 1020)
unfolding lookup every_60
ticks_missed_at_start_example =
    ticks_missed_at_start (every_60 100000 502) one_schedule 7 1020 one_schedule-IsConsistent refl
      (omega arith) (omega arith)
