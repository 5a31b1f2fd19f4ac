-- ===== src/Schedule/Timer/Clock.antt =====
-- How `current_time` follows the clock: what `breakpoint`, the step of 62 and the lag of 1000 do.
use grandma_scheduling_servi.Prelude.{
  ℕ, zero, suc, ◌+◌, ◌*◌, ◌≤◌, ◌<◌, ◌≡◌, ◌≢◌, List, [], ◌∷◌, arith,
}
use grandma_scheduling_servi.Schedule.Timer.{Timer, breakpoint, advance, slot}

-- The timer after ticks at the given readings of the clock.
unfoldable pub run_timer : List ℕ → Timer → Timer
run_timer [] tm = tm
run_timer (now ∷ nows) tm = run_timer nows (advance now tm)

-- The readings of `k` ticks that come every 60 ms after `now`.
unfoldable pub every_60 : ℕ → ℕ → List ℕ
every_60 now zero = []
every_60 now (suc k) = (now + 60) ∷ every_60 (now + 60) k

-- The timer has been set from the clock and ticked every 60 ms since: each tick gains 2 ms.
pub record IsSynced (now : ℕ) (tm : Timer) : Type 0 where
  pub counted : tm.counter ≤ breakpoint
  pub gained : tm.current_time + 1000 ≡ now + 2 * tm.counter

advance-IsSynced :
    (now : ℕ) (tm : Timer)
    → 1000 ≤ now
    → IsSynced now tm
    → IsSynced (now + 60) (advance (now + 60) tm)
unfolding advance
advance-IsSynced now tm late s = ground arith

-- Setting the timer from the clock, as the tick at `breakpoint` does, syncs it.
pub resync-IsSynced :
    (now : ℕ) (tm : Timer) → 1000 ≤ now → tm.counter ≡ breakpoint → IsSynced now (advance now tm)
unfolding advance
resync-IsSynced now tm late e = ground arith

-- Once synced, the timer is never ahead of the clock and at most a second behind, after any number
-- of ticks at 60 ms.
pub run_timer-IsSynced :
    (k now : ℕ) (tm : Timer)
    → 1000 ≤ now
    → IsSynced now tm
    → let tm' = run_timer (every_60 now k) tm in
      IsSynced (now + 60 * k) tm'
      × (tm'.current_time ≤ now + 60 * k)
      × (now + 60 * k ≤ tm'.current_time + 1000)
unfolding run_timer every_60
run_timer-IsSynced zero now tm late s = omega arith
run_timer-IsSynced (suc k) now tm late s = omega (
  arith,
  run_timer-IsSynced k (now + 60) (advance (now + 60) tm) (omega arith)
      (advance-IsSynced now tm late s),
)

-- No tick carries the timer past a slot: where it is set from the clock, the clock is not ahead of
-- the next tick's slot.
abbrev pub Steady : List ℕ → Timer → Type 0
Steady [] tm = Unit
Steady (now ∷ nows) tm = (slot (advance now tm) ≤ slot tm + 1) × Steady nows (advance now tm)

next_slot :
    (now : ℕ) (tm : Timer)
    → 1000 ≤ now
    → IsSynced now tm
    → slot (advance (now + 60) tm) ≤ slot tm + 1
unfolding advance
next_slot now tm late s = ground arith

pub every_60-Steady :
    (k now : ℕ) (tm : Timer) → 1000 ≤ now → IsSynced now tm → Steady (every_60 now k) tm
unfolding every_60
every_60-Steady zero now tm late s = tt
every_60-Steady (suc k) now tm late s = (
  next_slot now tm late s,
  every_60-Steady k (now + 60) (advance (now + 60) tm) (omega arith)
      (advance-IsSynced now tm late s),
)

-- No tick stops at the slot `t`.
abbrev pub Avoids : ℕ → List ℕ → Timer → Type 0
Avoids t [] tm = Unit
Avoids t (now ∷ nows) tm = (slot (advance now tm) ≢ t) × Avoids t nows (advance now tm)

pub every_60-Avoids :
    (k t now : ℕ) (tm : Timer)
    → 1000 ≤ now
    → IsSynced now tm
    → now + 60 * k < 100 * t
    → Avoids t (every_60 now k) tm
unfolding every_60
every_60-Avoids zero t now tm late s h = tt
every_60-Avoids (suc k) t now tm late s h =
    let s' = advance-IsSynced now tm late s in
    (
      omega arith,
      every_60-Avoids k t (now + 60) (advance (now + 60) tm) (omega arith) s' (omega arith),
    )
