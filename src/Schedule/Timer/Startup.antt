-- ===== src/Schedule/Timer/Startup.antt =====
-- The first 500 ticks after the program starts: `current_time` starts at 0, is set from the clock
-- only at the 501st tick, and then jumps over the slots that fell due in between.
use grandma_scheduling_servi.Prelude.{
  ℕ, zero, suc, ◌+◌, ◌*◌, ◌≤◌, ◌<◌, ◌≡◌, refl, List, [], ◌∷◌, some, arith, done, All, drop,
}
use grandma_scheduling_servi.Prelude.Dict.{lookup}
use grandma_scheduling_servi.Schedule.Keystore.{Schedule, Store}
use grandma_scheduling_servi.Schedule.Keystore.Invariant.{IsConsistent}
use grandma_scheduling_servi.Schedule.Timer.{Timer, World, initial, breakpoint, advance, ticks}
use grandma_scheduling_servi.Schedule.Timer.Clock.{Avoids}
use grandma_scheduling_servi.Schedule.Timer.Delivery.{fires, ticks-Ran}

-- The clock reads more than a second past the slot `t`.
abbrev pub IsPast : ℕ → ℕ → Type 0
IsPast t now = 100 * t + 1100 ≤ now

advance_past :
    (t now : ℕ) (tm : Timer)
    → 100 * t + 100 ≤ tm.current_time
    → IsPast t now
    → 100 * t + 100 ≤ (advance now tm).current_time
unfolding advance
advance_past t now tm h late = ground arith

past-Avoids :
    (t : ℕ) (nows : List ℕ) (tm : Timer)
    → 100 * t + 100 ≤ tm.current_time
    → All (IsPast t) nows
    → Avoids t nows tm
past-Avoids t [] tm h late = tt
past-Avoids t (now ∷ nows) tm h late =
    let h' : 100 * t + 100 ≤ (advance now tm).current_time = advance_past t now tm h late.0 in
    (omega arith, past-Avoids t nows (advance now tm) h' late.1)

-- The timer has ticked `tm.counter` times since the program started, and not been set yet.
record IsUnset (rounds : ℕ) (tm : Timer) : Type 0 where
  left : rounds + tm.counter ≡ breakpoint
  counted : tm.current_time ≡ 62 * tm.counter

advance_first :
    (t now : ℕ) (tm : Timer)
    → IsUnset 0 tm
    → IsPast t now
    → 100 * t + 100 ≤ (advance now tm).current_time
unfolding advance
advance_first t now tm u late = ground arith

advance-IsUnset :
    (rounds now : ℕ) (tm : Timer) → IsUnset (suc rounds) tm → IsUnset rounds (advance now tm)
unfolding advance
advance-IsUnset rounds now tm u = ground arith

start-Avoids :
    (t rounds : ℕ) (nows : List ℕ) (tm : Timer)
    → 310 < t
    → IsUnset rounds tm
    → All (IsPast t) (drop rounds nows)
    → Avoids t nows tm
start-Avoids t rounds [] tm far u late = tt
start-Avoids t zero (now ∷ nows) tm far u late =
    let h : 100 * t + 100 ≤ (advance now tm).current_time = advance_first t now tm u late.0 in
    (omega arith, past-Avoids t nows (advance now tm) h late.1)
start-Avoids t (suc rounds) (now ∷ nows) tm far u late =
    let u' : IsUnset rounds (advance now tm) = advance-IsUnset rounds now tm u in
    (omega arith, start-Avoids t rounds nows (advance now tm) far u' late)

-- A schedule that is in the store as the timer starts (as recovery leaves it there), and whose
-- slot the clock has left by more than a second at the 501st tick and after, is never fired, however long the timer
-- runs: it stays in `time_table`. (310 is the last slot that the unset timer counts to.)
pub ticks_missed_at_start :
    (nows : List ℕ) (st : Store) (id t : ℕ)
    → IsConsistent st
    → lookup id st.time_table ≡ some t
    → 310 < t
    → All (IsPast t) (drop breakpoint nows)
    → (ss : List Schedule) × (w' : World) × (ticks nows (record { timer = initial; store = st })
        ≡ done (ss, w'))
      × (fires id ss ≡ 0)
      × (lookup id w'.store.time_table ≡ some t)
ticks_missed_at_start nows st id t c at far late =
    let (ss, w', ran, r) = ticks-Ran nows (record { timer = initial; store = st }) c in
    let u : IsUnset breakpoint initial = record { left = refl; counted = refl } in
    let kept : lookup id w'.store.time_table ≡ some t =
      r.early id t at (start-Avoids t breakpoint nows initial far u late) in
    (ss, w', ran, ground (arith, r.fate id, at, kept), kept)
