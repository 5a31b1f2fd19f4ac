-- ===== src/Schedule/Timer/Delivery.antt =====
-- Every schedule that the timer reaches is fired, and fired once.
use grandma_scheduling_servi.Prelude.{
  ℕ, suc, ◌+◌, ◌*◌, ◌≤◌, ◌<◌, ◌≡◌, ◌≢◌, refl, ◌⊎◌, inl, List, [], ◌∷◌, ◌++◌, none, some, subst,
  ◌==◌, if◌then◌else◌, arith, done,
}
use native.Mathlib.Decide.{ℕ_discrete}
use grandma_scheduling_servi.Prelude.Dict.{lookup, lookup-insert}
use grandma_scheduling_servi.Schedule.Keystore.{Schedule, Store, slot_of, put_schedule}
use grandma_scheduling_servi.Schedule.Keystore.Put.{put_schedule-done}
use grandma_scheduling_servi.Schedule.Keystore.Invariant.{IsConsistent, bucket, count}
use grandma_scheduling_servi.Schedule.Timer.{Timer, World, slot, advance, ticking_func, ticks}
use grandma_scheduling_servi.Schedule.Timer.Fire.{Fired, fire_slot-Fired, schedules_at}
use grandma_scheduling_servi.Schedule.Timer.Clock.{
  run_timer, every_60, IsSynced, Steady, run_timer-IsSynced, every_60-Steady, Avoids,
  every_60-Avoids,
}

-- How often a schedule with this id is fired.
abbrev pub fires : ℕ → List Schedule → ℕ
fires id [] = 0
fires id (s ∷ ss) = if s.id == id then suc (fires id ss) else fires id ss

fires-append : (id : ℕ) (xs ys : List Schedule) → fires id (xs ++ ys) ≡ fires id xs + fires id ys
fires-append id [] ys = omega arith
fires-append id (x ∷ xs) ys = ground (arith, fires-append id xs ys)

fires-schedules_at : (id t : ℕ) (l : List ℕ) → fires id (schedules_at t l) ≡ count id l
fires-schedules_at id t [] = refl
fires-schedules_at id t (x ∷ xs) = ground (arith, fires-schedules_at id t xs)

-- What has become of an id: it waits as before and was not fired, or it was
-- waiting, was fired once and is gone.
abbrev pub Fate : ℕ → Store → List Schedule → Store → Type 0
Fate id st ss st' =
    ((lookup id st'.time_table ≡ lookup id st.time_table) × (fires id ss ≡ 0))
    ⊎ ((lookup id st.time_table ≢ none) × (lookup id st'.time_table ≡ none) × (fires id ss ≡ 1))

pub record Ran (nows : List ℕ) (w : World) (ss : List Schedule) (w' : World) : Type 0 where
  pub consistent : IsConsistent w'.store
  pub timed : w'.timer ≡ run_timer nows w.timer
  pub fate : (id : ℕ) → Fate id w.store ss w'.store
  pub reached :
      (id t : ℕ)
      → lookup id w.store.time_table ≡ some t
      → slot w.timer < t
      → Steady nows w.timer
      → t ≤ slot w'.timer
      → lookup id w'.store.time_table ≡ none
  pub early :
      (id t : ℕ)
      → lookup id w.store.time_table ≡ some t
      → Avoids t nows w.timer
      → lookup id w'.store.time_table ≡ some t

ticking_func-Ran :
    (now : ℕ) (w : World)
    → IsConsistent w.store
    → (w' : World) × (ticking_func now w
        ≡ done (
          schedules_at
              (slot (advance now w.timer))
              (bucket w.store.data_map (slot (advance now w.timer))),
          w',
        ))
      × (w'.timer ≡ advance now w.timer)
      × Fired (slot (advance now w.timer)) w.store w'.store
unfolding ticking_func
ticking_func-Ran now w c =
    let tm = advance now w.timer in
    let (st', e, f) = fire_slot-Fired (slot tm) w.store c in
    (record { timer = tm; store = st' }, rw e, refl, f)

tick-Fate :
    (t id : ℕ) (st st' : Store)
    → IsConsistent st
    → Fired t st st'
    → Fate id st (schedules_at t (bucket st.data_map t)) st'
tick-Fate t id st st' c f =
    ground (arith, f.left id, c.agrees id t, fires-schedules_at id t (bucket st.data_map t))

Fate-trans :
    (id : ℕ) (st st1 st2 : Store) (xs ys : List Schedule)
    → Fate id st xs st1
    → Fate id st1 ys st2
    → Fate id st (xs ++ ys) st2
Fate-trans id st st1 st2 xs ys f g = ground (arith, fires-append id xs ys)

-- Where a run after one tick takes every id whose slot it reaches, so does the run with that tick.
reached_later :
    (now id u : ℕ) (nows : List ℕ) (w w1 w2 : World) (ss : List Schedule)
    → w1.timer ≡ advance now w.timer
    → Fired (slot (advance now w.timer)) w.store w1.store
    → Fate id w1.store ss w2.store
    → (lookup id w1.store.time_table ≡ some u
        → slot w1.timer < u
        → Steady nows w1.timer
        → u ≤ slot w2.timer
        → lookup id w2.store.time_table ≡ none)
    → lookup id w.store.time_table ≡ some u
    → slot w.timer < u
    → Steady (now ∷ nows) w.timer
    → u ≤ slot w2.timer
    → lookup id w2.store.time_table ≡ none
reached_later now id u nows w w1 w2 ss t1 f1 fate later at ahead steady past =
    elim (ℕ_discrete (slot (advance now w.timer)) u) [
      | yes e ↦ ground (arith, f1.left id)
      | no ne ↦ later (ground (arith, f1.left id)) (rw t1 (omega arith)) (rw t1 steady.1) past
    ]

earlier :
    (now id u : ℕ) (w w1 : World)
    → Fired (slot (advance now w.timer)) w.store w1.store
    → lookup id w.store.time_table ≡ some u
    → slot (advance now w.timer) ≢ u
    → lookup id w1.store.time_table ≡ some u
earlier now id u w w1 f at below = ground (arith, f.left id)

-- Any number of ticks on a consistent store runs to its end, without a panic and without waiting on
-- a lock. The store stays consistent, and each id that was waiting is either fired exactly once and
-- gone, or still waits in its slot; nothing else is fired.
pub ticks-Ran :
    (nows : List ℕ) (w : World)
    → IsConsistent w.store
    → (ss : List Schedule) × (w' : World) × (ticks nows w ≡ done (ss, w')) × Ran nows w ss w'
unfolding ticks run_timer
ticks-Ran [] w c = (
  [],
  w,
  refl,
  record {
    consistent = c;
    timed = refl;
    fate = λ id. inl (refl, refl);
    reached = λ id t at ahead steady past. absurd (omega arith);
    early = λ id t at below. at;
  },
)
ticks-Ran (now ∷ nows) w c =
    let (w1, e1, t1, f1) = ticking_func-Ran now w c in
    let (ss, w2, e2, r) = ticks-Ran nows w1 f1.consistent in
    let t = slot (advance now w.timer) in
    let first = schedules_at t (bucket w.store.data_map t) in
    (
      first ++ ss,
      w2,
      rw (e1, ticks) (rw e2),
      record {
        consistent = r.consistent;
        timed = rw (← t1) r.timed;
        fate = λ id.
            Fate-trans id w.store w1.store w2.store first ss (tick-Fate t id w.store w1.store c f1)
              (r.fate id);
        reached = λ id u. reached_later now id u nows w w1 w2 ss t1 f1 (r.fate id) (r.reached id u);
        early = λ id u at below. r.early id u (earlier now id u w w1 f1 at below.0) (rw t1 below.1);
      },
    )

abbrev due : ℕ → Schedule → ℕ
due now s = slot_of s.exp now

put-IsConsistent :
    (now : ℕ) (s : Schedule) (st st' : Store)
    → IsConsistent st
    → lookup s.id st.time_table ≡ none
    → put_schedule now s st ≡ done st'
    → IsConsistent st' × (lookup s.id st'.time_table ≡ some (due now s))
put-IsConsistent now s st st' c new e =
    let (st1, e1, c1, table, buckets) =
      put_schedule-done now s st c (λ alone. ground (arith, alone.0)) in
    let same : st1 ≡ st' = ground (arith, e1, e) in
    (subst IsConsistent same c1, rw (← same, table, lookup-insert) (ground arith))

-- A schedule that is filed with a delay of at least a second, at a moment when the timer is synced,
-- in a store where its id is not waiting yet, is fired exactly once by the ticks that follow every
-- 60 ms, as soon as they span its delay and one second more.
pub put_schedule-fired :
    (now k : ℕ) (s : Schedule) (tm : Timer) (st st' : Store)
    → 1000 ≤ now
    → IsSynced now tm
    → IsConsistent st
    → lookup s.id st.time_table ≡ none
    → 1000 ≤ s.exp
    → s.exp + 1000 ≤ 60 * k
    → put_schedule now s st ≡ done st'
    → (ss : List Schedule) × (w' : World) × (ticks
          (every_60 now k)
          (record { timer = tm; store = st' })
        ≡ done (ss, w'))
      × (fires s.id ss ≡ 1)
      × (lookup s.id w'.store.time_table ≡ none)
put_schedule-fired now k s tm st st' late sync c new far span e =
    let t = due now s in
    let (c1, at) = put-IsConsistent now s st st' c new e in
    let (ss, w', ran, r) = ticks-Ran (every_60 now k) (record { timer = tm; store = st' }) c1 in
    let clock = run_timer-IsSynced k now tm late sync in
    let gone : lookup s.id w'.store.time_table ≡ none =
      r.reached s.id t at (ground arith) (every_60-Steady k now tm late sync)
        (rw r.timed (ground arith)) in
    (ss, w', ran, ground (arith, r.fate s.id, at, gone), gone)

-- Until the ticks span its delay less a tenth of a second, or 30 days less a tenth of a second where
-- the delay is longer, a schedule that is filed under a new id while the timer is synced is not fired
-- and waits.
pub put_schedule-waits :
    (now k : ℕ) (s : Schedule) (tm : Timer) (st st' : Store)
    → 1000 ≤ now
    → IsSynced now tm
    → IsConsistent st
    → lookup s.id st.time_table ≡ none
    → 60 * k + 100 ≤ s.exp
    → 60 * k + 100 ≤ 30 * 24 * 60 * 60 * 1000
    → put_schedule now s st ≡ done st'
    → (ss : List Schedule) × (w' : World) × (ticks
          (every_60 now k)
          (record { timer = tm; store = st' })
        ≡ done (ss, w'))
      × (fires s.id ss ≡ 0)
      × (lookup s.id w'.store.time_table ≡ some (slot_of s.exp now))
put_schedule-waits now k s tm st st' late sync c new short cut e =
    let t = due now s in
    let (c1, at) = put-IsConsistent now s st st' c new e in
    let (ss, w', ran, r) = ticks-Ran (every_60 now k) (record { timer = tm; store = st' }) c1 in
    let kept : lookup s.id w'.store.time_table ≡ some t =
      r.early s.id t at (every_60-Avoids k t now tm late sync (ground arith)) in
    (ss, w', ran, ground (arith, r.fate s.id, at, kept), kept)
