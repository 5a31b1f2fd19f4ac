-- ===== src/Schedule/Keystore/Locks.antt =====
-- Which operations of keystore.go give `RWMutex` back.
use grandma_scheduling_servi.Prelude.{ℕ, ◌≡◌, [], List, Option, none, some, arith, done, blocked}
use grandma_scheduling_servi.Prelude.Dict.{lookup}
use grandma_scheduling_servi.Schedule.Keystore.{
  Store, Schedule, unlocked, put, put_schedule, get, get_all,
}

-- `get` on a free lock finds the slot of the id, changes nothing and gives the lock back.
pub get_lem :
    (id : ℕ) (st : Store)
    → st.lock ≡ unlocked
    → get id st
      ≡ done (
        elim (lookup id st.time_table) [
          | none ↦ none
          | some t ↦ some (record { id = id; exp = t })
        ],
        st,
      )
unfolding get
get_lem id st h = ground arith

-- `getAll` on an empty table keeps the read lock: the next `put` waits for ever, whoever calls it
-- and whatever it files.
pub put-blocked_by-get_all :
    (st st' : Store) (found : Option (List Schedule)) (now : ℕ) (s : Schedule)
    → st.lock ≡ unlocked
    → st.time_table ≡ []
    → get_all st ≡ done (found, st')
    → put now (some s) st' ≡ blocked
unfolding get_all put put_schedule
put-blocked_by-get_all st st' found now s idle none_left h = ground arith
