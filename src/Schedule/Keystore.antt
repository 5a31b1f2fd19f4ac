-- ===== src/Schedule/Keystore.antt =====
-- src/schedule/keystore.go. `data_map` holds the ids that are due in each slot of 100 ms, and
-- `time_table` the slot of each id. Times are milliseconds since 1970; ids come from the database's
-- unsigned key, and both callers of `put` pass an expiration of at least 1000, so all are numbers.
pub mod Invariant
pub mod Put
pub mod Locks
use grandma_scheduling_servi.Prelude.{
  ℕ, ◌+◌, ◌-◌, ◌*◌, ◌/◌, Bool, true, false, ◌||◌, List, [], ◌∷◌, ◌++◌, map, Option, none, some,
  ◌==◌, ltb, if◌then◌else◌, Outcome, done, panic, blocked, ◌>>=◌, Result, ok, err,
}
use grandma_scheduling_servi.Prelude.Dict.{Dict, lookup, insert, delete}

-- `Signal` is made new with each schedule and is not read here.
pub record Schedule : Type 0 where
  pub id : ℕ
  pub exp : ℕ

-- How often `RWMutex` is held for reading, and whether it is held for writing.
pub record RwMutex : Type 0 where
  pub readers : ℕ
  pub writer : Bool

abbrev pub unlocked : RwMutex
unlocked = record { readers = 0; writer = false }

pub record Store : Type 0 where
  pub data_map : Dict (List ℕ)
  pub time_table : Dict ℕ
  pub lock : RwMutex

pub data Error : Type 0 where
  invalid_schedule_obj : Error

-- `Lock` and `RLock` wait until nobody else holds the mutex. Where the holder has returned without
-- releasing it, that is for ever.
abbrev pub acquire : RwMutex → Outcome RwMutex
acquire m = if m.writer || ltb 0 m.readers then blocked else done (record m { writer = true })

abbrev pub release : RwMutex → RwMutex
release m = record m { writer = false }

abbrev pub acquire_read : RwMutex → Outcome RwMutex
acquire_read m = if m.writer then blocked else done (record m { readers = m.readers + 1 })

abbrev pub release_read : RwMutex → RwMutex
release_read m = record m { readers = m.readers - 1 }

-- The loop over `temp_l`: `Remove(e)` clears `e.next`, so the loop ends at the first match.
unfoldable pub remove : ℕ → List ℕ → List ℕ
remove id [] = []
remove id (x ∷ xs) = if x == id then xs else x ∷ remove id xs

-- 30 days.
abbrev pub max_exp : ℕ
max_exp = 60 * 60 * 24 * 30 * 1000

abbrev pub slot_of : ℕ → ℕ → ℕ
slot_of exp now = ((if ltb max_exp exp then max_exp else exp) + now) / 100

abbrev pub store_bucket : ℕ → List ℕ → Dict (List ℕ) → Dict (List ℕ)
store_bucket t [] m = delete t m
store_bucket t (x ∷ xs) m = insert t (x ∷ xs) m

-- Takes the id out of its old slot. A slot that `data_map` lacks is a nil list, and panics.
unfoldable pub take_out : ℕ → Option ℕ → Dict (List ℕ) → Outcome (Dict (List ℕ))
take_out id none m = done m
take_out id (some t) m = elim (lookup t m) [
  | none ↦ panic
  | some l ↦ done (store_bucket t (remove id l) m)
]

-- `data_map[exp].PushBack(id)`.
unfoldable pub push_back : ℕ → ℕ → Dict (List ℕ) → Outcome (Dict (List ℕ))
push_back id t m = elim (lookup t m) [ none ↦ panic | some l ↦ done (insert t (l ++ (id ∷ [])) m) ]

-- `dmok` is read before the id is taken out of its old slot.
unfoldable pub with_slot : Option (List ℕ) → ℕ → Dict (List ℕ) → Dict (List ℕ)
with_slot none t m = insert t [] m
with_slot (some l) t m = m

unfoldable pub put_schedule : ℕ → Schedule → Store → Outcome Store
unfolding take_out push_back with_slot
put_schedule now s st = do
  let t = slot_of s.exp now
  held ← acquire st.lock
  let dmok = lookup t st.data_map
  m ← take_out s.id (lookup s.id st.time_table) st.data_map
  m' ← push_back s.id t (with_slot dmok t m)
  done (record { data_map = m'; time_table = insert s.id t st.time_table; lock = release held })

-- `now` is the reading of the clock in milliseconds. `put` also writes the cut expiration back to
-- `s.Exp`, which nothing reads afterwards.
unfoldable pub put : ℕ → Option Schedule → Store → Outcome (Result Error (Unit {0}) × Store)
put now none st = done (err invalid_schedule_obj, st)
put now (some s) st = put_schedule now s st >>= λ st'. done (ok tt, st')

unfoldable pub get : ℕ → Store → Outcome (Option Schedule × Store)
get id st = do
  held ← acquire_read st.lock
  let found : Option Schedule = elim (lookup id st.time_table) [
    | none ↦ none
    | some t ↦ some (record { id = id; exp = t })
  ]
  done (found, record st { lock = release_read held })

-- The schedules of the table, in a fresh slice.
pub all_entries : Dict ℕ → Option (List Schedule)
all_entries [] = none
all_entries (e ∷ es) = some (map (λ (x : ℕ × ℕ). record { id = x.0; exp = x.1 }) (e ∷ es))

-- An empty table makes it return before `RUnlock`. A Go map yields its keys in any order: here that
-- of the list.
unfoldable pub get_all : Store → Outcome (Option (List Schedule) × Store)
unfolding all_entries
get_all st = do
  held ← acquire_read st.lock
  let found = all_entries st.time_table
  let after : RwMutex = elim found [ none ↦ held | some l ↦ release_read held ]
  done (found, record st { lock = after })
