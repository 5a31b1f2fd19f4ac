-- ===== src/Schedule/Service/Filing.antt =====
-- `NewSchedule`, down to the timer that fires the schedule, and to the queue of what is due at once.
use grandma_scheduling_servi.Prelude.{
  ℕ, ◌+◌, ◌*◌, ◌≤◌, ◌≡◌, refl, ◌∙◌, true, false, List, [], ◌∷◌, ◌++◌, Option, none, some, done, ok,
  arith,
}
use grandma_scheduling_servi.Prelude.Int.{pos, ◌+ℤ◌, ltb_ℤ}
use grandma_scheduling_servi.Prelude.Text.{Bytes}
use grandma_scheduling_servi.Prelude.Dict.{lookup}
use grandma_scheduling_servi.Message.{Obj}
use grandma_scheduling_servi.Schedule.Keystore.{Schedule}
use grandma_scheduling_servi.Schedule.Keystore.Invariant.{IsConsistent}
use grandma_scheduling_servi.Schedule.Keystore.Put.{put_schedule-done}
use grandma_scheduling_servi.Schedule.Timer
use grandma_scheduling_servi.Schedule.Timer.{Timer, ticks}
use grandma_scheduling_servi.Schedule.Timer.Clock.{IsSynced, every_60}
use grandma_scheduling_servi.Schedule.Timer.Delivery.{fires, put_schedule-fired}
use grandma_scheduling_servi.Schedule.Database.{MySql, insert_record, records, connected}
use grandma_scheduling_servi.Schedule.Service.{
  World, put_uint32, consume_on_slave, file_schedule, new_schedule,
}

-- What a slave writes to its master when it has taken a schedule; a master writes nothing.
abbrev pub consumed : ℕ → Option (List Bytes) → Option (List Bytes)
consumed id none = none
consumed id (some written) = some (written ++ ((0 ∷ 5 ∷ []) ∷ (150 ∷ put_uint32 id) ∷ []))

pub consume_on_slave-done :
    {D : Type 0} (id : ℕ) (w : World D)
    → consume_on_slave id w ≡ done (record w { tcp = consumed id w.tcp })
unfolding consume_on_slave
consume_on_slave-done {D} id w = by_tcp w.tcp
  where
    by_tcp :
        (tcp : Option (List Bytes))
        → consume_on_slave id (record w { tcp = tcp }) ≡ done (record w { tcp = consumed id tcp })
    by_tcp none = refl
    by_tcp (some written) = refl

-- The database takes the record of a message, and gives it `id`.
pub record Inserts {D : Type 0} (db : MySql D) (name : Bytes) (now : ℕ) (m : Obj) (d0 d1 : D)
    (id : ℕ) : Type 0 where
  pub opened : D
  pub connects : connected db name d0 ≡ done opened
  pub prepares :
      db.prepare
        (insert_record
          (records name)
          m.message_type
          m.endpoint
          m.message_body
          (pos now +ℤ m.expiration))
        opened
      ≡ true
  pub runs :
      db.run
        (insert_record
          (records name)
          m.message_type
          m.endpoint
          m.message_body
          (pos now +ℤ m.expiration))
        opened
      ≡ d1
  pub more : List ℕ
  pub numbered : db.last_insert_id d1 ≡ some (id ∷ more)

module _ {D : Type 0} (db : MySql D) (name : Bytes) (len : ℕ) where
  pub new_schedule-file_schedule :
      (now now' : ℕ) (m : Obj) (w : World D) (d1 : D) (id : ℕ)
      → Inserts db name now m w.db d1 id
      → new_schedule db name len now now' m w
        ≡ file_schedule db name len now' m id (record w { db = d1 })
  unfolding new_schedule
  new_schedule-file_schedule now now' m w d1 id i = rw (i.connects, i.prepares, i.runs, i.numbered)

  -- A message that is valid for a second or more is filed on a consistent store in which its new id
  -- is not waiting yet, when the database takes it: `NewSchedule` returns its schedule, reports it
  -- where there is a master, and the ticks of a synced timer then fire it exactly once within its
  -- delay and one second.
  pub new_schedule-fired :
      (now now' k e : ℕ) (m : Obj) (w : World D) (tm : Timer) (d1 : D) (id : ℕ)
      → Inserts db name now m w.db d1 id
      → IsConsistent w.store
      → lookup id w.store.time_table ≡ none
      → m.expiration ≡ pos e
      → 1000 ≤ e
      → 1000 ≤ now'
      → IsSynced now' tm
      → e + 1000 ≤ 60 * k
      → (w1 : World D) × (ss : List Schedule) × (after : Timer.World) × (new_schedule db name len
            now now' m w
          ≡ done (ok (record { id = id; exp = e }), w1))
        × (w1.db ≡ d1)
        × (w1.tcp ≡ consumed id w.tcp)
        × (ticks (every_60 now' k) (record { timer = tm; store = w1.store }) ≡ done (ss, after))
        × (fires id ss ≡ 1)
        × (lookup id after.store.time_table ≡ none)
  unfolding file_schedule
  new_schedule-fired now now' k e m w tm d1 id i c new em far late sync span =
      let s : Schedule = record { id = id; exp = e } in
      let (st, filed, c1, table, buckets) =
        put_schedule-done now' s w.store c (λ alone. ground (arith, alone.0)) in
      let (ss, after, ran, once, gone) =
        put_schedule-fired now' k s tm w.store st late sync c new far span filed in
      let later : ltb_ℤ (pos e) (pos 1000) ≡ false = ground arith in
      (
        record { db = d1; store = st; main_queue = w.main_queue; tcp = consumed id w.tcp },
        ss,
        after,
        new_schedule-file_schedule now now' m w d1 id i
            ∙ rw (em, later, filed)
                (rw (consume_on_slave-done id (record w { db = d1; store = st }))),
        refl,
        refl,
        ran,
        once,
        gone,
      )
