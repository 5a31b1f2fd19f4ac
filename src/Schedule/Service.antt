-- ===== src/Schedule/Service.antt =====
-- src/schedule/schedule.go: schedules are kept in the database, recovered from it after a restart,
-- and pushed to the main queue when they are due. `len` is the configured length of that queue; the
-- clock's readings are arguments, in the order in which they are made.
pub mod Filing
pub mod Recovery
pub mod Pushing
use grandma_scheduling_servi.Prelude.{
  ℕ, zero, suc, ◌+◌, ◌-◌, ◌/◌, ◌%◌, ◌^◌, Bool, true, false, List, [], ◌∷◌, ◌++◌, Option, none, some,
  if◌then◌else◌, Outcome, done, panic, ◌>>=◌, Result, ok, err,
}
use grandma_scheduling_servi.Prelude.Int.{ℤ, pos, pos_part, ◌+ℤ◌, ◌-ℤ◌, ltb_ℤ}
use grandma_scheduling_servi.Prelude.Text.{Bytes}
use grandma_scheduling_servi.Message.{Obj}
use grandma_scheduling_servi.Queue.{GrandmaQueue, push_message}
use grandma_scheduling_servi.Schedule.Keystore.{Schedule, Store, put_schedule}
use grandma_scheduling_servi.Schedule.Database.{
  MySql, Row, insert_record, mark_sent, records, connected, initialize_my_sql_database,
}

pub data Error : Type 0 where
  invalid_message_content : Error
  internal_db_settings : Error

-- `tcp` holds what has been written to the master's connection; it is `none` on a master.
pub record World (D : Type 0) : Type 0 where
  pub db : D
  pub store : Store
  pub main_queue : GrandmaQueue Obj
  pub tcp : Option (List Bytes)

-- How `pushToSendingQueue` ends: by a signal, by a report to the master, or early by an error.
pub data Pushed : Type 0 where
  signalled : Pushed
  reported : Pushed
  failed : Pushed

-- A little-endian word of 32 bits.
abbrev pub put_uint32 : ℕ → Bytes
put_uint32 n = (n % 2 ^ 8) ∷ (n / 2 ^ 8 % 2 ^ 8) ∷ (n / 2 ^ 16 % 2 ^ 8) ∷ (n / 2 ^ 24 % 2 ^ 8) ∷ []

-- An error of a write is only logged. A nil connection panics.
unfoldable pub write_tcp : List Bytes → Option (List Bytes) → Outcome (Option (List Bytes))
write_tcp bs none = panic
write_tcp bs (some written) = done (some (written ++ bs))

module _ {D : Type 0} where
  unfoldable pub report_schedule : World D → Outcome (World D)
  unfolding write_tcp
  report_schedule w = do
    tcp ← write_tcp ((0 ∷ 1 ∷ []) ∷ (152 ∷ []) ∷ []) w.tcp
    done (record w { tcp = tcp })

  unfoldable pub consume_schedule : ℕ → World D → Outcome (World D)
  unfolding write_tcp
  consume_schedule id w = do
    tcp ← write_tcp ((0 ∷ 5 ∷ []) ∷ (150 ∷ put_uint32 id) ∷ []) w.tcp
    done (record w { tcp = tcp })

  -- `if tcp != nil { consumeSchedule(id) }`
  unfoldable pub consume_on_slave : ℕ → World D → Outcome (World D)
  unfolding consume_schedule
  consume_on_slave id w = elim w.tcp [ none ↦ done w | some written ↦ consume_schedule id w ]

  -- The signal goes to a channel with room for one value, made with the schedule.
  unfoldable pub signal_or_report : World D → Outcome (Pushed × World D)
  unfolding report_schedule
  signal_or_report w = elim w.tcp [
    | none ↦ done (signalled, w)
    | some written ↦ report_schedule w >>= λ w'. done (reported, w')
  ]

-- The message of a row, as it is sent.
abbrev pub message_of : Row → Obj
message_of r = record {
  message_type = r.service_type;
  endpoint = r.endpoint;
  message_body = r.message_body;
  expiration = pos 0;
}

-- Each row with the readings of the clock for it.
abbrev pub timed : (ℕ → ℕ × ℕ) → ℕ → List Row → List ((ℕ × ℕ) × Row)
timed clock i [] = []
timed clock i (r ∷ rs) = (clock i, r) ∷ timed clock (suc i) rs

module _ {D : Type 0} (db : MySql D) (name : Bytes) (len : ℕ) where
  -- `rows[0]` panics where there is no row.
  unfoldable pub push_row : List Row → World D → Outcome (Pushed × World D)
  push_row [] w = panic
  push_row (r ∷ rs) w = do
    q ← push_message len w.main_queue (some (message_of r))
    signal_or_report (record w { main_queue = q })

  unfoldable pub push_to_sending_queue : ℕ → World D → Outcome (Pushed × World D)
  unfolding connected push_row
  push_to_sending_queue id w = do
    d ← connected db name w.db
    let w1 : World D = record w { db = d }
    elim (db.by_id (records name) id d) [
      | none ↦ done (failed, w1)
      | some rows ↦
          if db.prepare (mark_sent (records name) id) d
          then push_row rows (record w { db = db.run (mark_sent (records name) id) d })
          else done (failed, w1)
    ]

  -- Behind the insertion. The expiration is read only where it is at least 1000.
  unfoldable pub file_schedule : ℕ → Obj → ℕ → World D → Outcome (Result Error Schedule × World D)
  unfolding push_to_sending_queue put_schedule consume_on_slave
  file_schedule now m id w =
      let s : Schedule = record { id = id; exp = pos_part m.expiration } in
      let pushed : Outcome (World D) = push_to_sending_queue id w >>= λ r. done r.1 in
      let kept : Outcome (World D) =
        put_schedule now s w.store >>= λ st. done (record w { store = st }) in
      (if ltb_ℤ m.expiration (pos 1000) then pushed else kept) >>= λ w'.
      consume_on_slave id w' >>= λ w''. done (ok s, w'')

  unfoldable pub with_id :
      ℕ → Obj → Option (List ℕ) → World D → Outcome (Result Error Schedule × World D)
  unfolding file_schedule
  with_id now m none w = done (err internal_db_settings, w)
  with_id now m (some []) w = panic
  with_id now m (some (id ∷ ids)) w = file_schedule now m id w

  unfoldable pub new_schedule : ℕ → ℕ → Obj → World D → Outcome (Result Error Schedule × World D)
  unfolding connected with_id
  new_schedule now now' m w =
      let insertion =
        insert_record (records name) m.message_type m.endpoint m.message_body
          (pos now +ℤ m.expiration) in
      connected db name w.db >>= λ d.
      if db.prepare insertion d
      then with_id now' m (db.last_insert_id (db.run insertion d))
          (record w { db = db.run insertion d })
      else done (err invalid_message_content, record w { db = d })

  -- One row, with the readings of the clock for it.
  unfoldable pub recover_row : ℕ → ℕ → Row → World D → Outcome (World D)
  unfolding push_to_sending_queue put_schedule
  recover_row now now' r w =
      let s : Schedule = record { id = r.id; exp = pos_part (r.ttl -ℤ pos now) } in
      let pushed : Outcome (World D) = push_to_sending_queue r.id w >>= λ x. done x.1 in
      let kept : Outcome (World D) =
        put_schedule now' s w.store >>= λ st. done (record w { store = st }) in
      if ltb_ℤ r.ttl (pos (now + 1000)) then pushed else kept

  unfoldable pub recover_rows : List ((ℕ × ℕ) × Row) → World D → Outcome (World D)
  unfolding recover_row
  recover_rows [] w = done w
  recover_rows (((now, now'), r) ∷ rs) w = recover_row now now' r w >>= recover_rows rs

  -- The query, then the loop over its rows. `true` is a nil error.
  unfoldable pub recover_schedule : (ℕ → ℕ × ℕ) → World D → Outcome (Bool × World D)
  unfolding connected recover_rows
  recover_schedule clock w = connected db name w.db >>= λ d. elim (db.unsent (records name) d) [
    | none ↦ done (false, record w { db = d })
    | some rows ↦ recover_rows (timed clock 0 rows) (record w { db = d }) >>= λ w'. done (true, w')
  ]

  -- `c` is nil on a master. What the opening of the database returns is dropped; the timer's loop is
  -- started last, and runs by itself.
  unfoldable pub init_scheduler : Option (List Bytes) → (ℕ → ℕ × ℕ) → World D → Outcome (World D)
  init_scheduler c clock w =
      let opened = initialize_my_sql_database db name w.db in
      recover_schedule clock (record w { tcp = c; db = opened.1 }) >>= λ r.
      if r.0 then done r.1 else panic

unfoldable pub change_connection : {D : Type 0} → Option (List Bytes) → World D → World D
change_connection c w = record w { tcp = c }
