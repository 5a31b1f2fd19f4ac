-- ===== src/Schedule/Service/Pushing.antt =====
-- `pushToSendingQueue`: the record of a schedule goes to the main queue.
use grandma_scheduling_servi.Prelude.{
  ℕ, ◌-◌, ◌<◌, ◌≡◌, refl, ◌∙◌, true, List, [], ◌∷◌, ◌++◌, Option, none, some, done, ok, length,
  arith,
}
use grandma_scheduling_servi.Prelude.Int.{pos, ltb_ℤ}
use grandma_scheduling_servi.Prelude.Text.{Bytes}
use grandma_scheduling_servi.Message.{Obj}
use grandma_scheduling_servi.Queue.Inv.{IsValid, contents}
use grandma_scheduling_servi.Queue.Refine.{push_message-done}
use grandma_scheduling_servi.Schedule.Database.{MySql, Row, mark_sent, records, connected}
use grandma_scheduling_servi.Schedule.Service.{
  World, Pushed, signalled, reported, message_of, signal_or_report, push_row, push_to_sending_queue,
  file_schedule, new_schedule,
}
use grandma_scheduling_servi.Schedule.Service.Filing.{
  Inserts, consumed, consume_on_slave-done, new_schedule-file_schedule,
}

-- What a slave writes to its master for a schedule that is done.
abbrev pub finished : Option (List Bytes) → Option (List Bytes)
finished none = none
finished (some written) = some (written ++ ((0 ∷ 1 ∷ []) ∷ (152 ∷ []) ∷ []))

abbrev how : Option (List Bytes) → Pushed
how none = signalled
how (some written) = reported

signal_or_report-done :
    {D : Type 0} (w : World D)
    → signal_or_report w ≡ done (how w.tcp, record w { tcp = finished w.tcp })
unfolding signal_or_report
signal_or_report-done {D} w = by_tcp w.tcp
  where
    by_tcp :
        (tcp : Option (List Bytes))
        → signal_or_report (record w { tcp = tcp })
          ≡ done (how tcp, record w { tcp = finished tcp })
    by_tcp none = refl
    by_tcp (some written) = refl

-- The database gives the record of a schedule, and marks it as sent.
pub record Marks {D : Type 0} (db : MySql D) (name : Bytes) (id : ℕ) (r : Row) (d0 d1 : D)
    : Type 0 where
  pub opened : D
  pub connects : connected db name d0 ≡ done opened
  pub more : List Row
  pub found : db.by_id (records name) id opened ≡ some (r ∷ more)
  pub prepares : db.prepare (mark_sent (records name) id) opened ≡ true
  pub runs : db.run (mark_sent (records name) id) opened ≡ d1

-- What the push changes: the message of the record stands last in the queue.
pub record Sent {D : Type 0} (len : ℕ) (r : Row) (w w' : World D) : Type 0 where
  pub valid : IsValid len w'.main_queue
  pub queued : contents len w'.main_queue ≡ contents len w.main_queue ++ (some (message_of r) ∷ [])
  pub same_store : w'.store ≡ w.store

module _ {D : Type 0} (db : MySql D) (name : Bytes) (len : ℕ) where
  pub push_to_sending_queue-Sent :
      (id : ℕ) (r : Row) (w : World D) (d1 : D)
      → Marks db name id r w.db d1
      → IsValid len w.main_queue
      → length (contents len w.main_queue) < len - 1
      → (w' : World D) × (push_to_sending_queue db name len id w ≡ done (how w.tcp, w'))
        × (w'.db ≡ d1)
        × (w'.tcp ≡ finished w.tcp)
        × Sent len r w w'
  unfolding push_to_sending_queue push_row
  push_to_sending_queue-Sent id r w d1 k v room =
      let (q, pushed, valid, whole) =
        push_message-done len w.main_queue (some (message_of r)) v room in
      let w1 : World D = record w { db = d1; main_queue = q } in
      (
        record w1 { tcp = finished w.tcp },
        rw (k.connects, k.found, k.prepares, k.runs, pushed, signal_or_report-done w1),
        refl,
        refl,
        record { valid = valid; queued = whole; same_store = refl },
      )

  -- A message that is due within a second goes to the end of the main queue, where that has room,
  -- as the database has recorded it; the store of schedules is left alone, the record is marked as
  -- sent, and a slave reports to its master that the schedule is done and that it was taken.
  pub new_schedule-Sent :
      (now now' e : ℕ) (m : Obj) (w : World D) (d1 d2 : D) (id : ℕ) (r : Row)
      → Inserts db name now m w.db d1 id
      → Marks db name id r d1 d2
      → m.expiration ≡ pos e
      → e < 1000
      → IsValid len w.main_queue
      → length (contents len w.main_queue) < len - 1
      → (w' : World D) × (new_schedule db name len now now' m w
          ≡ done (ok (record { id = id; exp = e }), w'))
        × (w'.db ≡ d2)
        × (w'.tcp ≡ consumed id (finished w.tcp))
        × Sent len r w w'
  unfolding file_schedule
  new_schedule-Sent now now' e m w d1 d2 id r i k em due v room =
      let (w1, pushed, db1, tcp1, s) =
        push_to_sending_queue-Sent id r (record w { db = d1 }) d2 k v room in
      let soon : ltb_ℤ (pos e) (pos 1000) ≡ true = ground arith in
      (
        record w1 { tcp = consumed id w1.tcp },
        new_schedule-file_schedule db name len now now' m w d1 id i
            ∙ rw (em, soon, pushed) (rw (consume_on_slave-done id w1)),
        db1,
        rw tcp1,
        record { valid = s.valid; queued = s.queued; same_store = s.same_store },
      )
