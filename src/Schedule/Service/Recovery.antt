-- ===== src/Schedule/Service/Recovery.antt =====
-- `recoverSchedule`: after a restart every schedule that was not sent is sent or waits again.
use grandma_scheduling_servi.Prelude.{
  ℕ, suc, ◌+◌, ◌-◌, ◌<◌, ◌≡◌, refl, ap, ◌∙◌, sym, subst, ◌⊎◌, inl, inr, Bool, Bool-cases, true,
  false, List, [], ◌∷◌, ◌++◌, append-nil, append_assoc, Option, none, some, done, if◌then◌else◌,
  length, length-append, All, arith,
}
use grandma_scheduling_servi.Prelude.Int.{pos, pos_part, ◌-ℤ◌, ltb_ℤ}
use grandma_scheduling_servi.Prelude.Text.{Bytes}
use grandma_scheduling_servi.Prelude.Dict.{Dict, lookup, insert}
use grandma_scheduling_servi.Message.{Obj}
use grandma_scheduling_servi.Queue.Inv.{IsValid, contents}
use grandma_scheduling_servi.Schedule.Keystore.{Schedule, slot_of}
use grandma_scheduling_servi.Schedule.Keystore.Invariant.{IsConsistent}
use grandma_scheduling_servi.Schedule.Keystore.Put.{put_schedule-done}
use grandma_scheduling_servi.Schedule.Database.{MySql, Row, mark_sent, records, connected}
use grandma_scheduling_servi.Schedule.Service.{
  World, message_of, recover_row, recover_rows, recover_schedule, timed,
}
use grandma_scheduling_servi.Schedule.Service.Pushing.{Marks, push_to_sending_queue-Sent}

-- A database that answers: it lets the program connect and prepare, and keeps its records.
pub record IsUp {D : Type 0} (db : MySql D) (name : Bytes) (Has : Row → D → Type 0) : Type 0 where
  pub connects : (d : D) → connected db name d ≡ done d
  pub prepares : (d : D) (id : ℕ) → db.prepare (mark_sent (records name) id) d ≡ true
  pub found : (d : D) (r : Row) → Has r d → db.by_id (records name) r.id d ≡ some (r ∷ [])
  pub kept : (d : D) (r : Row) (id : ℕ) → Has r d → Has r (db.run (mark_sent (records name) id) d)

-- A row that is due within a second of the time at which it is read.
abbrev pub is_due : (ℕ × ℕ) × Row → Bool
is_due ((now, now'), r) = ltb_ℤ r.ttl (pos (now + 1000))

abbrev pub slot_at : (ℕ × ℕ) × Row → ℕ
slot_at ((now, now'), r) = slot_of (pos_part (r.ttl -ℤ pos now)) now'

-- The table with every row that is not due, and the messages of those that are.
abbrev pub refilled : List ((ℕ × ℕ) × Row) → Dict ℕ → Dict ℕ
refilled [] table = table
refilled (t ∷ ts) table = refilled ts (if is_due t then table else insert t.1.id (slot_at t) table)

abbrev pub due_messages : List ((ℕ × ℕ) × Row) → List (Option Obj)
due_messages [] = []
due_messages (t ∷ ts) =
    if is_due t then some (message_of t.1) ∷ due_messages ts else due_messages ts

-- No row that is not due has an id that waits already.
abbrev pub AreNew : List ((ℕ × ℕ) × Row) → Dict ℕ → Type 0
AreNew [] table = Unit
AreNew (t ∷ ts) table =
    ((is_due t ≡ true) ⊎ (lookup t.1.id table ≡ none))
    × AreNew ts (if is_due t then table else insert t.1.id (slot_at t) table)

module _ (t : (ℕ × ℕ) × Row) (ts : List ((ℕ × ℕ) × Row)) (table : Dict ℕ) where
  AreNew-due : is_due t ≡ true → AreNew (t ∷ ts) table → AreNew ts table
  AreNew-due due new =
      subst (λ b. AreNew ts (if b then table else insert t.1.id (slot_at t) table)) due new.1

  AreNew-later :
      is_due t ≡ false
      → AreNew (t ∷ ts) table
      → (lookup t.1.id table ≡ none) × AreNew ts (insert t.1.id (slot_at t) table)
  AreNew-later later new = (
    elim new.0 [ inl due ↦ absurd (clash due) | inr fresh ↦ fresh ],
    subst (λ b. AreNew ts (if b then table else insert t.1.id (slot_at t) table)) later new.1,
  )
    where
      clash : is_due t ≡ true → ⊥
      clash due = cc

length-due_messages :
    (t : (ℕ × ℕ) × Row) (ts : List ((ℕ × ℕ) × Row)) (b : Bool)
    → is_due t ≡ b
    → length (due_messages (t ∷ ts))
      ≡ (if b then suc (length (due_messages ts)) else length (due_messages ts))
length-due_messages t ts true e = rw e
length-due_messages t ts false e = rw e

pub record Recovered {D : Type 0} (len : ℕ) (ts : List ((ℕ × ℕ) × Row)) (w w' : World D)
    : Type 0 where
  pub consistent : IsConsistent w'.store
  pub waiting : w'.store.time_table ≡ refilled ts w.store.time_table
  pub valid : IsValid len w'.main_queue
  pub queued : contents len w'.main_queue ≡ contents len w.main_queue ++ due_messages ts

module _ {D : Type 0} (db : MySql D) (name : Bytes) (len : ℕ) (Has : Row → D → Type 0)
    (up : IsUp db name Has) where
  kept-All :
      (ts : List ((ℕ × ℕ) × Row)) (d : D) (id : ℕ)
      → All (λ t. Has t.1 d) ts
      → All (λ t. Has t.1 (db.run (mark_sent (records name) id) d)) ts
  kept-All [] d id h = tt
  kept-All (t ∷ ts) d id h = (up.kept d t.1 id h.0, kept-All ts d id h.1)

  due_row :
      (now now' : ℕ) (r : Row) (w : World D)
      → ltb_ℤ r.ttl (pos (now + 1000)) ≡ true
      → Has r w.db
      → IsValid len w.main_queue
      → length (contents len w.main_queue) < len - 1
      → (w1 : World D) × (recover_row db name len now now' r w ≡ done w1)
        × (w1.db ≡ db.run (mark_sent (records name) r.id) w.db)
        × (w1.store ≡ w.store)
        × IsValid len w1.main_queue
        × (contents len w1.main_queue ≡ contents len w.main_queue ++ (some (message_of r) ∷ []))
  unfolding recover_row
  due_row now now' r w due has v room =
      let marks : Marks db name r.id r w.db (db.run (mark_sent (records name) r.id) w.db) = record {
        opened = w.db;
        connects = up.connects w.db;
        more = [];
        found = up.found w.db r has;
        prepares = up.prepares w.db r.id;
        runs = refl;
      } in
      let (w1, pushed, db1, tcp1, s) =
        push_to_sending_queue-Sent db name len r.id r w _ marks v room in
      (w1, rw (due, pushed), db1, s.same_store, s.valid, s.queued)

  later_row :
      (now now' : ℕ) (r : Row) (w : World D)
      → ltb_ℤ r.ttl (pos (now + 1000)) ≡ false
      → lookup r.id w.store.time_table ≡ none
      → IsConsistent w.store
      → (w1 : World D) × (recover_row db name len now now' r w ≡ done w1)
        × (w1.db ≡ w.db)
        × (w1.main_queue ≡ w.main_queue)
        × IsConsistent w1.store
        × (w1.store.time_table ≡ insert r.id (slot_at ((now, now'), r)) w.store.time_table)
  unfolding recover_row
  later_row now now' r w later new c =
      let s : Schedule = record { id = r.id; exp = pos_part (r.ttl -ℤ pos now) } in
      let (st, filed, c1, table, buckets) =
        put_schedule-done now' s w.store c (λ alone. ground (arith, alone.0)) in
      (record w { store = st }, rw (later, filed), refl, refl, c1, table)

  module _ (now now' : ℕ) (r : Row) (ts : List ((ℕ × ℕ) × Row)) (w w1 w' : World D)
      (r2 : Recovered len ts w1 w') where
    after_due :
        ltb_ℤ r.ttl (pos (now + 1000)) ≡ true
        → w1.store ≡ w.store
        → contents len w1.main_queue ≡ contents len w.main_queue ++ (some (message_of r) ∷ [])
        → Recovered len (((now, now'), r) ∷ ts) w w'
    after_due due same queue = record {
      consistent = r2.consistent;
      waiting = rw (due, ← same) r2.waiting;
      valid = r2.valid;
      queued = rw due (
          r2.queued
          ∙ ap (λ q. q ++ due_messages ts) queue
          ∙ append_assoc (contents len w.main_queue) (some (message_of r) ∷ []) (due_messages ts));
    }

    after_later :
        ltb_ℤ r.ttl (pos (now + 1000)) ≡ false
        → w1.main_queue ≡ w.main_queue
        → w1.store.time_table ≡ insert r.id (slot_at ((now, now'), r)) w.store.time_table
        → Recovered len (((now, now'), r) ∷ ts) w w'
    after_later later same table = record {
      consistent = r2.consistent;
      waiting = rw (later, ← table) r2.waiting;
      valid = r2.valid;
      queued = rw (later, ← same) r2.queued;
    }

  recover_rows-Recovered :
      (ts : List ((ℕ × ℕ) × Row)) (w : World D)
      → All (λ t. Has t.1 w.db) ts
      → AreNew ts w.store.time_table
      → IsConsistent w.store
      → IsValid len w.main_queue
      → length (contents len w.main_queue) + length (due_messages ts) < len
      → (w' : World D) × (recover_rows db name len ts w ≡ done w') × Recovered len ts w w'
  unfolding recover_rows
  recover_rows-Recovered [] w has new c v room =
      (w, refl, record { consistent = c; waiting = refl; valid = v; queued = sym (append-nil _) })
  recover_rows-Recovered (((now, now'), r) ∷ ts) w has new c v room =
      elim (Bool-cases (ltb_ℤ r.ttl (pos (now + 1000)))) [
        | inl due ↦
            let one_more = length-due_messages ((now, now'), r) ts true due in
            let (w1, ran, db1, st1, v1, q1) =
              due_row now now' r w due has.0 v (omega (arith, room, one_more)) in
            let has1 =
              subst (λ d. All (λ t. Has t.1 d) ts) (sym db1) (kept-All ts w.db r.id has.1) in
            let new1 = AreNew-due ((now, now'), r) ts w.store.time_table due new in
            let room1 =
              ap length q1 ∙ length-append (contents len w.main_queue) (some (message_of r) ∷ []) in
            let (w', ran', r2) =
              recover_rows-Recovered ts w1 has1 (rw st1 new1) (rw st1 c) v1
                (omega (arith, room, one_more, room1)) in
            (w', rw ran ran', after_due now now' r ts w w1 w' r2 due st1 q1)
        | inr later ↦
            let no_more = length-due_messages ((now, now'), r) ts false later in
            let (fresh, new1) = AreNew-later ((now, now'), r) ts w.store.time_table later new in
            let (w1, ran, db1, q1, c1, t1) = later_row now now' r w later fresh c in
            let has1 = subst (λ d. All (λ t. Has t.1 d) ts) (sym db1) has.1 in
            let (w', ran', r2) =
              recover_rows-Recovered ts w1 has1 (rw t1 new1) c1 (rw q1 v)
                (rw q1 (omega (arith, room, no_more))) in
            (w', rw ran ran', after_later now now' r ts w w1 w' r2 later q1 t1)
      ]

  -- When the database answers, recovery ends without a panic: the rows that are due within a second
  -- of the time at which they are read stand in the main queue, in the order of the rows, and every
  -- other waits in its slot of the store, which is consistent. This where the queue has room for
  -- those that are due, and no two rows that wait have one id.
  pub recover_schedule-Recovered :
      (clock : ℕ → ℕ × ℕ) (rows : List Row) (w : World D)
      → db.unsent (records name) w.db ≡ some rows
      → All (λ t. Has t.1 w.db) (timed clock 0 rows)
      → AreNew (timed clock 0 rows) w.store.time_table
      → IsConsistent w.store
      → IsValid len w.main_queue
      → length (contents len w.main_queue) + length (due_messages (timed clock 0 rows)) < len
      → (w' : World D) × (recover_schedule db name len clock w ≡ done (true, w'))
        × Recovered len (timed clock 0 rows) w w'
  unfolding recover_schedule
  recover_schedule-Recovered clock rows w e has new c v room =
      let (w', ran, r) = recover_rows-Recovered (timed clock 0 rows) w has new c v room in
      (w', rw (up.connects w.db, e, ran), r)
