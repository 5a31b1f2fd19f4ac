-- ===== src/Tests/Services.antt =====
-- The scheduling service on a database in memory.
use grandma_scheduling_servi.Prelude.{
  ℕ, suc, ◌+◌, ◌<◌, ◌==◌, ◌≡◌, refl, true, List, [], ◌∷◌, some, done, ok, length, inl, inr, arith,
  if◌then◌else◌,
}
use grandma_scheduling_servi.Prelude.Int.{pos, ◌+ℤ◌}
use grandma_scheduling_servi.Prelude.Text.{Bytes, codes}
use grandma_scheduling_servi.Prelude.Dict.{lookup, insert}
use grandma_scheduling_servi.Message.{Obj}
use grandma_scheduling_servi.Queue.{new_queue}
use grandma_scheduling_servi.Queue.Inv.{IsValid, contents}
use grandma_scheduling_servi.Schedule.Keystore.{unlocked}
use grandma_scheduling_servi.Schedule.Keystore.Invariant.{IsConsistent}
use grandma_scheduling_servi.Schedule.Timer.{Timer}
use grandma_scheduling_servi.Schedule.Timer.Clock.{IsSynced}
use grandma_scheduling_servi.Schedule.Database.{
  MySql, Row, Statement, create_database, create_table, insert_record, mark_sent, connected,
}
use grandma_scheduling_servi.Schedule.Service.{World, new_schedule, recover_schedule, timed}
use grandma_scheduling_servi.Schedule.Service.Filing.{Inserts, consumed}
use grandma_scheduling_servi.Schedule.Service.Pushing.{Marks, Sent, finished, new_schedule-Sent}
use grandma_scheduling_servi.Schedule.Service.Recovery.{
  IsUp, AreNew, due_messages, Recovered, recover_schedule-Recovered,
}

-- The last record stands first; nothing fails, and nothing is ever taken out.
abbrev execute : Statement → List Row → List Row
execute create_database rows = rows
execute (create_table table) rows = rows
execute (insert_record table t e b ttl) rows =
    record { id = suc (length rows); service_type = t; endpoint = e; message_body = b; ttl = ttl }
    ∷ rows
execute (mark_sent table id) rows = rows

abbrev pub select : ℕ → List Row → List Row
select id [] = []
select id (r ∷ rows) = if r.id == id then r ∷ select id rows else select id rows

abbrev pub memory : MySql (List Row)
memory = record {
  connect = λ which rows. (true, rows);
  prepare = λ s rows. true;
  run = execute;
  tables_like = λ table rows. some 1;
  last_insert_id = λ rows. some (length rows ∷ []);
  unsent = λ table rows. some rows;
  by_id = λ table id rows. some (select id rows);
}

abbrev pub name : Bytes
name = codes "Grandma-Sharon"

abbrev pub fresh : World (List Row)
fresh = record {
  db = [];
  store = record { data_map = []; time_table = []; lock = unlocked };
  main_queue = new_queue 4;
  tcp = some [];
}

abbrev pub message : ℕ → Obj
message e = record {
  message_type = pos 107;
  endpoint = codes "GET x y";
  message_body = codes "hi";
  expiration = pos e;
}

abbrev pub row : ℕ → ℕ → Row
row id ttl = record {
  id = id;
  service_type = pos 107;
  endpoint = codes "GET x y";
  message_body = codes "hi";
  ttl = pos ttl;
}

pub inserted : (e : ℕ) → Inserts memory name 100000 (message e) [] (row 1 (100000 + e) ∷ []) 1
unfolding connected ◌+ℤ◌
inserted e = record {
  opened = [];
  connects = refl;
  prepares = refl;
  runs = ground arith;
  more = [];
  numbered = refl;
}

marked : Marks memory name 1 (row 1 100020) (row 1 100020 ∷ []) (row 1 100020 ∷ [])
unfolding connected
marked = record {
  opened = _;
  connects = refl;
  more = [];
  found = refl;
  prepares = refl;
  runs = refl;
}

fresh-IsValid : IsValid {A = Obj} 4 (new_queue 4)
unfolding new_queue
fresh-IsValid = record { storage = refl; front_in = omega arith; pointer_in = omega arith }

pub fresh-IsConsistent : IsConsistent fresh.store
unfolding lookup
fresh-IsConsistent = record { idle = refl; filled = λ t h. cc; agrees = λ id t. refl }

room : length (contents 4 fresh.main_queue) < 3
unfolding new_queue
room = omega arith

new_schedule-Sent_example :
    (w' : World (List Row)) × (new_schedule memory name 4 100000 100001 (message 20) fresh
      ≡ done (ok (record { id = 1; exp = 20 }), w'))
    × (w'.db ≡ row 1 100020 ∷ [])
    × (w'.tcp ≡ consumed 1 (finished (some [])))
    × Sent 4 (row 1 100020) fresh w'
new_schedule-Sent_example =
    new_schedule-Sent memory name 4 100000 100001 20 (message 20) fresh (row 1 100020 ∷ [])
      (row 1 100020 ∷ []) 1 (row 1 100020) (inserted 20) marked refl (omega arith) fresh-IsValid
      room

abbrev pub synced : Timer
synced = record { counter = 0; current_time = 99000 }

pub synced-IsSynced : IsSynced 100000 synced
synced-IsSynced = omega arith

abbrev crashed : World (List Row)
crashed = record fresh { db = row 1 105000 ∷ row 2 90000 ∷ [] }

abbrev pub clock : ℕ → ℕ × ℕ
clock i = (100000 + i, 100000 + i)

pub memory-IsUp : IsUp memory name (λ r rows. select r.id rows ≡ r ∷ [])
unfolding connected
memory-IsUp = record {
  connects = λ rows. refl;
  prepares = λ rows id. refl;
  found = λ rows r h. rw h;
  kept = λ rows r id h. h;
}

crashed-AreNew : AreNew (timed clock 0 crashed.db) crashed.store.time_table
unfolding lookup insert
crashed-AreNew = (inr refl, (inl refl, tt))

crashed_room :
    length (contents 4 crashed.main_queue) + length (due_messages (timed clock 0 crashed.db)) < 4
unfolding new_queue
crashed_room = omega arith

recover_schedule-Recovered_example :
    (w' : World (List Row)) × (recover_schedule memory name 4 clock crashed ≡ done (true, w'))
    × Recovered 4 (timed clock 0 crashed.db) crashed w'
recover_schedule-Recovered_example =
    recover_schedule-Recovered memory name 4 (λ r rows. select r.id rows ≡ r ∷ []) memory-IsUp clock
      crashed.db crashed refl (refl, (refl, tt)) crashed-AreNew fresh-IsConsistent fresh-IsValid
      crashed_room
