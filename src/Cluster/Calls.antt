-- ===== src/Cluster/Calls.antt =====
-- src/clustering/clustering.go and manage.go: what becomes of a message on the node that has it.
-- `DistCalls` is called by the HTTP handler, `slaveHandler` for what a master sends.
pub mod Consumed
use grandma_scheduling_servi.Prelude.{
  ℕ, ◌+◌, ◌-◌, ◌*◌, ◌/◌, ◌%◌, ◌^◌, Bool, true, false, not, List, [], ◌∷◌, ◌++◌, Option, none, some,
  if◌then◌else◌, get_elem?, length, Outcome, done, panic, ◌>>=◌, Result, ok, err, ◌==◌,
}
use grandma_scheduling_servi.Prelude.Int.{ℤ, pos, ◌=ℤ◌}
use grandma_scheduling_servi.Prelude.Text.{Bytes}
use grandma_scheduling_servi.Message
use grandma_scheduling_servi.Message.{Obj, new_message_from_payload}
use grandma_scheduling_servi.Schedule.Keystore.{Schedule}
use grandma_scheduling_servi.Schedule.Database.{MySql, insert_record, records, connected}
use grandma_scheduling_servi.Schedule.Service
use grandma_scheduling_servi.Schedule.Service.{World, write_tcp, new_schedule}

-- `complexity` and `closed` are those of `master_connection`. `waiting` has a goroutine for each
-- schedule whose `Signal` is waited for: what it then writes to `complexity`.
pub record Node (D : Type 0) : Type 0 where
  pub world : World D
  pub complexity : ℕ
  pub closed : Bool
  pub waiting : List ℕ

-- On uint.
abbrev pub plus_3 : ℕ → ℕ
plus_3 c = (c + 3) % 2 ^ 64

abbrev pub minus_3 : ℕ → ℕ
minus_3 c = (c + 2 ^ 64 - 3) % 2 ^ 64

module _ {D : Type 0} where
  -- The `i`th of the waiting goroutines gets its signal.
  unfoldable pub on_signal : ℕ → Node D → Node D
  on_signal i c = elim (get_elem? c.waiting i) [
    | none ↦ c
    | some complexity ↦ record c { complexity = complexity }
  ]

  -- `sent` says whether the second `Write` succeeds. The header is the length, in 16 bits.
  unfoldable pub send_master : Bool → Bytes → Node D → Outcome (Node D)
  unfolding write_tcp
  send_master sent content c =
      let header : Bytes = (length content / 256 % 256) ∷ (length content % 256) ∷ [] in
      let written : Outcome (Node D) = write_tcp (header ∷ content ∷ []) c.world.tcp >>= λ tcp.
      done (
        if sent
        then record c { world = record c.world { tcp = tcp } }
        else record c { closed = true }) in
      if c.closed then done c else written

-- `now` and `now'` are the readings of the clock that `NewSchedule` makes.
module _ {D : Type 0} (db : MySql D) (name : Bytes) (len now now' : ℕ) where
  -- What both levels do with the result: where it is an error the schedule is nil, and reading its
  -- fields panics. `later` is what the goroutine writes at the signal.
  unfoldable pub scheduled :
      ℕ → Node D → Result Service.Error Schedule × World D → Outcome (Result Bytes ℤ × Node D)
  scheduled later c (err e, w) = panic
  scheduled later c (ok s, w) = done (
    ok (pos s.id),
    record {
      world = w;
      complexity = plus_3 c.complexity;
      closed = c.closed;
      waiting = c.waiting ++ (later ∷ []);
    },
  )

  -- `node` is nil and never set, so that the test holds and nothing goes to a slave.
  unfoldable pub dist_level_1_calls : Obj → Node D → Outcome (Result Bytes ℤ × Node D)
  unfolding scheduled
  dist_level_1_calls msg c =
      new_schedule db name len now now' msg c.world >>= scheduled (minus_3 c.complexity) c

  unfoldable pub dist_level_2_calls : Obj → Node D → Outcome (Result Bytes ℤ × Node D)
  unfolding scheduled
  dist_level_2_calls msg c =
      new_schedule db name len now now' msg c.world >>= scheduled (plus_3 c.complexity) c

  unfoldable pub dist_calls : Obj → Node D → Outcome (Result Bytes ℤ × Node D)
  unfolding dist_level_1_calls dist_level_2_calls
  dist_calls msg c =
      if not (msg.message_type =ℤ pos 105)
      then dist_level_1_calls msg c
      else dist_level_2_calls msg c

  -- `NewSchedule(nil)`: the text is prepared, and then a field of the message is read.
  unfoldable pub new_schedule_nil : World D → Outcome (Result Service.Error Schedule × World D)
  unfolding connected
  new_schedule_nil w = do
    d ← connected db name w.db
    if db.prepare (insert_record (records name) (pos 0) [] [] (pos 0)) d
        then panic
        else done (err Service.invalid_message_content, record w { db = d })

  -- An error of `NewSchedule` is sent to the master.
  unfoldable pub report_error :
      Bool → Node D → Result Service.Error Schedule × World D → Outcome (Node D)
  unfolding send_master
  report_error sent c (err e, w) = send_master sent (140 ∷ []) (record c { world = w })
  report_error sent c (ok s, w) = done (record c { world = w })

  -- The code goes on with a nil message behind the first error. `sent` and `sent'` are about the
  -- two reports.
  unfoldable pub consume_message :
      Bool → Bool → Result Message.Error Obj → Node D → Outcome (Node D)
  unfolding report_error send_master
  consume_message sent sent' (ok msg) c =
      new_schedule db name len now now' msg c.world >>= report_error sent' c
  consume_message sent sent' (err e) c =
      send_master sent (140 ∷ []) c >>= λ c'. new_schedule_nil c'.world >>= report_error sent' c'

  unfoldable pub consume_level_1_calls : Bool → Bool → Bytes → Node D → Outcome (Node D)
  unfolding consume_message
  consume_level_1_calls sent sent' payload c =
      new_message_from_payload payload >>= λ msg. consume_message sent sent' msg c

  -- A message for a schedule begins with 151; nothing is done for a heartbeat or another type.
  unfoldable pub slave_handler : Bool → Bool → Bytes → Node D → Outcome (Node D)
  slave_handler sent sent' [] c = done c
  slave_handler sent sent' (data_type ∷ rest) c =
      let consumed = consume_level_1_calls sent sent' rest c in
      if data_type == 151 then consumed else done c
