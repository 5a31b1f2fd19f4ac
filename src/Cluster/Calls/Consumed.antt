-- ===== src/Cluster/Calls/Consumed.antt =====
-- A message that a master has sent to a slave, and the slave's answer.
use grandma_scheduling_servi.Prelude.{
  ℕ, ◌+◌, ◌*◌, ◌/◌, ◌%◌, ◌^◌, ◌≤◌, ◌<◌, ◌≡◌, ◌∙◌, ap, Bool, true, List, [], ◌∷◌, ◌++◌, none, some,
  length, set, get_or, Outcome, done, ok, ltb, arith,
}
use grandma_scheduling_servi.Prelude.Int.{pos}
use grandma_scheduling_servi.Prelude.Text.{Bytes, Lacks}
use grandma_scheduling_servi.Prelude.Dict.{lookup}
use grandma_scheduling_servi.Message.{Obj, get_message_payload, new_message_from_payload}
use grandma_scheduling_servi.Message.Valid.{IsValid}
use grandma_scheduling_servi.Message.Payload.{new_message_from_payload-get_message_payload}
use grandma_scheduling_servi.Schedule.Keystore.{Schedule}
use grandma_scheduling_servi.Schedule.Keystore.Invariant.{IsConsistent}
use grandma_scheduling_servi.Schedule.Timer
use grandma_scheduling_servi.Schedule.Timer.{Timer, ticks}
use grandma_scheduling_servi.Schedule.Timer.Clock.{IsSynced, every_60}
use grandma_scheduling_servi.Schedule.Timer.Delivery.{fires}
use grandma_scheduling_servi.Schedule.Database.{MySql}
use grandma_scheduling_servi.Schedule.Service.{World, put_uint32, new_schedule}
use grandma_scheduling_servi.Schedule.Service.Filing.{Inserts, consumed, new_schedule-fired}
use grandma_scheduling_servi.Cluster.Calls
use grandma_scheduling_servi.Cluster.Calls.{consume_message, consume_level_1_calls, slave_handler}
use grandma_scheduling_servi.Cluster.Nodes.{Node, Slaves, schedule_id, master_handler}
use grandma_scheduling_servi.Cluster.Nodes.Locked.{nobody, modify-done}

-- The master reads the id that the slave has written.
schedule_id-put_uint32 : (id : ℕ) → id < 2 ^ 31 → schedule_id (put_uint32 id) ≡ some (pos id)
unfolding schedule_id
schedule_id-put_uint32 id h =
    let bytes : id % 2 ^ 8
          + 2 ^ 8 * (id / 2 ^ 8 % 2 ^ 8)
          + 2 ^ 16 * (id / 2 ^ 16 % 2 ^ 8)
          + 2 ^ 24 * (id / 2 ^ 24 % 2 ^ 8)
        ≡ id =
      omega arith in
    let positive : ltb id (2 ^ 31) ≡ true = ground (arith, h) in rw (bytes, positive)

-- Where the id that a slave reports comes to.
abbrev pub answered : ℕ → Node → Node
answered id n = record n { channel = n.channel ++ (pos id ∷ []) }

module _ {D : Type 0} (db : MySql D) (name : Bytes) (len : ℕ) where
  consume_level_1_calls-ok :
      (sent sent' : Bool) (now now' : ℕ) (m : Obj) (c : Calls.Node D) (s : Schedule) (w1 : World D)
      → new_message_from_payload (get_message_payload m) ≡ done (ok m)
      → new_schedule db name len now now' m c.world ≡ done (ok s, w1)
      → consume_level_1_calls db name len now now' sent sent' (get_message_payload m) c
        ≡ done (record c { world = w1 })
  unfolding consume_level_1_calls consume_message
  consume_level_1_calls-ok sent sent' now now' m c s w1 parsed made = rw (parsed, made)

  -- A message of one line that is valid for a second or more, sent by a master as it is, is filed by
  -- a slave whose database takes it: the ticks of a synced timer then fire it exactly once within
  -- its delay and one second. The slave writes an answer of five bytes, on which the master's
  -- handler puts the id on the channel of the node.
  pub slave_handler-answered :
      (sent sent' : Bool) (now now' k e : ℕ) (m : Obj) (c : Calls.Node D) (written : List Bytes)
      (tm : Timer) (d1 : D) (id : ℕ) (fix : ℕ → ℕ → Slaves → Outcome Slaves) (p : ℕ)
      (master : Slaves)
      → IsValid m
      → Lacks b'\n' m.endpoint
      → Lacks b'\n' m.message_body
      → Inserts db name now m c.world.db d1 id
      → IsConsistent c.world.store
      → lookup id c.world.store.time_table ≡ none
      → c.world.tcp ≡ some written
      → m.expiration ≡ pos e
      → 1000 ≤ e
      → 1000 ≤ now'
      → IsSynced now' tm
      → e + 1000 ≤ 60 * k
      → id < 2 ^ 31
      → p < length master.nodes
      → (w1 : World D) × (ss : List Schedule) × (after : Timer.World) × (slave_handler db name len
            now now' sent sent'
            (151 ∷ get_message_payload m)
            c
          ≡ done (record c { world = w1 }))
        × (ticks (every_60 now' k) (record { timer = tm; store = w1.store }) ≡ done (ss, after))
        × (fires id ss ≡ 1)
        × (w1.tcp ≡ some (written ++ ((0 ∷ 5 ∷ []) ∷ (150 ∷ put_uint32 id) ∷ [])))
        × (master_handler fix (150 ∷ put_uint32 id) p master
            ≡ done (record master {
              nodes = set master.nodes p (answered id (get_or master.nodes p nobody));
            }))
  unfolding slave_handler master_handler
  slave_handler-answered sent sent' now now' k e m c written tm d1 id fix p master v he hb i cons
        new slave em far late sync span small range =
      let parsed = new_message_from_payload-get_message_payload m v he hb in
      let (w1, ss, after, made, same_db, tcp, ran, once, gone) =
        new_schedule-fired db name len now now' k e m c.world tm d1 id i cons new em far late sync
          span in
      (
        w1,
        ss,
        after,
        consume_level_1_calls-ok sent sent' now now' m c (record { id = id; exp = e }) w1 parsed
            made,
        ran,
        once,
        tcp ∙ ap (consumed id) slave,
        rw (schedule_id-put_uint32 id small) (modify-done p (answered id) master range),
      )
