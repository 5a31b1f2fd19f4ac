-- ===== src/Server/Scheduling.antt =====
-- The handler on a node that distributes its messages itself: `Cluster.Calls.dist_calls` takes the
-- place of the parameter.
use grandma_scheduling_servi.Prelude.{
  ℕ, ◌+◌, ◌*◌, ◌≤◌, ◌≡◌, refl, ap, ◌∙◌, Bool-cases, inl, inr, false, List, [], ◌∷◌, ◌++◌, none,
  done, panic, ◌>>=◌, ok, err,
}
use grandma_scheduling_servi.Prelude.Int.{pos, ◌=ℤ◌, ◌+ℤ◌}
use grandma_scheduling_servi.Prelude.Text.{Bytes}
use grandma_scheduling_servi.Prelude.Dict.{lookup}
use grandma_scheduling_servi.Message.{Obj}
use grandma_scheduling_servi.Schedule.Keystore.{Schedule}
use grandma_scheduling_servi.Schedule.Keystore.Invariant.{IsConsistent}
use grandma_scheduling_servi.Schedule.Timer
use grandma_scheduling_servi.Schedule.Timer.{Timer, ticks}
use grandma_scheduling_servi.Schedule.Timer.Clock.{IsSynced, every_60}
use grandma_scheduling_servi.Schedule.Timer.Delivery.{fires}
use grandma_scheduling_servi.Schedule.Database.{MySql, connected, insert_record, records}
use grandma_scheduling_servi.Schedule.Service.{Error, invalid_message_content, World, new_schedule}
use grandma_scheduling_servi.Schedule.Service.Filing.{Inserts, new_schedule-fired}
use grandma_scheduling_servi.Cluster.Calls.{Node, dist_calls, scheduled, plus_3, minus_3}
use grandma_scheduling_servi.Server.{Request, Response, Library, answer, handler}
use grandma_scheduling_servi.Server.Answers.{Accepted, handler-Accepted}

-- The node behind a new schedule, with what the goroutine that waits for it writes later.
abbrev counted : {D : Type 0} → World D → ℕ → Node D → Node D
counted w1 later c = record {
  world = w1;
  complexity = plus_3 c.complexity;
  closed = c.closed;
  waiting = c.waiting ++ (later ∷ []);
}

module _ {D : Type 0} (db : MySql D) (name : Bytes) (len now now' : ℕ) where
  -- Both levels return the schedule's id, and count the schedule.
  dist_calls-ok :
      (m : Obj) (c : Node D) (s : Schedule) (w1 : World D)
      → new_schedule db name len now now' m c.world ≡ done (ok s, w1)
      → (c1 : Node D) × (dist_calls db name len now now' m c ≡ done (ok (pos s.id), c1))
        × (c1.world ≡ w1)
        × (c1.complexity ≡ plus_3 c.complexity)
  unfolding dist_calls scheduled
  dist_calls-ok m c s w1 made = elim (Bool-cases (m.message_type =ℤ pos 105)) [
    | inl level_2 ↦ (counted w1 (plus_3 c.complexity) c, rw (level_2, made), refl, refl)
    | inr level_1 ↦ (counted w1 (minus_3 c.complexity) c, rw (level_1, made), refl, refl)
  ]

  -- Where `NewSchedule` returns an error the handler panics.
  dist_calls-panic :
      (m : Obj) (c : Node D) (e : Error) (w1 : World D)
      → new_schedule db name len now now' m c.world ≡ done (err e, w1)
      → dist_calls db name len now now' m c ≡ panic
  unfolding dist_calls scheduled
  dist_calls-panic m c e w1 made = elim (Bool-cases (m.message_type =ℤ pos 105)) [
    | inl level_2 ↦ rw (level_2, made)
    | inr level_1 ↦ rw (level_1, made)
  ]

  abbrev pub node_library : Library (Node D) → Library (Node D)
  node_library lib = record lib { dist_calls = dist_calls db name len now now' }

  -- An accepted request whose message is valid for a second or more is answered with status 200 on a
  -- node whose database takes it: the message is filed, and the ticks of a synced timer then fire it
  -- exactly once within its delay and one second.
  pub handler-fired :
      (lib : Library (Node D)) (r : Request) (c : Node D) (m : Obj) (k e : ℕ) (tm : Timer) (d1 : D)
      (id : ℕ)
      → Accepted (node_library lib) r m
      → Inserts db name now m c.world.db d1 id
      → IsConsistent c.world.store
      → lookup id c.world.store.time_table ≡ none
      → m.expiration ≡ pos e
      → 1000 ≤ e
      → 1000 ≤ now'
      → IsSynced now' tm
      → e + 1000 ≤ 60 * k
      → (reply : Response) × (c1 : Node D) × (ss : List Schedule) × (after : Timer.World) × (handler
            (node_library lib)
            r
            c
          ≡ done (reply, c1))
        × (reply.status ≡ 200)
        × (c1.complexity ≡ plus_3 c.complexity)
        × (ticks (every_60 now' k) (record { timer = tm; store = c1.world.store })
            ≡ done (ss, after))
        × (fires id ss ≡ 1)
        × (lookup id after.store.time_table ≡ none)
  unfolding answer
  handler-fired lib r c m k e tm d1 id a i cons new em far late sync span =
      let (w1, ss, after, made, same_db, tcp, ran, once, gone) =
        new_schedule-fired db name len now now' k e m c.world tm d1 id i cons new em far late sync
          span in
      let (c1, called, same, count) = dist_calls-ok m c (record { id = id; exp = e }) w1 made in
      (
        answer (node_library lib) m (ok (pos id)),
        c1,
        ss,
        after,
        handler-Accepted (node_library lib) r c m a ∙ rw called,
        refl,
        count,
        ap (λ w. ticks (every_60 now' k) (record { timer = tm; store = w.store })) same ∙ ran,
        once,
        gone,
      )

  -- Where the insertion of the record of an accepted request cannot be prepared, the handler panics.
  pub handler-panic :
      (lib : Library (Node D)) (r : Request) (c : Node D) (m : Obj) (d : D)
      → Accepted (node_library lib) r m
      → connected db name c.world.db ≡ done d
      → db.prepare
          (insert_record
            (records name)
            m.message_type
            m.endpoint
            m.message_body
            (pos now +ℤ m.expiration))
          d
        ≡ false
      → handler (node_library lib) r c ≡ panic
  unfolding new_schedule
  handler-panic lib r c m d a connects fails =
      handler-Accepted (node_library lib) r c m a
      ∙ ap (λ o. o >>= λ res. done (answer (node_library lib) m res.0, res.1))
          (dist_calls-panic m c invalid_message_content (record c.world { db = d })
            (rw (connects, fails)))
