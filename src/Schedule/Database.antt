-- ===== src/Schedule/Database.antt =====
-- src/schedule/connector.go: the connection to the database, over the calls of mymysql that the
-- program makes. A statement or a query stands for its SQL text; a table's name is an argument. What
-- a failed call returns is not read by the program, and is left out.
use grandma_scheduling_servi.Prelude.{
  ℕ, ◌==◌, ltb, Bool, true, false, List, map, ◌++◌, Option, none, some, if◌then◌else◌, Outcome,
  done, panic, ◌>>=◌,
}
use grandma_scheduling_servi.Prelude.Int.{ℤ}
use grandma_scheduling_servi.Prelude.Text.{Bytes, codes}

-- With the table, and the arguments of `Run`.
pub data Statement : Type 0 where
  create_database : Statement
  create_table : Bytes → Statement
  insert_record : Bytes → ℤ → Bytes → Bytes → ℤ → Statement
  mark_sent : Bytes → ℕ → Statement

-- The columns that are read of a row of `records`.
pub record Row : Type 0 where
  pub id : ℕ
  pub service_type : ℤ
  pub endpoint : Bytes
  pub message_body : Bytes
  pub ttl : ℤ

-- `D` is the state of the database and of the connections to it. A connection or a preparation
-- fails (`false`), a query too (`none`).
pub record MySql (D : Type 0) : Type 0 where
  pub connect : Bytes → D → Bool × D
  pub prepare : Statement → D → Bool
  pub run : Statement → D → D
  pub tables_like : Bytes → D → Option ℕ
  pub last_insert_id : D → Option (List ℕ)
  pub unsent : Bytes → D → Option (List Row)
  pub by_id : Bytes → ℕ → D → Option (List Row)

-- `strings.Replace(name, " ", "_", -1)`
abbrev pub underscored : Bytes → Bytes
underscored = map (λ c. if c == b' ' then b'_' else c)

abbrev pub records : Bytes → Bytes
records name = codes "records_" ++ underscored name

module _ {D : Type 0} (db : MySql D) (name : Bytes) where
  -- The part behind the second connection.
  unfoldable pub make_table : D → Bool × D
  make_table d = elim (db.tables_like (underscored name) d) [
    | none ↦ (false, d)
    | some n ↦
        if ltb 0 n
        then (true, d)
        else if db.prepare (create_table (records name)) d
        then (true, db.run (create_table (records name)) d)
        else (false, d)
  ]

  -- `true` is a nil error.
  unfoldable pub initialize_my_sql_database : D → Bool × D
  unfolding make_table
  initialize_my_sql_database d =
      let (on_test, d1) = db.connect (codes "test") d in
      let (on_schedule, d2) = db.connect (codes "schedule") (db.run create_database d1) in
      if on_test
      then (if db.prepare create_database d1
          then (if on_schedule then make_table d2 else (false, d2))
          else (false, d1))
      else (false, d1)

  unfoldable pub get_my_sql_connector : D → Outcome (Bool × D)
  unfolding initialize_my_sql_database
  get_my_sql_connector d =
      let (open_now, d1) = db.connect (codes "schedule") d in
      let (made, d2) = initialize_my_sql_database d1 in
      if open_now
      then done (true, d1)
      else if made
      then done (db.connect (codes "schedule") d2)
      else panic

  -- Each caller panics where there is an error.
  unfoldable pub connected : D → Outcome D
  unfolding get_my_sql_connector
  connected d = get_my_sql_connector d >>= λ r. if r.0 then done r.1 else panic
