-- ===== src/Schedule/Timer/Fire.antt =====
-- One firing: every id of the slot is fired once and leaves both maps, and nothing else changes.
use grandma_scheduling_servi.Prelude.{
  ℕ, ◌≡◌, refl, sym, ap, subst, ◌∙◌, ◌⊎◌, inl, inr, List, [], ◌∷◌, map, Option, none, some, ◌==◌,
  if◌then◌else◌, arith, done, Option-cases,
}
use grandma_scheduling_servi.Prelude.Dict.{Dict, lookup, delete, lookup-delete}
use grandma_scheduling_servi.Schedule.Keystore.{Schedule, Store, unlocked}
use grandma_scheduling_servi.Schedule.Keystore.Locks.{get_lem}
use grandma_scheduling_servi.Schedule.Keystore.Invariant.{IsConsistent, bucket, count, is_at}
use grandma_scheduling_servi.Schedule.Timer.{fire_each, fire, fire_slot}

-- Each id of the list is there once, and `time_table` gives it the slot `t`.
abbrev AllAt : ℕ → List ℕ → Dict ℕ → Type 0
AllAt t l table = (id : ℕ) → (count id l ≡ 0) ⊎ ((count id l ≡ 1) × (lookup id table ≡ some t))

abbrev pub schedules_at : ℕ → List ℕ → List Schedule
schedules_at t = map (λ id. record { id = id; exp = t })

-- `time_table` without the ids of the list.
pub delete_all : List ℕ → Dict ℕ → Dict ℕ
delete_all [] table = table
delete_all (x ∷ xs) table = delete_all xs (delete x table)

lookup-delete_all :
    (l : List ℕ) (id : ℕ) (table : Dict ℕ)
    → lookup id (delete_all l table) ≡ (if count id l == 0 then lookup id table else none)
unfolding delete_all
lookup-delete_all [] id table = refl
lookup-delete_all (x ∷ xs) id table =
    ground (arith, lookup-delete_all xs id (delete x table), lookup-delete x id table)

AllAt-tail :
    (t x : ℕ) (xs : List ℕ) (table : Dict ℕ) → AllAt t (x ∷ xs) table → AllAt t xs (delete x table)
AllAt-tail t x xs table h id = ground (arith, h id, lookup-delete x id table)

fire_each_lem :
    (t : ℕ) (l : List ℕ) (st : Store)
    → st.lock ≡ unlocked
    → AllAt t l st.time_table
    → fire_each l st
      ≡ done (schedules_at t l, record st { time_table = delete_all l st.time_table })
unfolding fire_each delete_all
fire_each_lem t [] st idle h = refl
fire_each_lem t (x ∷ xs) st idle h =
    let st1 : Store = record st { time_table = delete x st.time_table } in
    let found : lookup x st.time_table ≡ some t = ground (arith, h x) in
    rw (get_lem x st idle, found)
      (rw (fire_each_lem t xs st1 idle (AllAt-tail t x xs st.time_table h)) refl)

-- What firing the slot `t` makes of the store.
pub record Fired (t : ℕ) (st st' : Store) : Type 0 where
  pub consistent : IsConsistent st'
  pub left :
      (id : ℕ)
      → lookup id st'.time_table
        ≡ (if is_at (lookup id st.time_table) t then none else lookup id st.time_table)

abbrev after_fire : ℕ → List ℕ → Store → Store
after_fire t l st = record st {
  data_map = delete t st.data_map;
  time_table = delete_all l st.time_table;
}

fire_lem :
    (t : ℕ) (l : List ℕ) (st : Store)
    → st.lock ≡ unlocked
    → AllAt t l st.time_table
    → fire t l st ≡ done (schedules_at t l, after_fire t l st)
unfolding fire
fire_lem t l st idle h = rw (fire_each_lem t l st idle h)

AllAt-bucket : (t : ℕ) (st : Store) → IsConsistent st → AllAt t (bucket st.data_map t) st.time_table
AllAt-bucket t st c id = at (lookup id st.time_table) refl
  where
    at :
        (o : Option ℕ)
        → lookup id st.time_table ≡ o
        → (count id (bucket st.data_map t) ≡ 0)
          ⊎ ((count id (bucket st.data_map t) ≡ 1) × (lookup id st.time_table ≡ some t))
    at none e = ground (arith, c.agrees id t)
    at (some u) e = ground (arith, c.agrees id t)

after_fire-left :
    (t : ℕ) (st : Store) (id : ℕ)
    → IsConsistent st
    → lookup id (delete_all (bucket st.data_map t) st.time_table)
      ≡ (if is_at (lookup id st.time_table) t then none else lookup id st.time_table)
after_fire-left t st id c =
    ground (arith, lookup-delete_all (bucket st.data_map t) id st.time_table, c.agrees id t)

after_fire-IsConsistent :
    (t : ℕ) (st : Store) → IsConsistent st → IsConsistent (after_fire t (bucket st.data_map t) st)
after_fire-IsConsistent t st c = record {
  idle = c.idle;
  filled = λ u e. ground (arith, lookup-delete t u st.data_map, c.filled u);
  agrees = λ id u. agree id u (lookup id st.time_table) refl;
}
  where
    agree :
        (id u : ℕ) (o : Option ℕ)
        → lookup id st.time_table ≡ o
        → count id (bucket (delete t st.data_map) u)
          ≡ (if is_at (lookup id (delete_all (bucket st.data_map t) st.time_table)) u then 1 else 0)
    agree id u none e =
        ground (arith, lookup-delete t u st.data_map, after_fire-left t st id c, c.agrees id u)
    agree id u (some v) e =
        ground (arith, lookup-delete t u st.data_map, after_fire-left t st id c, c.agrees id u)

-- Firing a slot of a consistent store neither panics nor waits. It fires the ids of that slot in the
-- order in which they were filed, takes exactly these out of `time_table`, and leaves the store
-- consistent.
pub fire_slot-Fired :
    (t : ℕ) (st : Store)
    → IsConsistent st
    → (st' : Store) × (fire_slot t (lookup t st.data_map) st
        ≡ done (schedules_at t (bucket st.data_map t), st'))
      × Fired t st st'
fire_slot-Fired t st c = elim (Option-cases (lookup t st.data_map)) [
  | inl e ↦ (
    st,
    unfold fire_slot in
        rw (e, fire_slot) (ap (λ (k : List ℕ). done (schedules_at t k, st)) (sym (no_bucket e))),
    record { consistent = c; left = λ id. nothing_at e id (lookup id st.time_table) refl },
  )
  | inr (l, e) ↦ (
    after_fire t (bucket st.data_map t) st,
    unfold fire_slot in
        rw (e, fire_slot)
          (fire_lem t l st c.idle
              (subst (λ k. AllAt t k st.time_table) (is_bucket l e) (AllAt-bucket t st c))
            ∙ ap (λ (k : List ℕ). done (schedules_at t k, after_fire t k st))
                (sym (is_bucket l e))),
    record { consistent = after_fire-IsConsistent t st c; left = λ id. after_fire-left t st id c },
  )
]
  where
    no_bucket : lookup t st.data_map ≡ none → bucket st.data_map t ≡ []
    no_bucket e = ground arith

    is_bucket : (l : List ℕ) → lookup t st.data_map ≡ some l → bucket st.data_map t ≡ l
    is_bucket l e = ground arith

    nothing_at :
        lookup t st.data_map ≡ none
        → (id : ℕ) (o : Option ℕ) → lookup id st.time_table ≡ o
        → lookup id st.time_table
          ≡ (if is_at (lookup id st.time_table) t then none else lookup id st.time_table)
    nothing_at e id none p = ground arith
    nothing_at e id (some u) p = ground (arith, c.agrees id t)
