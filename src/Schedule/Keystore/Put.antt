-- ===== src/Schedule/Keystore/Put.antt =====
-- `put` files a schedule under its new slot and keeps the store consistent, but for one case in
-- which it panics.
use grandma_scheduling_servi.Prelude.{
  ℕ, ◌≡◌, ◌≢◌, refl, sym, List, [], ◌∷◌, ◌++◌, Option, none, some, arith, done, panic, Outcome,
  ◌>>=◌, Option-cases, inl, inr, ◌==◌, if◌then◌else◌,
}
use grandma_scheduling_servi.Prelude.Dict.{Dict, lookup, insert, lookup-insert, lookup-delete}
use grandma_scheduling_servi.Schedule.Keystore.{
  Store, Schedule, unlocked, slot_of, remove, store_bucket, take_out, with_slot, push_back,
  put_schedule,
}
use grandma_scheduling_servi.Schedule.Keystore.Invariant.{
  IsConsistent, Agrees, NoEmpty, bucket, count, is_at, count-append, count-remove,
  bucket-store_bucket, store_bucket-NoEmpty, bucket-insert,
}

-- What `PushBack` leaves in `data_map`: the id last in its slot.
record Pushed (m : Dict (List ℕ)) (t id : ℕ) (m' : Dict (List ℕ)) : Type 0 where
  same : (u : ℕ) → bucket m' u ≡ (if t == u then bucket m t ++ (id ∷ []) else bucket m u)
  filled : NoEmpty m'

append-ne-nil : (l : List ℕ) (x : ℕ) → l ++ (x ∷ []) ≢ []
append-ne-nil [] x e = cc
append-ne-nil (y ∷ l) x e = cc

insert-NoEmpty :
    (m : Dict (List ℕ)) (t : ℕ) (l : List ℕ)
    → ((u : ℕ) → t ≢ u → lookup u m ≢ some [])
    → l ≢ []
    → NoEmpty (insert t l m)
insert-NoEmpty m t l h ne u e = ground (arith, lookup-insert t u l m, h u)

push_old :
    (m : Dict (List ℕ)) (t id : ℕ) (l : List ℕ)
    → ((u : ℕ) → t ≢ u → lookup u m ≢ some [])
    → lookup t m ≡ some l
    → (m' : Dict (List ℕ)) × (push_back id t m ≡ done m') × Pushed m t id m'
unfolding push_back
push_old m t id l h e = (
  insert t (l ++ (id ∷ [])) m,
  rw (e, push_back),
  record {
    same = λ u. ground (arith, bucket-insert t u (l ++ (id ∷ [])) m);
    filled = insert-NoEmpty m t (l ++ (id ∷ [])) h (append-ne-nil l id);
  },
)

push_new :
    (m : Dict (List ℕ)) (t id : ℕ)
    → NoEmpty m
    → lookup t m ≡ none
    → (m' : Dict (List ℕ)) × (push_back id t (with_slot none t m) ≡ done m') × Pushed m t id m'
unfolding with_slot
push_new m t id h e =
    let m0 = insert t [] m in
    let (m', pushed, p) =
      push_old m0 t id [] (λ u ne. others u ne) (rw lookup-insert (ground arith)) in
    (
      m',
      pushed,
      record {
        same = λ u. ground (arith, p.same u, bucket-insert t u [] m, bucket-insert t t [] m);
        filled = p.filled;
      },
    )
  where
    others : (u : ℕ) → t ≢ u → lookup u (insert t [] m) ≢ some []
    others u ne e' = ground (arith, lookup-insert t u [] m, h u)

remove_absent : (id : ℕ) (l : List ℕ) → count id l ≡ 0 → remove id l ≡ l
unfolding remove
remove_absent id [] h = refl
remove_absent id (x ∷ l) h = ground (arith, remove_absent id l)

remove_last : (id : ℕ) (l : List ℕ) → count id l ≡ 1 → remove id l ≡ [] → l ≡ id ∷ []
unfolding remove
remove_last id [] h e = ground arith
remove_last id (x ∷ l) h e = ground arith

-- What the removal leaves in `data_map`.
record Taken (m : Dict (List ℕ)) (id : ℕ) (m' : Dict (List ℕ)) : Type 0 where
  same : (u : ℕ) → bucket m' u ≡ remove id (bucket m u)
  filled : NoEmpty m'

take_out-Taken :
    (id : ℕ) (o : Option ℕ) (m : Dict (List ℕ))
    → NoEmpty m
    → ((t : ℕ) → count id (bucket m t) ≡ (if is_at o t then 1 else 0))
    → (m' : Dict (List ℕ)) × (take_out id o m ≡ done m') × Taken m id m'
unfolding take_out
take_out-Taken id none m ne h =
    (m, refl, record { same = λ u. sym (remove_absent id (bucket m u) (h u)); filled = ne })
take_out-Taken id (some t) m ne h = elim (Option-cases (lookup t m)) [
  | inl e ↦ absurd (ground (arith, h t))
  | inr (l, e) ↦ (
    store_bucket t (remove id l) m,
    rw (e, take_out),
    record {
      same = λ u.
          ground
            (arith, bucket-store_bucket t u (remove id l) m, h u, remove_absent id (bucket m u));
      filled = store_bucket-NoEmpty t (remove id l) m ne;
    },
  )
]

lookup_of_bucket_nil : (m : Dict (List ℕ)) (t : ℕ) → NoEmpty m → bucket m t ≡ [] → lookup t m ≡ none
lookup_of_bucket_nil m t ne h = ground (arith, ne t)

-- The id is alone in the slot `t`, where it is to be filed again.
abbrev pub IsAlone : ℕ → ℕ → Dict (List ℕ) → Dict ℕ → Type 0
IsAlone id t m table = (lookup id table ≡ some t) × (bucket m t ≡ id ∷ [])

-- What `put` does to `data_map`: the id leaves its old place and stands last in its new slot.
abbrev pub refiled : ℕ → ℕ → Dict (List ℕ) → ℕ → List ℕ
refiled id t m u = if t == u then remove id (bucket m u) ++ (id ∷ []) else remove id (bucket m u)

abbrev refile : ℕ → ℕ → Dict (List ℕ) → Dict ℕ → Outcome (Dict (List ℕ))
refile id t m table =
    take_out id (lookup id table) m >>= λ m1. push_back id t (with_slot (lookup t m) t m1)

module _ (id t : ℕ) (m : Dict (List ℕ)) (table : Dict ℕ) (ne : NoEmpty m)
    (ag : Agrees m table) where
  after_take :
      (m1 : Dict (List ℕ))
      → Taken m id m1
      → ¬ IsAlone id t m table
      → (m' : Dict (List ℕ)) × (push_back id t (with_slot (lookup t m) t m1) ≡ done m')
        × Pushed m1 t id m'
  after_take m1 k h = elim (Option-cases (lookup t m)) [
    | inl e ↦ rw e (
        push_new m1 t id k.filled (
          lookup_of_bucket_nil m1 t k.filled
            (ground (arith, k.same t, remove_absent id (bucket m t)))))
    | inr (l, e) ↦ elim (Option-cases (lookup t m1)) [
      | inl e1 ↦
          absurd (h (ground (arith, ag id t, k.same t, remove_absent id l, remove_last id l, ne t)))
      | inr (l1, e1) ↦ rw e (unfold with_slot in push_old m1 t id l1 (λ u _. k.filled u) e1)
    ]
  ]

  refile-done :
      ¬ IsAlone id t m table
      → (m' : Dict (List ℕ)) × (refile id t m table ≡ done m')
        × ((u : ℕ) → bucket m' u ≡ refiled id t m u)
        × NoEmpty m'
  refile-done h =
      let (m1, e1, k) = take_out-Taken id (lookup id table) m ne (ag id) in
      let (m', e', p) = after_take m1 k h in
      (m', rw e1 e', λ u. ground (arith, p.same u, k.same u, k.same t), p.filled)

  -- The lone id leaves its slot, which is dropped though `dmok` says that it is there.
  refile-panic : IsAlone id t m table → refile id t m table ≡ panic
  unfolding take_out push_back with_slot remove
  refile-panic h =
      let kept = alone_bucket (lookup t m) refl h.1 in
      rw (h.0, take_out, kept) (ground (arith, lookup-delete t t m))
    where
      alone_bucket :
          (o : Option (List ℕ))
          → lookup t m ≡ o
          → bucket m t ≡ id ∷ []
          → lookup t m ≡ some (id ∷ [])
      alone_bucket none e b = ground arith
      alone_bucket (some l) e b = ground arith

  refiled-Agrees :
      (m' : Dict (List ℕ))
      → ((u : ℕ) → bucket m' u ≡ refiled id t m u)
      → Agrees m' (insert id t table)
  refiled-Agrees m' h a u = ground (
    arith,
    h u,
    ag a u,
    ag id u,
    lookup-insert id a t table,
    count-append a (remove id (bucket m u)) (id ∷ []),
    count-remove a id (bucket m u),
  )

-- `put` on a consistent store either files the schedule or panics. It files it unless the id is
-- alone in the very slot that is asked for; the store stays consistent, `time_table` gains the slot,
-- and in `data_map` the id leaves its old place and stands last in the new slot.
pub put_schedule-done :
    (now : ℕ) (s : Schedule) (st : Store)
    → IsConsistent st
    → ¬ IsAlone s.id (slot_of s.exp now) st.data_map st.time_table
    → (st' : Store) × (put_schedule now s st ≡ done st')
      × IsConsistent st'
      × (st'.time_table ≡ insert s.id (slot_of s.exp now) st.time_table)
      × ((u : ℕ) → bucket st'.data_map u ≡ refiled s.id (slot_of s.exp now) st.data_map u)
unfolding put_schedule
put_schedule-done now s st c h =
    let t = slot_of s.exp now in
    let (m', e, b, f) = refile-done s.id t st.data_map st.time_table c.filled c.agrees h in
    (
      record { data_map = m'; time_table = insert s.id t st.time_table; lock = unlocked },
      ground (arith, e, c.idle),
      record {
        idle = refl;
        filled = f;
        agrees = refiled-Agrees s.id t st.data_map st.time_table c.filled c.agrees m' b;
      },
      refl,
      b,
    )

-- Filing an id again under the slot in which it stands alone is a nil pointer panic.
pub put_schedule-panic :
    (now : ℕ) (s : Schedule) (st : Store)
    → IsConsistent st
    → IsAlone s.id (slot_of s.exp now) st.data_map st.time_table
    → put_schedule now s st ≡ panic
unfolding put_schedule
put_schedule-panic now s st c h = ground (
  arith,
  refile-panic s.id (slot_of s.exp now) st.data_map st.time_table c.filled c.agrees h,
  c.idle,
)
