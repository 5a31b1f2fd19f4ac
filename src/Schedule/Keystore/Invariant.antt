-- ===== src/Schedule/Keystore/Invariant.antt =====
-- The two maps of the store agree: each id stands once in the slot that `time_table` gives it and
-- in no other, and no slot of `data_map` is empty.
use grandma_scheduling_servi.Prelude.{
  ℕ, suc, ◌+◌, ◌-◌, ◌≡◌, ◌≢◌, Bool, false, List, [], ◌∷◌, ◌++◌, Option, none, some, ◌==◌,
  if◌then◌else◌, arith,
}
use grandma_scheduling_servi.Prelude.Dict.{Dict, lookup, insert, lookup-insert, lookup-delete}
use grandma_scheduling_servi.Schedule.Keystore.{Store, unlocked, remove, store_bucket}

abbrev pub count : ℕ → List ℕ → ℕ
count a [] = 0
count a (x ∷ xs) = if x == a then suc (count a xs) else count a xs

-- The ids due in a slot.
abbrev pub bucket : Dict (List ℕ) → ℕ → List ℕ
bucket m t = elim (lookup t m) [ none ↦ [] | some l ↦ l ]

abbrev pub is_at : Option ℕ → ℕ → Bool
is_at none t = false
is_at (some u) t = u == t

abbrev pub Agrees : Dict (List ℕ) → Dict ℕ → Type 0
Agrees m table = (id t : ℕ) → count id (bucket m t) ≡ (if is_at (lookup id table) t then 1 else 0)

abbrev pub NoEmpty : Dict (List ℕ) → Type 0
NoEmpty m = (t : ℕ) → lookup t m ≢ some []

pub record IsConsistent (st : Store) : Type 0 where
  pub idle : st.lock ≡ unlocked
  pub filled : NoEmpty st.data_map
  pub agrees : Agrees st.data_map st.time_table

pub count-append : (a : ℕ) (xs ys : List ℕ) → count a (xs ++ ys) ≡ count a xs + count a ys
count-append a [] ys = omega arith
count-append a (x ∷ xs) ys = ground (arith, count-append a xs ys)

pub count-remove :
    (a b : ℕ) (xs : List ℕ)
    → count a (remove b xs) ≡ (if b == a then count a xs - 1 else count a xs)
unfolding remove
count-remove a b [] = ground arith
count-remove a b (x ∷ xs) = ground (arith, count-remove a b xs)

pub bucket-store_bucket :
    (t u : ℕ) (l : List ℕ) (m : Dict (List ℕ))
    → bucket (store_bucket t l m) u ≡ (if t == u then l else bucket m u)
bucket-store_bucket t u [] m = ground (arith, lookup-delete t u m)
bucket-store_bucket t u (x ∷ xs) m = ground (arith, lookup-insert t u (x ∷ xs) m)

pub store_bucket-NoEmpty :
    (t : ℕ) (l : List ℕ) (m : Dict (List ℕ)) → NoEmpty m → NoEmpty (store_bucket t l m)
store_bucket-NoEmpty t [] m h u e = ground (arith, lookup-delete t u m, h u)
store_bucket-NoEmpty t (x ∷ xs) m h u e = ground (arith, lookup-insert t u (x ∷ xs) m, h u)

pub bucket-insert :
    (t u : ℕ) (l : List ℕ) (m : Dict (List ℕ))
    → bucket (insert t l m) u ≡ (if t == u then l else bucket m u)
bucket-insert t u l m = ground (arith, lookup-insert t u l m)
