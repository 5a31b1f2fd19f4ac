-- ===== src/Ws/Live.antt =====
-- What holds of the live connections through any calls of `Join` and `Leave`.
use grandma_scheduling_servi.Prelude.{
  ◌+◌, ◌≤◌, ◌≡◌, ◌≢◌, inl, inr, refl, ◌↔◌, sym, ap, subst, Bool-cases, true, false, List, [], ◌∷◌,
  ◌++◌, Option, none, some, ◌==◌, ltb, length, All, arith, length-append,
}
use grandma_scheduling_servi.Prelude.Text.{Bytes, bytes_eq, bytes_eq_sound}
use grandma_scheduling_servi.Ws.{
  Connection, ConnMap, set_conns, list_of, join, remove_conn, kept, leave, no_live_connection,
}

-- The connections under an id: at least one, at most 21, and all of that id.
abbrev pub IsBucket : Bytes → Option (List Connection) → Type 0
IsBucket id none = Unit
IsBucket id (some l) = (l ≢ []) × (length l ≤ 21) × All (λ c. c.id ≡ id) l

abbrev pub IsLive : ConnMap → Type 0
IsLive m = (id : Bytes) → IsBucket id (m id)

set_conns-IsLive :
    (m : ConnMap) (id : Bytes) (conns : Option (List Connection))
    → IsLive m
    → IsBucket id conns
    → IsLive (set_conns id conns m)
unfolding set_conns
set_conns-IsLive m id conns v b k = elim (Bool-cases (bytes_eq id k)) [
  | inl same ↦ rw (same, ← bytes_eq_sound id k same) b
  | inr other ↦ rw other (v k)
]

All-append :
    (id : Bytes) (l : List Connection) (c : Connection)
    → All (λ x. x.id ≡ id) l
    → c.id ≡ id
    → All (λ x. x.id ≡ id) (l ++ (c ∷ []))
All-append id [] c h e = (e, tt)
All-append id (x ∷ l) c h e = (h.0, All-append id l c h.1 e)

appended-IsBucket :
    (c : Connection) (l : List Connection)
    → All (λ x. x.id ≡ c.id) l
    → length l ≤ 20
    → IsBucket c.id (some (l ++ (c ∷ [])))
appended-IsBucket c l h few =
    let size = length-append l (c ∷ []) in
    (λ e. absurd (omega (arith, ap length e, size)), omega arith, All-append c.id l c h refl)

joined-IsBucket :
    (c : Connection) (conns : Option (List Connection))
    → IsBucket c.id conns
    → ltb 20 (length (list_of conns)) ≡ false
    → IsBucket c.id (some (list_of conns ++ (c ∷ [])))
joined-IsBucket c none b few = appended-IsBucket c [] tt (omega arith)
joined-IsBucket c (some l) b few = appended-IsBucket c l b.2 (ground arith)

full-IsBucket :
    (id : Bytes) (conns : Option (List Connection))
    → IsBucket id conns
    → ltb 20 (length (list_of conns)) ≡ true
    → IsBucket id (some (list_of conns))
full-IsBucket id none b many = absurd (ground arith)
full-IsBucket id (some l) b many = b

join-IsLive : (c : Connection) (m : ConnMap) → IsLive m → IsLive (join c m).1
unfolding join
join-IsLive c m v = elim (Bool-cases (ltb 20 (length (list_of (m c.id))))) [
  | inl many ↦ rw many (
      set_conns-IsLive m c.id (some (list_of (m c.id))) v
        (full-IsBucket c.id (m c.id) (v c.id) many))
  | inr few ↦ rw few (
      set_conns-IsLive m c.id (some (list_of (m c.id) ++ (c ∷ []))) v
        (joined-IsBucket c (m c.id) (v c.id) few))
]

-- What `remove_conn` leaves.
record Removed (c : Connection) (id : Bytes) (l rest : List Connection) : Type 0 where
  fewer : length l ≡ length rest + 1
  same_id : All (λ x. x.id ≡ id) rest

remove_conn-Removed :
    (c : Connection) (id : Bytes) (l rest : List Connection)
    → All (λ x. x.id ≡ id) l
    → remove_conn c l ≡ some rest
    → Removed c id l rest
unfolding remove_conn
remove_conn-Removed c id [] rest h e = absurd (cc)
remove_conn-Removed c id (x ∷ xs) rest h e = elim (Bool-cases (x.pointer == c.pointer)) [
  | inl here ↦
      let whole : rest ≡ xs = ground arith in
      rw whole (record { fewer = omega arith; same_id = h.1 })
  | inr later ↦
      by_rest later (λ ys er. remove_conn-Removed c id xs ys h.1 er) (remove_conn c xs) refl
]
  where
    by_rest :
        (x.pointer == c.pointer) ≡ false
        → ((ys : List Connection) → remove_conn c xs ≡ some ys → Removed c id xs ys)
        → (r : Option (List Connection)) → remove_conn c xs ≡ r
        → Removed c id (x ∷ xs) rest
    by_rest later shorter none er = absurd (ground arith)
    by_rest later shorter (some ys) er =
        let whole : rest ≡ x ∷ ys = ground arith in
        let d = shorter ys er in
        rw whole (record { fewer = omega (arith, d.fewer); same_id = (h.0, d.same_id) })

kept-IsBucket :
    (id : Bytes) (rest : List Connection)
    → length rest ≤ 21
    → All (λ x. x.id ≡ id) rest
    → IsBucket id (kept rest)
kept-IsBucket id [] few h = tt
kept-IsBucket id (x ∷ xs) few h = (λ e. cc, few, h)

module _ (c : Connection) (m : ConnMap) where
  leave-absent : m c.id ≡ none → leave c m ≡ (some no_live_connection, m)
  unfolding leave
  leave-absent em = rw (em, leave)

  leave-other :
      (p : List Connection)
      → m c.id ≡ some p
      → remove_conn c p ≡ none
      → leave c m ≡ (some no_live_connection, m)
  unfolding leave
  leave-other p em er = rw (em, er, leave)

  leave-kept :
      (p rest : List Connection)
      → m c.id ≡ some p
      → remove_conn c p ≡ some rest
      → leave c m ≡ (none, set_conns c.id (kept rest) m)
  unfolding leave
  leave-kept p rest em er = rw (em, er, leave)

  leave-IsLive : IsLive m → IsLive (leave c m).1
  leave-IsLive v = by_list (m c.id) refl
    where
      by_rest :
          (p : List Connection) (r : Option (List Connection))
          → m c.id ≡ some p
          → remove_conn c p ≡ r
          → IsLive (leave c m).1
      by_rest p none em er = subst (λ r. IsLive r.1) (sym (leave-other p em er)) v
      by_rest p (some rest) em er =
          let b : IsBucket c.id (some p) = subst (IsBucket c.id) em (v c.id) in
          let d = remove_conn-Removed c c.id p rest b.2 er in
          subst (λ r. IsLive r.1) (sym (leave-kept p rest em er))
            (set_conns-IsLive m c.id (kept rest) v
              (kept-IsBucket c.id rest (omega (arith, d.fewer, b.1)) d.same_id))

      by_list : (p : Option (List Connection)) → m c.id ≡ p → IsLive (leave c m).1
      by_list none em = subst (λ r. IsLive r.1) (sym (leave-absent em)) v
      by_list (some p) em = by_rest p (remove_conn c p) em refl

pub data Call : Type 0 where
  joins : Connection → Call
  leaves : Connection → Call

pub calls : ConnMap → List Call → ConnMap
calls m [] = m
calls m (joins c ∷ cs) = calls (join c m).1 cs
calls m (leaves c ∷ cs) = calls (leave c m).1 cs

-- Through any calls of `Join` and `Leave`, from a map in which this holds, an id in the map has at
-- least one connection and at most 21, all of that id.
pub calls-IsLive : (m : ConnMap) (cs : List Call) → IsLive m → IsLive (calls m cs)
unfolding calls
calls-IsLive m [] v = v
calls-IsLive m (joins c ∷ cs) v = calls-IsLive (join c m).1 cs (join-IsLive c m v)
calls-IsLive m (leaves c ∷ cs) v = calls-IsLive (leave c m).1 cs (leave-IsLive c m v)

-- `Join` lets a connection in exactly when its id has at most 20: so the 21st is let in.
join-none_iff :
    (c : Connection) (m : ConnMap) → ((join c m).0 ≡ none) ↔ (length (list_of (m c.id)) ≤ 20)
unfolding join
join-none_iff c m = (λ h. ground arith, λ h. ground arith)
