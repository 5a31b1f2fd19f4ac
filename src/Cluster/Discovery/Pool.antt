-- ===== src/Cluster/Discovery/Pool.antt =====
-- What holds of all the nodes that a discovery ends with, and that there are some.
use grandma_scheduling_servi.Prelude.{
  ℕ, ◌+◌, ◌-◌, ◌<◌, ◌≡◌, refl, sym, ap, subst, ◌∙◌, true, false, List, [], ◌∷◌, ◌++◌, length, All,
  Outcome, done, panic, blocked, Result, ok, err, ◌>>=◌, ◌==◌, arith,
}
use grandma_scheduling_servi.Prelude.Text.{Bytes}
use grandma_scheduling_servi.Cluster.Handshake.{
  success, timeout, refused, badconn, svr_err, unknown,
}
use grandma_scheduling_servi.Cluster.Nodes.{Node}
use grandma_scheduling_servi.Cluster.Discovery.{
  Dialled, failed, connected, Error, underlying, new_node, pool_or_error, by_status, connect_all,
  discover_slaves,
}

-- The handshake with the address of a node has ended well, and the node is open.
pub record IsJoined (dial : Bytes → Dialled) (n : Node) : Type 0 where
  pub dialled : dial n.address ≡ connected (done success) true
  pub opened : n.closed ≡ false

-- A pool that a master can start with.
abbrev pub IsPool : (Bytes → Dialled) → List Node → Type 0
IsPool dial pool = (0 < length pool) × All (IsJoined dial) pool

same_pool :
    (a b : List Node)
    → ◌≡◌ {A = Outcome (Result Error (List Node))} (done (ok a)) (done (ok b))
    → a ≡ b
same_pool a b e = cc

full : (n : Node) (pool : List Node) → pool_or_error (n ∷ pool) ≡ ok (n ∷ pool)
full n pool = let nonzero : (length (n ∷ pool) == 0) ≡ false = ground arith in rw nonzero refl

module _ (dial : Bytes → Dialled) where
  All-append_one :
      (pool : List Node) (n : Node)
      → All (IsJoined dial) pool
      → IsJoined dial n
      → All (IsJoined dial) (pool ++ (n ∷ []))
  All-append_one [] n h hn = (hn, tt)
  All-append_one (m ∷ pool) n h hn = (h.0, All-append_one pool n h.1 hn)

  pool_or_error-IsPool :
      (pool r : List Node)
      → All (IsJoined dial) pool
      → ◌≡◌ {A = Outcome (Result Error (List Node))} (done (pool_or_error pool)) (done (ok r))
      → IsPool dial r
  pool_or_error-IsPool [] r h e = absurd (cc)
  pool_or_error-IsPool (n ∷ pool) r h e =
      subst (IsPool dial) (same_pool (n ∷ pool) r (ap done (sym (full n pool)) ∙ e))
        (omega arith, h)

  -- Whatever an address leads to, one of the three ways of going on gives the pool.
  by_dialled :
      (next same pushed : Outcome (Result Error (List Node))) (d : Dialled) (r : List Node)
      → (next ≡ done (ok r) → IsPool dial r)
      → (same ≡ done (ok r) → IsPool dial r)
      → (d ≡ connected (done success) true → pushed ≡ done (ok r) → IsPool dial r)
      → (elim d as (λ _. Outcome (Result Error (List Node))) [
        | failed ↦ done (err underlying)
        | connected status alive ↦ status >>= by_status next same pushed alive
      ])
        ≡ done (ok r)
      → IsPool dial r
  unfolding by_status
  by_dialled next same pushed failed r hn hs hp e = absurd (cc)
  by_dialled next same pushed (connected panic alive) r hn hs hp e = absurd (cc)
  by_dialled next same pushed (connected blocked alive) r hn hs hp e = absurd (cc)
  by_dialled next same pushed (connected (done success) true) r hn hs hp e = hp refl e
  by_dialled next same pushed (connected (done success) false) r hn hs hp e = absurd (cc)
  by_dialled next same pushed (connected (done svr_err) alive) r hn hs hp e = hn e
  by_dialled next same pushed (connected (done badconn) alive) r hn hs hp e = hs e
  by_dialled next same pushed (connected (done refused) alive) r hn hs hp e = hs e
  by_dialled next same pushed (connected (done timeout) alive) r hn hs hp e = hs e
  by_dialled next same pushed (connected (done unknown) alive) r hn hs hp e = hs e

  connect_all-IsPool :
      (count : ℕ) (addresses : List Bytes) (pool r : List Node)
      → All (IsJoined dial) pool
      → connect_all dial count addresses pool ≡ done (ok r)
      → IsPool dial r
  unfolding connect_all
  connect_all-IsPool count [] pool r h e = pool_or_error-IsPool pool r h e
  connect_all-IsPool count (a ∷ rest) pool r h e =
      by_dialled _ _ _ (dial a) r (connect_all-IsPool (count + 1) rest pool r h)
        (connect_all-IsPool count rest pool r h)
        (λ d.
          connect_all-IsPool (count + 1) rest (pool ++ (new_node (count - 1) a ∷ [])) r (
            All-append_one pool (new_node (count - 1) a) h (record { dialled = d; opened = refl })))
        e

  -- A master that starts has a slave, and the handshake with each of its slaves has ended well.
  pub discover_slaves-IsPool :
      (addresses : List Bytes) (r : List Node)
      → discover_slaves dial addresses ≡ done (ok r)
      → IsPool dial r
  unfolding discover_slaves
  discover_slaves-IsPool addresses r e = connect_all-IsPool 1 addresses [] r tt e
