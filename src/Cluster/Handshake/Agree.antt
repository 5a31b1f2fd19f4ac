-- ===== src/Cluster/Handshake/Agree.antt =====
-- A master and a slave that shake hands come to the same end.
use grandma_scheduling_servi.Prelude.{
  ℕ, suc, ◌≤◌, ◌<◌, ◌≡◌, ◌≢◌, refl, sym, ap, ◌∙◌, inl, inr, Bool, Bool-cases, true, false, ◌||◌,
  List, [], ◌∷◌, ◌++◌, some, if◌then◌else◌, length, done, panic, ◌>>=◌, arith,
}
use grandma_scheduling_servi.Prelude.Text.{Bytes, bytes_eq}
use grandma_scheduling_servi.Cluster.Handshake.{
  Status, Reception, Script, finish, write, receive, success, refused, badconn, Arrival, bytes, got,
  read_and_check_time_out, handshake_master, master_response, master_name, handshake_slave,
  slave_secret, slave_locked, slave_name, or_return, give_up, svr_err, run, talk,
}
use grandma_scheduling_servi.Cluster.Handshake.Secret.{slave_secret-slave_locked}
use grandma_scheduling_servi.Cluster.Handshake.Reads.{
  read_and_check_time_out-got, read_and_check_time_out-panic,
}

-- A text that a handshake can send.
abbrev pub IsShort : Bytes → Type 0
IsShort b = (0 < length b) × (length b ≤ 64)

code : (c : ℕ) → read_and_check_time_out (bytes (c ∷ [])) ≡ done (got (c ∷ []))
code c = read_and_check_time_out-got (c ∷ []) (omega arith) (omega arith)

got_text : (b : Bytes) → IsShort b → read_and_check_time_out (bytes b) ≡ done (got b)
got_text b short = read_and_check_time_out-got b short.0 short.1

-- One turn of `talk`, for each way to go on.
module _ (f : ℕ) where
  master_writes :
      (b : Bytes) (next failed slave : Script) (to_slave to_master : List Bytes)
      → talk (suc f) (write b next failed) slave to_slave to_master
        ≡ talk f next slave (to_slave ++ (b ∷ [])) to_master
  unfolding talk
  master_writes b next failed slave to_slave to_master = refl

  slave_writes :
      (k : Reception → Script) (b : Bytes) (next failed : Script)
      → talk (suc f) (receive k) (write b next failed) [] [] ≡ talk f (receive k) next [] (b ∷ [])
  unfolding talk
  slave_writes k b next failed = refl

  master_reads :
      (k : Reception → Script) (slave : Script) (b : Bytes)
      → read_and_check_time_out (bytes b) ≡ done (got b)
      → talk (suc f) (receive k) slave [] (b ∷ []) ≡ talk f (k (got b)) slave [] []
  unfolding talk
  master_reads k slave b e = ap (λ o. o >>= λ r. talk f (k r) slave [] []) e

  slave_reads :
      (k k' : Reception → Script) (b : Bytes)
      → read_and_check_time_out (bytes b) ≡ done (got b)
      → talk (suc f) (receive k) (receive k') (b ∷ []) [] ≡ talk f (receive k) (k' (got b)) [] []
  unfolding talk
  slave_reads k k' b e = ap (λ o. o >>= λ r. talk f (receive k) (k' r) [] []) e

  last_reads :
      (s : Status) (k : Reception → Script) (b : Bytes)
      → read_and_check_time_out (bytes b) ≡ done (got b)
      → talk (suc f) (finish s) (receive k) (b ∷ []) [] ≡ talk f (finish s) (k (got b)) [] []
  unfolding talk
  last_reads s k b e = ap (λ o. o >>= λ r. talk f (finish s) (k r) [] []) e

  both_end : (s t : Status) → talk (suc f) (finish s) (finish t) [] [] ≡ done (some (s, t))
  unfolding talk
  both_end s t = refl

-- What becomes of the slave's answer to the secret, and of the secret.
abbrev master_answer : Bytes → Bytes → Script
master_answer name answer = if bytes_eq answer (210 ∷ []) then master_name name else finish refused

abbrev slave_knows : Bytes → Script
slave_knows name' = write (210 ∷ []) (slave_name name') (give_up (211 ∷ []) svr_err)

abbrev slave_answer : Bytes → Bytes → Bytes → Script
slave_answer secret' name' secret =
    if bytes_eq secret secret' then slave_knows name' else give_up (212 ∷ []) badconn

module _ (name name' : Bytes) (hn : IsShort name) (hn' : IsShort name') where
  -- Behind the secret: the names, and the confirmation.
  names :
      (f : ℕ)
      → talk (suc (suc (suc (suc (suc (suc (suc f))))))) (master_name name) (slave_name name') [] []
        ≡ done (some (success, success))
  unfolding master_name slave_name bytes_eq
  names f =
      master_writes _ _ _ _ _ _ _
      ∙ slave_reads _ _ _ name (got_text name hn)
      ∙ slave_writes _ _ _ _ _
      ∙ master_reads _ _ _ name' (got_text name' hn')
      ∙ master_writes _ _ _ _ _ _ _
      ∙ last_reads _ _ _ _ (code 220)
      ∙ both_end f _ _

  without_secret :
      (secret : Bytes)
      → talk 20 (handshake_master secret name) (handshake_slave [] name') [] []
        ≡ done (some (success, success))
  unfolding handshake_master master_response handshake_slave slave_secret bytes_eq
  without_secret secret =
      master_writes 19 _ _ _ _ _ _
      ∙ slave_reads 18 _ _ _ (code 100)
      ∙ slave_writes 17 _ _ _ _
      ∙ master_reads 16 _ _ _ (code 200)
      ∙ names 9

  module _ (secret secret' : Bytes) (short : IsShort secret) (locked : secret' ≢ []) where
    -- Until the slave has the secret of the master.
    secret_sent :
        talk 20 (handshake_master secret name) (handshake_slave secret' name') [] []
        ≡ talk 14
            (receive (or_return (master_answer name)))
            (slave_answer secret' name' secret)
            []
            []
    unfolding handshake_master master_response handshake_slave slave_locked bytes_eq
    secret_sent =
        master_writes 19 _ _ _ _ _ _
        ∙ slave_reads 18 _ _ _ (code 100)
        ∙ ap (λ p. talk 18 (receive (or_return (master_response secret name))) p [] [])
            (slave_secret-slave_locked secret' name' locked)
        ∙ slave_writes 17 _ _ _ _
        ∙ master_reads 16 _ _ _ (code 201)
        ∙ master_writes 15 _ _ _ _ _ _
        ∙ slave_reads 14 _ _ secret (got_text secret short)

    same_secret :
        bytes_eq secret secret' ≡ true
        → talk 20 (handshake_master secret name) (handshake_slave secret' name') [] []
          ≡ done (some (success, success))
    same_secret e =
        secret_sent
        ∙ ap
            (λ b.
              talk 14 (receive (or_return (master_answer name)))
                (if b then slave_knows name' else give_up (212 ∷ []) badconn) [] [])
            e
        ∙ slave_writes 13 _ _ _ _
        ∙ unfold bytes_eq in (master_reads 12 _ _ _ (code 210) ∙ names 5)

    other_secret :
        bytes_eq secret secret' ≡ false
        → talk 20 (handshake_master secret name) (handshake_slave secret' name') [] []
          ≡ done (some (refused, badconn))
    other_secret e =
        secret_sent
        ∙ ap
            (λ b.
              talk 14 (receive (or_return (master_answer name)))
                (if b then slave_knows name' else give_up (212 ∷ []) badconn) [] [])
            e
        ∙ slave_writes 13 _ _ _ _
        ∙ unfold bytes_eq in (master_reads 12 _ _ _ (code 212) ∙ both_end 11 _ _)

-- A master and a slave whose names, and the master's secret, are of 1 to 64 bytes come to the same
-- end: both succeed where the slave has no secret or they have the same, and else the master is
-- refused. The 20 turns of `talk` are enough.
pub handshakes_agree :
    (secret name secret' name' : Bytes)
    → IsShort secret
    → IsShort name
    → IsShort name'
    → talk 20 (handshake_master secret name) (handshake_slave secret' name') [] []
      ≡ done (
          some (
            if bytes_eq secret' [] || bytes_eq secret secret'
            then (success, success)
            else (refused, badconn)))
unfolding bytes_eq
handshakes_agree secret name [] name' short hn hn' = without_secret name name' hn hn' secret
handshakes_agree secret name (c ∷ secret') name' short hn hn' =
    elim (Bool-cases (bytes_eq secret (c ∷ secret'))) [
      | inl same ↦
          same_secret name name' hn hn' secret (c ∷ secret') short (λ e. cc) same
          ∙ ap (λ b. done (some (if b then (success, success) else (refused, badconn)))) (sym same)
      | inr other ↦
          other_secret name name' hn hn' secret (c ∷ secret') short (λ e. cc) other
          ∙ ap (λ b. done (some (if b then (success, success) else (refused, badconn)))) (sym other)
    ]

-- More than 64 bytes as its first message end a slave in a panic, whoever sends them.
pub handshake_slave-panic :
    (secret name b : Bytes) (ws : List Bool) (rs : List Arrival)
    → 64 < length b
    → run (handshake_slave secret name) ws (bytes b ∷ rs) ≡ panic
unfolding handshake_slave run
handshake_slave-panic secret name b ws rs many = rw (read_and_check_time_out-panic b many)
