-- ===== src/Tests/Handshakes.antt =====
-- Masters and slaves that meet.
use grandma_scheduling_servi.Prelude.{
  ◌≡◌, refl, true, List, [], ◌∷◌, some, done, panic, replicate, arith,
}
use grandma_scheduling_servi.Prelude.Text.{Bytes, codes, bytes_eq}
use grandma_scheduling_servi.Cluster.Handshake.{
  Arrival, bytes, success, refused, badconn, handshake_master, handshake_slave, slave_secret,
  read_and_check_time_out, run, talk,
}
use grandma_scheduling_servi.Cluster.Handshake.Secret.{handshake_slave-secret}
use grandma_scheduling_servi.Cluster.Handshake.Agree.{handshakes_agree, handshake_slave-panic}

abbrev secret : Bytes
secret = codes "k"

-- The master asks, gives the secret and its name, and confirms.
abbrev answers : List Arrival
answers = bytes (100 ∷ []) ∷ bytes secret ∷ bytes (codes "m") ∷ bytes (220 ∷ []) ∷ []

let_in : run (handshake_slave secret (codes "s")) (true ∷ true ∷ true ∷ []) answers ≡ done success
unfolding run handshake_slave read_and_check_time_out bytes_eq slave_secret
let_in = refl

handshake_slave-secret_example :
    (rest : List Arrival) × (answers ≡ bytes (100 ∷ []) ∷ bytes secret ∷ rest)
handshake_slave-secret_example =
    handshake_slave-secret secret (codes "s") (true ∷ true ∷ true ∷ []) answers (λ e. cc) let_in

handshakes_agree_example :
    talk 20 (handshake_master (codes "x") (codes "m")) (handshake_slave secret (codes "s")) [] []
    ≡ done (some (refused, badconn))
handshakes_agree_example =
    unfold bytes_eq in
    (handshakes_agree (codes "x") (codes "m") secret (codes "s") (omega arith, omega arith)
      (omega arith, omega arith) (omega arith, omega arith))

handshake_slave-panic_example :
    run (handshake_slave secret (codes "s")) (true ∷ []) (bytes (replicate 65 1) ∷ []) ≡ panic
handshake_slave-panic_example =
    handshake_slave-panic secret (codes "s") (replicate 65 1) (true ∷ []) [] (omega arith)
