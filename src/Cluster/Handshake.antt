-- ===== src/Cluster/Handshake.antt =====
-- src/clustering/network.go, `handshakeMaster` and `handshakeSlave`, with `readAndCheckTimeOut`: what
-- a master and a slave say to one another when they connect. A side of it is a script of writes and
-- reads; what the network does to a script is an argument of `run`, and `talk` runs two against one
-- another. A connection hands over what was written in one `Write` in one `Read`.
pub mod Reads
pub mod Secret
pub mod Agree
use grandma_scheduling_servi.Prelude.{
  ℕ, zero, suc, Bool, true, false, List, [], ◌∷◌, ◌++◌, Option, none, some, if◌then◌else◌, length,
  take, replicate, Outcome, done, panic, blocked, ◌>>=◌, ◌==◌,
}
use grandma_scheduling_servi.Prelude.Int.{pos}
use grandma_scheduling_servi.Prelude.Text.{Bytes, bytes_eq}
use grandma_scheduling_servi.Cluster.Framing.{copy, append_buffer}

-- HANDSHAKE_STATUS_SUCCESS and so on.
pub data Status : Type 0 where
  success : Status
  timeout : Status
  refused : Status
  badconn : Status
  svr_err : Status
  unknown : Status

-- What `readAndCheckTimeOut` returns: the data with code 0, or the code -1 or -2.
pub data Reception : Type 0 where
  got : Bytes → Reception
  bad : Reception
  timed_out : Reception

-- What comes in within the five seconds: bytes, an error, or nothing.
pub data Arrival : Type 0 where
  bytes : Bytes → Arrival
  broken : Arrival
  silence : Arrival

-- `Read` into `temp_buffer` of 512 bytes, copied to a buffer of 64: the length, and the buffer. 0 is
-- an error. A panic here is one of a goroutine, and ends the program.
unfoldable pub read_handshake_data : Bytes → Outcome (ℕ × Bytes)
unfolding copy append_buffer
read_handshake_data b = do
  temp ← copy (replicate 512 0) b 0 0 (length b)
  buffer ← append_buffer (replicate 64 0) temp (pos 0) 0 (length b)
  done (length b, buffer)

unfoldable pub read_and_check_time_out : Arrival → Outcome Reception
unfolding read_handshake_data
read_and_check_time_out silence = done timed_out
read_and_check_time_out broken = done bad
read_and_check_time_out (bytes b) =
    read_handshake_data b >>= λ r. if r.0 == 0 then done bad else done (got (take r.0 r.1))

-- `write b next failed`: `failed` is what is done where `Write` returns an error.
pub data Script : Type 0 where
  finish : Status → Script
  write : Bytes → Script → Script → Script
  receive : (Reception → Script) → Script

-- `if code != 0 { return code }`
abbrev pub or_return : (Bytes → Script) → Reception → Script
or_return k (got data_read) = k data_read
or_return k bad = finish badconn
or_return k timed_out = finish timeout

-- On an error of the read the code answers first, whether or not that is written.
abbrev pub or_answer : Bytes → Bytes → (Bytes → Script) → Reception → Script
or_answer on_bad on_timeout k (got data_read) = k data_read
or_answer on_bad on_timeout k bad = write on_bad (finish badconn) (finish badconn)
or_answer on_bad on_timeout k timed_out = write on_timeout (finish timeout) (finish timeout)

-- The names are exchanged, and the master confirms.
unfoldable pub master_name : Bytes → Script
master_name name =
    write name
      (receive (
        or_answer (221 ∷ []) (222 ∷ [])
          λ slave_name. write (220 ∷ []) (finish success) (finish svr_err)))
      (finish svr_err)

unfoldable pub master_response : Bytes → Bytes → Bytes → Script
unfolding master_name
master_response secret name response =
    if bytes_eq response (201 ∷ [])
    then write secret
        (receive (
          or_return
            λ answer. if bytes_eq answer (210 ∷ []) then master_name name else finish refused))
        (finish svr_err)
    else if bytes_eq response (200 ∷ [])
    then master_name name
    else finish unknown

unfoldable pub handshake_master : Bytes → Bytes → Script
unfolding master_response
handshake_master secret name =
    write (100 ∷ []) (receive (or_return (master_response secret name))) (finish svr_err)

-- A failed write is answered by one more, and the handshake is given up.
abbrev pub give_up : Bytes → Status → Script
give_up b s = write b (finish s) (finish s)

unfoldable pub slave_name : Bytes → Script
slave_name name = receive (
    or_answer (221 ∷ []) (222 ∷ []) λ master_name.
      write name
        (receive (
          or_return
            λ answer. if bytes_eq answer (220 ∷ []) then finish success else finish refused))
        (give_up (202 ∷ []) svr_err))

-- With a secret: the master has to give it.
unfoldable pub slave_locked : Bytes → Bytes → Script
slave_locked secret name =
    write (201 ∷ [])
      (receive (
        or_answer (211 ∷ []) (213 ∷ []) λ answer.
          if bytes_eq answer secret
          then write (210 ∷ []) (slave_name name) (give_up (211 ∷ []) svr_err)
          else give_up (212 ∷ []) badconn))
      (give_up (202 ∷ []) svr_err)

unfoldable pub slave_secret : Bytes → Bytes → Script
unfolding slave_name slave_locked
slave_secret secret name =
    if bytes_eq secret []
    then write (200 ∷ []) (slave_name name) (give_up (202 ∷ []) svr_err)
    else slave_locked secret name

unfoldable pub handshake_slave : Bytes → Bytes → Script
handshake_slave secret name = receive (
    or_answer (202 ∷ []) (204 ∷ []) λ request.
      if bytes_eq request (100 ∷ []) then slave_secret secret name else give_up (203 ∷ []) badconn)

-- A script against any network: whether each write succeeds, and what arrives at each read. Where
-- these lists end, writes fail and nothing arrives.
unfoldable pub run : Script → List Bool → List Arrival → Outcome Status
run (finish s) ws rs = done s
run (write b next failed) [] rs = run failed [] rs
run (write b next failed) (w ∷ ws) rs =
    let on = run next ws rs in let off = run failed ws rs in if w then on else off
run (receive k) ws [] = run (k timed_out) ws []
run (receive k) ws (r ∷ rs) = read_and_check_time_out r >>= λ reception. run (k reception) ws rs

-- The two sides against one another, by turns: `to_slave` and `to_master` are written and not yet
-- read. Who can go on does, the master first; where neither can, who reads times out. `none` is the
-- end of the fuel.
unfoldable pub talk :
    ℕ → Script → Script → List Bytes → List Bytes → Outcome (Option (Status × Status))
talk zero master slave to_slave to_master = done none
talk (suc f) (finish s) (finish t) to_slave to_master = done (some (s, t))
talk (suc f) (finish s) (write b next failed) to_slave to_master =
    talk f (finish s) next to_slave (to_master ++ (b ∷ []))
talk (suc f) (finish s) (receive k) [] to_master = talk f (finish s) (k timed_out) [] to_master
talk (suc f) (finish s) (receive k) (b ∷ to_slave) to_master =
    read_and_check_time_out (bytes b) >>= λ r. talk f (finish s) (k r) to_slave to_master
talk (suc f) (write b next failed) slave to_slave to_master =
    talk f next slave (to_slave ++ (b ∷ [])) to_master
talk (suc f) (receive k) slave to_slave (b ∷ to_master) =
    read_and_check_time_out (bytes b) >>= λ r. talk f (k r) slave to_slave to_master
talk (suc f) (receive k) (finish t) to_slave [] = talk f (k timed_out) (finish t) to_slave []
talk (suc f) (receive k) (write b next failed) to_slave [] =
    talk f (receive k) next to_slave (b ∷ [])
talk (suc f) (receive k) (receive k') [] [] = talk f (k timed_out) (k' timed_out) [] []
talk (suc f) (receive k) (receive k') (b ∷ to_slave) [] =
    read_and_check_time_out (bytes b) >>= λ r. talk f (receive k) (k' r) to_slave []
