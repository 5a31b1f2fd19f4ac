-- ===== src/Cluster/Framing.antt =====
-- src/clustering/network.go, `readData`, `sendSlave` and `sendMaster`, and bytesutils.go: messages on
-- a TCP stream, each behind two bytes of length. `cap` is the length of a node's buffers, 4096. What
-- the network does is the list of what the calls of `Read` return, one after the other; its end is
-- an error. `sofar` may be negative in the source: `got` here is `sofar + 2`, the bytes read so far.
pub mod Splice
pub mod Receive
pub mod Whole
pub mod ReadData
pub mod Short
pub mod Kept
use grandma_scheduling_servi.Prelude.{
  ℕ, zero, suc, ◌+◌, ◌-◌, ◌*◌, ◌/◌, ◌%◌, ◌^◌, List, [], ◌∷◌, ◌++◌, Option, none, some, ◌==◌, ltb,
  leb, if◌then◌else◌, length, replicate, Outcome, done, panic, ◌>>=◌, load, store,
}
use grandma_scheduling_servi.Prelude.Int.{ℤ, pos, negsuc, sub_ℕ}
use grandma_scheduling_servi.Prelude.Text.{Bytes}

-- The part of a `Node` that `readData` reads and writes.
pub record Link : Type 0 where
  pub read_buffer : Bytes
  pub level_2_buffer : Bytes
  pub level_2_size : ℕ
  pub conn : List Bytes

-- The loop of `append_buffer` from an index that is no longer negative.
unfoldable pub copy : Bytes → Bytes → ℕ → ℕ → ℕ → Outcome Bytes
copy dst src i j zero = done dst
copy dst src i j (suc n) = do v ← load src j; dst' ← store dst i v; copy dst' src (suc i) (suc j) n

unfoldable pub append_buffer : Bytes → Bytes → ℤ → ℕ → ℕ → Outcome Bytes
unfolding copy
append_buffer dst src (pos i) beginsrc n = copy dst src i beginsrc n
append_buffer dst src (negsuc k) beginsrc n = if n == 0 then done dst else panic

-- `Read` into the buffer from `off` on: how many bytes came, and the buffer. `none` is an error.
unfoldable pub read : Bytes → ℕ → List Bytes → Outcome (Option (ℕ × Bytes) × List Bytes)
unfolding copy
read buffer off [] = done (none, [])
read buffer off (c ∷ cs) = do
  buffer' ← copy buffer c off 0 (length c)
  done (some (length c, buffer'), cs)

-- A read into `temp_buffer` for the node.
unfoldable pub read_link : Bytes → ℕ → Link → Outcome (Option (ℕ × Bytes) × Link)
unfolding read
read_link temp off l = do (r, conn) ← read temp off l.conn; done (r, record l { conn = conn })

one_more : Option (ℕ × Bytes) → Option (ℕ × Bytes)
one_more none = none
one_more (some (size, temp)) = some (size + 1, temp)

-- The first bytes in `temp_buffer`, and how many there are.
unfoldable pub first_bytes : ℕ → Link → Outcome (Option (ℕ × Bytes) × Link)
unfolding append_buffer read_link one_more
first_bytes cap l =
    let temp = replicate cap 0 in
    let held = append_buffer temp l.level_2_buffer (pos 0) 0 l.level_2_size in
    let cleared : Link = record l { level_2_size = 0 } in
    let from_level_2 : Outcome (Option (ℕ × Bytes) × Link) =
      held >>= λ temp'. done (some (l.level_2_size, temp'), cleared) in
    let one_byte_and_read : Outcome (Option (ℕ × Bytes) × Link) =
      held >>= λ temp'. read_link temp' 1 cleared >>= λ r. done (one_more r.0, r.1) in
    if ltb 1 l.level_2_size
    then from_level_2
    else if l.level_2_size == 1
    then one_byte_and_read
    else read_link temp 0 l

-- The loop for a long message.
unfoldable pub read_more : ℕ → ℕ → Bytes → Link → List Bytes → Outcome (ℕ × Link)
unfolding append_buffer
read_more msg got temp l [] = done (0, record l { conn = [] })
read_more msg got temp l (c ∷ cs) = do
  temp' ← copy temp c 0 0 (length c)
  let total = got + length c
  let last : Outcome (ℕ × Link) = do
    level_2 ← append_buffer l.level_2_buffer temp' (pos 0) (msg + 2 - got) (total - (msg + 2))
    buffer ← append_buffer l.read_buffer temp' (sub_ℕ got 2) 0 (msg + 2 - got)
    done (
      msg,
      record {
        read_buffer = buffer;
        level_2_buffer = level_2;
        level_2_size = total - (msg + 2);
        conn = cs;
      },
    )
  let more : Outcome (ℕ × Link) = do
    buffer ← append_buffer l.read_buffer temp' (sub_ℕ got 2) 0 (length c)
    read_more msg total temp' (record l { read_buffer = buffer }) cs
  if leb (msg + 2) total then last else more

-- The size is read as a signed 16-bit number.
unfoldable pub take_message : ℕ → Bytes → Link → Outcome (ℕ × Link)
unfolding append_buffer read_more
take_message size temp l = do
  b0 ← load temp 0
  b1 ← load temp 1
  let msg = b0 * 256 + b1
  let whole : Outcome (ℕ × Link) = do
    buffer ← append_buffer l.read_buffer temp (pos 0) 2 msg
    level_2 ← append_buffer l.level_2_buffer temp (pos 0) (msg + 2) (size - 2 - msg)
    done (
      msg,
      record l { read_buffer = buffer; level_2_buffer = level_2; level_2_size = size - 2 - msg },
    )
  let long : Outcome (ℕ × Link) = do
    buffer ← append_buffer l.read_buffer temp (pos 0) 2 (size - 2)
    read_more msg size temp (record l { read_buffer = buffer }) l.conn
  if leb (2 ^ 15) msg then done (0, l) else if leb (msg + 2) size then whole else long

take_read : Option (ℕ × Bytes) × Link → Outcome (ℕ × Link)
unfolding take_message
take_read (none, l) = done (0, l)
take_read (some (size, temp), l) = take_message size temp l

-- 0 stands for an error too.
unfoldable pub read_data : ℕ → Link → Outcome (ℕ × Link)
unfolding first_bytes take_read
read_data cap l = first_bytes cap l >>= take_read

-- What `sendSlave` and `sendMaster` write: the length as a big-endian word, then the data.
unfoldable pub frame : Bytes → Bytes
frame msg = (length msg / 256 % 256) ∷ (length msg % 256) ∷ msg
