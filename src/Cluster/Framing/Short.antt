-- ===== src/Cluster/Framing/Short.antt =====
-- What `readData` does when the first read brings a single byte.
use grandma_scheduling_servi.Prelude.{
  ℕ, zero, suc, ◌+◌, ◌-◌, ◌*◌, ◌^◌, ◌≤◌, ◌<◌, ◌≡◌, refl, ◌∙◌, subst, inl, inr, false, List, [], ◌∷◌,
  length, replicate, ◌==◌, ltb, leb, arith, done, panic, All, Bool-cases, length-replicate, some,
  load,
}
use grandma_scheduling_servi.Prelude.Text.{Bytes}
use grandma_scheduling_servi.Cluster.Framing.{Link, first_bytes, take_message, read_more, read_data}
use grandma_scheduling_servi.Cluster.Framing.Splice.{splice, copy-front, copy-splice, length-splice}
use grandma_scheduling_servi.Cluster.Framing.Receive.{IsLink, Fits}

-- The second byte of `temp_buffer` is still 0.
header_of_one :
    (cap b : ℕ)
    → 2 ≤ cap
    → (load (splice (replicate cap 0) 0 (b ∷ [])) 0 ≡ done b)
      × (load (splice (replicate cap 0) 0 (b ∷ [])) 1 ≡ done 0)
header_of_one zero b h = absurd (omega arith)
header_of_one (suc zero) b h = absurd (omega arith)
header_of_one (suc (suc n)) b h = unfold splice in (refl, refl)

module _ (cap : ℕ) where
  read_more-panic :
      (l : Link) (msg : ℕ) (temp c : Bytes) (cs : List Bytes)
      → length l.level_2_buffer ≡ cap
      → length temp ≡ cap
      → Fits cap c
      → read_more msg 1 temp l (c ∷ cs) ≡ panic
  unfolding read_more
  read_more-panic l msg temp c cs h2 ht fits =
      let front = copy-front temp c (omega arith) in
      let some_bytes : (length c == 0) ≡ false = ground arith in
      let more_bytes : (msg + 2 - 1 == 0) ≡ false = ground arith in
      elim (Bool-cases (leb (msg + 2) (1 + length c))) [
        | inl last ↦ rw (
          front,
          last,
          copy-splice l.level_2_buffer (splice temp 0 c) 0 (msg + 2 - 1) (1 + length c - (msg + 2))
              (omega (arith, h2)) (ground (arith, length-splice temp 0 c)),
          more_bytes,
        )
        | inr open_yet ↦ rw (front, open_yet, some_bytes)
      ]

  after_one :
      (l : Link) (b : ℕ) (temp : Bytes)
      → b < 128
      → load temp 0 ≡ done b
      → load temp 1 ≡ done 0
      → read_more (b * 256 + 0) 1 temp l l.conn ≡ panic
      → take_message 1 temp l ≡ panic
  unfolding take_message
  after_one l b temp low h0 h1 stuck =
      let signed : leb (2 ^ 15) (b * 256 + 0) ≡ false = ground arith in
      let long : leb (b * 256 + 0 + 2) 1 ≡ false = ground arith in rw (h0, h1, signed, long) stuck

  -- A node whose level 2 buffer is empty, and whose next `Read` brings one byte alone, panics at the
  -- read after that: the index at which it goes on is -1. (A byte of 128 or more reads as a negative
  -- length, which gives 0.)
  pub read_data-panic :
      (l : Link) (b : ℕ) (c : Bytes) (cs : List Bytes)
      → IsLink cap l
      → l.level_2_size ≡ 0
      → l.conn ≡ (b ∷ []) ∷ c ∷ cs
      → b < 128
      → 2 ≤ cap
      → read_data cap l ≡ panic
  read_data-panic l b c cs v e ec low room =
      let few : ltb 1 l.level_2_size ≡ false = ground arith in
      let nothing : (l.level_2_size == 1) ≡ false = ground arith in
      let temp : Bytes = splice (replicate cap 0) 0 (b ∷ []) in
      let size = length-replicate {A = ℕ} cap 0 in
      let l1 : Link = record l { conn = c ∷ cs } in
      let first : first_bytes cap l ≡ done (some (1, temp), l1) =
        unfold first_bytes in
        rw (few, nothing, ec, copy-front (replicate cap 0) (b ∷ []) (omega arith)) in
      let chunks : All (Fits cap) ((b ∷ []) ∷ c ∷ cs) = subst (All (Fits cap)) ec v.chunks_fit in
      let stuck =
        read_more-panic l1 (b * 256 + 0) temp c cs v.level_2_fits
          (length-splice (replicate cap 0) 0 (b ∷ []) ∙ size) chunks.1.0 in
      let header = header_of_one cap b room in
      unfold read_data in rw first (after_one l1 b temp low header.0 header.1 stuck)
