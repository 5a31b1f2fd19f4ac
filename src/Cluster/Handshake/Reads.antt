-- ===== src/Cluster/Handshake/Reads.antt =====
-- `readAndCheckTimeOut` on what comes in at once: up to 64 bytes are returned, more end the program.
use grandma_scheduling_servi.Prelude.{
  ℕ, zero, suc, ◌+◌, ◌≤◌, ◌<◌, ◌≡◌, refl, sym, ap, ◌∙◌, false, inl, inr, Bool-cases, [], ◌∷◌,
  length, set, get_or, replicate, length-set, length-replicate, ltb, done, panic, load-get_or, ◌==◌,
  arith,
}
use native.Mathlib.Decide.{dec_lt}
use grandma_scheduling_servi.Prelude.Text.{Bytes}
use grandma_scheduling_servi.Cluster.Framing.{copy, append_buffer}
use grandma_scheduling_servi.Cluster.Framing.Splice.{
  splice, length-splice, take-splice, copy-suc, copy-front, copy-end,
}
use grandma_scheduling_servi.Cluster.Handshake.{
  Arrival, bytes, broken, silence, got, read_and_check_time_out,
}

abbrev zeros : ℕ → Bytes
zeros n = replicate n 0

-- A copy that runs out of its destination.
copy-panic :
    (n : ℕ) (dst src : Bytes) (i j : ℕ)
    → j + n ≤ length src
    → i ≤ length dst
    → length dst < i + n
    → copy dst src i j n ≡ panic
unfolding copy
copy-panic zero dst src i j hs lo hi = absurd (omega arith)
copy-panic (suc n) dst src i j hs lo hi = elim (Bool-cases (ltb i (length dst))) [
  | inl room ↦
      let v = get_or src j 0 in
      copy-suc dst src i j n (ground arith) (omega arith)
      ∙ copy-panic n (set dst i v) src (suc i) (suc j) (omega arith)
          (ground (arith, length-set dst i v)) (omega (arith, length-set dst i v))
  | inr no_room ↦ rw (load-get_or src j 0 (omega arith), no_room)
]

temp_read :
    (b : Bytes) → length b ≤ 512 → copy (zeros 512) b 0 0 (length b) ≡ done (splice (zeros 512) 0 b)
temp_read b fits = copy-front (zeros 512) b (omega (arith, length-replicate {A = ℕ} 512 0, fits))

module _ (b : Bytes) where
  pub read_and_check_time_out-got :
      0 < length b → length b ≤ 64 → read_and_check_time_out (bytes b) ≡ done (got b)
  unfolding read_and_check_time_out append_buffer
  read_and_check_time_out-got some_bytes fits =
      let size = length-replicate {A = ℕ} 512 0 in
      let size' = length-replicate {A = ℕ} 64 0 in
      let nonzero : (length b == 0) ≡ false = ground arith in
      rw (
        temp_read b (omega arith),
        copy-end (zeros 64) (zeros 512) [] b 0 0 (length b) (omega (arith, size, fits))
            (omega (arith, size', fits)) refl refl,
        nonzero,
        take-splice (zeros 64) 0 b (length b) (omega (arith, size', fits)) (omega arith),
      )

  -- More than 64 bytes panic, whatever they are.
  pub read_and_check_time_out-panic : 64 < length b → read_and_check_time_out (bytes b) ≡ panic
  unfolding read_and_check_time_out append_buffer
  read_and_check_time_out-panic many =
      let size = length-replicate {A = ℕ} 512 0 in
      let size' = length-replicate {A = ℕ} 64 0 in
      elim (dec_lt 512 (length b)) [
        | yes more ↦ rw (
            copy-panic (length b) (zeros 512) b 0 0 (omega arith) (omega arith)
              (omega (arith, size, more)))
        | no fits ↦ rw (
          temp_read b (omega arith),
          copy-panic (length b) (zeros 64) (splice (zeros 512) 0 b) 0 0
              (omega (arith, fits, size, length-splice (zeros 512) 0 b)) (omega arith)
              (omega (arith, size', many)),
        )
      ]

-- What is got is what came.
pub got-bytes : (a : Arrival) (d : Bytes) → read_and_check_time_out a ≡ done (got d) → a ≡ bytes d
got-bytes silence d h = absurd (unfold read_and_check_time_out in cc)
got-bytes broken d h = absurd (unfold read_and_check_time_out in cc)
got-bytes (bytes []) d h = absurd (unfold read_and_check_time_out in cc)
got-bytes (bytes (c ∷ b)) d h = elim (dec_lt 64 (length (c ∷ b))) [
  | yes many ↦ absurd (panics (sym (read_and_check_time_out-panic (c ∷ b) many) ∙ h))
  | no few ↦
      ap bytes
        (same (c ∷ b) (sym (read_and_check_time_out-got (c ∷ b) (omega arith) (omega arith)) ∙ h))
]
  where
    panics : panic ≡ done (got d) → ⊥
    panics e = cc

    same : (x : Bytes) → done (got x) ≡ done (got d) → x ≡ d
    same x e = cc
