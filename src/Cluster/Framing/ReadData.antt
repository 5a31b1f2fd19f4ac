-- ===== src/Cluster/Framing/ReadData.antt =====
-- `readData` gives back what the other side has framed, however the stream is cut into reads.
use grandma_scheduling_servi.Prelude.{
  ℕ, zero, suc, ◌+◌, ◌/◌, ◌%◌, ◌^◌, ◌≤◌, ◌<◌, ◌≡◌, refl, ap, ◌∙◌, subst, true, false, List, [], ◌∷◌,
  ◌++◌, length, take, replicate, ◌==◌, length-replicate, some, ltb, arith, done, All, length-append,
  append_assoc,
}
use grandma_scheduling_servi.Prelude.Text.{Bytes}
use grandma_scheduling_servi.Cluster.Framing.{
  Link, copy, first_bytes, take_message, read_data, frame,
}
use grandma_scheduling_servi.Cluster.Framing.Splice.{
  splice, copy-front, splice-splice, copy-behind, copy-splice, length-take, length-splice,
  copy-front,
}
use grandma_scheduling_servi.Cluster.Framing.Receive.{concat, pending, Fits, IsLink, Received}
use grandma_scheduling_servi.Cluster.Framing.Whole.{IsFramed, take_message-Received}

-- How many bytes the next `Read` returns, 0 for an error.
abbrev pub next_read : List Bytes → ℕ
next_read [] = 0
next_read (c ∷ cs) = length c

-- With an empty level 2 buffer the next `Read` brings the two bytes of the length; and `Read` keeps
-- within `temp_buffer[1:]`, where it is called with that.
pub record IsReady (cap : ℕ) (l : Link) : Type 0 where
  pub two_bytes : l.level_2_size ≡ 0 → 2 ≤ next_read l.conn
  pub room : l.level_2_size ≡ 1 → next_read l.conn + 1 ≤ cap

-- The first bytes that `readData` looks at, and the node behind them.
record Begun (cap : ℕ) (l : Link) (bytes : Bytes) (l1 : Link) : Type 0 where
  ran : first_bytes cap l ≡ done (some (length bytes, splice (replicate cap 0) 0 bytes), l1)
  enough : 2 ≤ length bytes
  fits : length bytes ≤ cap
  same : bytes ++ concat l1.conn ≡ pending l
  read_kept : length l1.read_buffer ≡ cap
  level_2_kept : length l1.level_2_buffer ≡ cap
  chunks : All (Fits cap) l1.conn

take_one : (xs : Bytes) → 0 < length xs → (x : ℕ) × (take 1 xs ≡ x ∷ [])
take_one [] h = absurd (omega arith)
take_one (x ∷ xs) h = (x, refl)

module _ (cap : ℕ) (l : Link) (v : IsLink cap l) where
  held :
      copy (replicate cap 0) l.level_2_buffer 0 0 l.level_2_size
      ≡ done (splice (replicate cap 0) 0 (take l.level_2_size l.level_2_buffer))
  held =
      copy-splice (replicate cap 0) l.level_2_buffer 0 0 l.level_2_size
        (omega (arith, length-replicate {A = ℕ} cap 0, v.size_fits))
        (omega (arith, v.level_2_fits, v.size_fits))

  first_of_level_2 :
      2 ≤ l.level_2_size
      → Begun cap l (take l.level_2_size l.level_2_buffer) (record l { level_2_size = 0 })
  first_of_level_2 h =
      let size =
        length-take l.level_2_size l.level_2_buffer (omega (arith, v.level_2_fits, v.size_fits)) in
      let many : ltb 1 l.level_2_size ≡ true = ground arith in
      record {
        ran = unfold first_bytes in rw (many, held, size);
        enough = omega arith;
        fits = omega (arith, v.size_fits);
        same = refl;
        read_kept = v.read_fits;
        level_2_kept = v.level_2_fits;
        chunks = v.chunks_fit;
      }

  first_of_read :
      (c : Bytes) (cs : List Bytes)
      → l.level_2_size ≡ 0
      → l.conn ≡ c ∷ cs
      → 2 ≤ length c
      → Begun cap l c (record l { conn = cs })
  first_of_read c cs e ec two =
      let few : ltb 1 l.level_2_size ≡ false = ground arith in
      let nothing : (l.level_2_size == 1) ≡ false = ground arith in
      let chunks : All (Fits cap) (c ∷ cs) = subst (All (Fits cap)) ec v.chunks_fit in
      let room = length-replicate {A = ℕ} cap 0 in
      record {
        ran =
            unfold first_bytes in
            rw (few, nothing, ec, copy-front (replicate cap 0) c (omega arith));
        enough = two;
        fits = chunks.0.1;
        same = rw (e, ec);
        read_kept = v.read_fits;
        level_2_kept = v.level_2_fits;
        chunks = chunks.1;
      }

  first_of_both :
      (c : Bytes) (cs : List Bytes)
      → l.level_2_size ≡ 1
      → l.conn ≡ c ∷ cs
      → length c + 1 ≤ cap
      → Begun cap l (take 1 l.level_2_buffer ++ c) (record l { level_2_size = 0; conn = cs })
  first_of_both c cs e ec room =
      let few : ltb 1 l.level_2_size ≡ false = ground arith in
      let one : (l.level_2_size == 1) ≡ true = ground arith in
      let chunks : All (Fits cap) (c ∷ cs) = subst (All (Fits cap)) ec v.chunks_fit in
      let (x, ex) = take_one l.level_2_buffer (omega (arith, v.level_2_fits)) in
      let zeros : Bytes = replicate cap 0 in
      let size = length-replicate {A = ℕ} cap 0 in
      let start : copy zeros l.level_2_buffer 0 0 l.level_2_size ≡ done (splice zeros 0 (x ∷ [])) =
        held
        ∙ ap (λ n. done (splice zeros 0 (take n l.level_2_buffer))) e
        ∙ ap (λ b. done (splice zeros 0 b)) ex in
      let behind =
        copy-behind (splice zeros 0 (x ∷ [])) c (omega (arith, length-splice zeros 0 (x ∷ []))) in
      record {
        ran =
            unfold first_bytes in
            rw (few, one, start, ec)
              (rw (behind, ex, splice-splice zeros c x)
                (ap
                  (λ n.
                    done
                      (some (n, splice zeros 0 (x ∷ c)), record l { level_2_size = 0; conn = cs }))
                  (omega arith)));
        enough = rw ex (omega (arith, chunks.0.0));
        fits = rw ex (omega arith);
        same = rw (e, ec) (append_assoc (take 1 l.level_2_buffer) c (concat cs));
        read_kept = v.read_fits;
        level_2_kept = v.level_2_fits;
        chunks = chunks.1;
      }

-- A node whose pending bytes are long enough, and that is ready, gets its first bytes.
first_bytes-Begun :
    (cap : ℕ) (l : Link)
    → IsLink cap l
    → IsReady cap l
    → 2 ≤ length (pending l)
    → (bytes : Bytes) × (l1 : Link) × Begun cap l bytes l1
first_bytes-Begun cap l v r two = by_size l.level_2_size l.conn refl refl
  where
    short : l.level_2_size ≡ 1 → l.conn ≡ [] → ⊥
    short e ec =
        let size = length-append (take l.level_2_size l.level_2_buffer) (concat l.conn) in
        omega (
          arith,
          size,
          ap (λ cs. length (concat cs)) ec,
          length-take l.level_2_size l.level_2_buffer (omega (arith, v.level_2_fits, v.size_fits)),
        )

    by_size :
        (n : ℕ) (cs : List Bytes)
        → l.level_2_size ≡ n
        → l.conn ≡ cs
        → (bytes : Bytes) × (l1 : Link) × Begun cap l bytes l1
    by_size zero [] e ec = absurd (omega (arith, r.two_bytes e, ap next_read ec))
    by_size zero (c ∷ cs) e ec = (
      c,
      record l { conn = cs },
      first_of_read cap l v c cs e ec (omega (arith, r.two_bytes e, ap next_read ec)),
    )
    by_size (suc zero) [] e ec = absurd (short e ec)
    by_size (suc zero) (c ∷ cs) e ec = (
      take 1 l.level_2_buffer ++ c,
      record l { level_2_size = 0; conn = cs },
      first_of_both cap l v c cs e ec (omega (arith, r.room e, ap next_read ec)),
    )
    by_size (suc (suc n)) cs e ec = (
      take l.level_2_size l.level_2_buffer,
      record l { level_2_size = 0 },
      first_of_level_2 cap l v (omega arith),
    )

frame-IsFramed :
    (cap : ℕ) (msg : Bytes)
    → length msg ≤ cap
    → length msg < 2 ^ 15
    → IsFramed cap msg (length msg / 256 % 256) (length msg % 256)
frame-IsFramed cap msg fits small = record {
  length_read = omega arith;
  fits = fits;
  positive = small;
}

pub framed_length : (msg rest : Bytes) → 2 ≤ length (frame msg ++ rest)
unfolding frame
framed_length msg rest = omega arith

behind_first :
    (cap : ℕ) (l l1 : Link) (bytes msg rest : Bytes)
    → Begun cap l bytes l1
    → length msg ≤ cap
    → length msg < 2 ^ 15
    → pending l ≡ frame msg ++ rest
    → (l' : Link) × (take_message (length bytes) (splice (replicate cap 0) 0 bytes) l1
        ≡ done (length msg, l'))
      × Received cap msg rest l'
unfolding frame
behind_first cap l l1 [] msg rest f fits small e = absurd (omega (arith, f.enough))
behind_first cap l l1 (b ∷ []) msg rest f fits small e = absurd (omega (arith, f.enough))
behind_first cap l l1 (hi ∷ lo ∷ body) msg rest f fits small e =
    let split = f.same ∙ e in
    let hi_read : hi ≡ length msg / 256 % 256 = cc in
    let lo_read : lo ≡ length msg % 256 = cc in
    let framed : IsFramed cap msg hi lo =
      rw (hi_read, lo_read) (frame-IsFramed cap msg fits small) in
    take_message-Received cap (replicate cap 0) body msg rest hi lo l1 framed f.fits
      (length-replicate {A = ℕ} cap 0) f.read_kept f.level_2_kept f.chunks (cc)

-- `readData` on a node that is ready, and whose pending bytes begin with a framed message that fits
-- the buffers, returns the length of that message with the message in `read_buffer`, and leaves
-- pending exactly the bytes behind it, however they were cut into reads.
pub read_data-Received :
    (cap : ℕ) (l : Link) (msg rest : Bytes)
    → IsLink cap l
    → IsReady cap l
    → length msg ≤ cap
    → length msg < 2 ^ 15
    → pending l ≡ frame msg ++ rest
    → (l' : Link) × (read_data cap l ≡ done (length msg, l')) × Received cap msg rest l'
unfolding read_data
read_data-Received cap l msg rest v r fits small e =
    let long_enough = framed_length msg rest in
    let (bytes, l1, f) = first_bytes-Begun cap l v r (omega (arith, ap length e, long_enough)) in
    let (l', ran, d) = behind_first cap l l1 bytes msg rest f fits small e in (l', rw f.ran ran, d)
