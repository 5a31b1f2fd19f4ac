-- ===== src/Cluster/Framing/Receive.antt =====
-- The loop of `readData` for a message that takes several reads.
use grandma_scheduling_servi.Prelude.{
  ℕ, ◌+◌, ◌-◌, ◌≤◌, ◌<◌, ◌≡◌, refl, sym, ap, ◌∙◌, subst, true, false, List, [], ◌∷◌, ◌++◌, length,
  take, leb, arith, done, All, length-append, append_assoc,
}
use native.Mathlib.Decide.{dec_lt}
use grandma_scheduling_servi.Prelude.Int.{pos, sub_ℕ}
use grandma_scheduling_servi.Prelude.Text.{Bytes}
use grandma_scheduling_servi.Cluster.Framing.{Link, read_more}
use grandma_scheduling_servi.Cluster.Framing.Splice.{
  splice, length-splice, take-splice, copy-front, copy-part, copy-end, cut_long,
}

abbrev pub concat : List Bytes → Bytes
concat [] = []
concat (c ∷ cs) = c ++ concat cs

-- The bytes that have arrived or will, and are not yet part of a message.
abbrev pub pending : Link → Bytes
pending l = take l.level_2_size l.level_2_buffer ++ concat l.conn

-- What a `Read` may return: at least one byte, and no more than fit.
abbrev pub Fits : ℕ → Bytes → Type 0
Fits cap c = (0 < length c) × (length c ≤ cap)

pub record IsLink (cap : ℕ) (l : Link) : Type 0 where
  pub read_fits : length l.read_buffer ≡ cap
  pub level_2_fits : length l.level_2_buffer ≡ cap
  pub size_fits : l.level_2_size ≤ cap
  pub chunks_fit : All (Fits cap) l.conn

-- The message stands in `read_buffer`, and `rest` is what is left.
pub record Received (cap : ℕ) (msg rest : Bytes) (l : Link) : Type 0 where
  pub valid : IsLink cap l
  pub message : take (length msg) l.read_buffer ≡ msg
  pub left : pending l ≡ rest

sub_two : (n m : ℕ) → n ≡ m + 2 → sub_ℕ n 2 ≡ pos m
sub_two n m e = ground arith

-- What is left of a read behind the message goes to the level 2 buffer.
abbrev pub ended : Link → ℕ → Bytes → Bytes → List Bytes → Link
ended l i mid post cs = record {
  read_buffer = splice l.read_buffer i mid;
  level_2_buffer = splice l.level_2_buffer 0 post;
  level_2_size = length post;
  conn = cs;
}

module _ (cap : ℕ) (pre suf temp : Bytes) (l : Link) (msg got : ℕ)
    (em : msg ≡ length pre + length suf) (eg : got ≡ length pre + 2) (small : msg ≤ cap)
    (ht : length temp ≡ cap) (hr : length l.read_buffer ≡ cap)
    (h2 : length l.level_2_buffer ≡ cap) where
  -- The round that ends the message.
  read_more-last :
      (post : Bytes) (cs : List Bytes)
      → length (suf ++ post) ≤ cap
      → read_more msg got temp l ((suf ++ post) ∷ cs) ≡ done (msg, ended l (length pre) suf post cs)
  unfolding read_more
  read_more-last post cs fits =
      let size = length-append suf post in
      let passed : leb (msg + 2) (got + length (suf ++ post)) ≡ true = ground arith in
      let rest : got + length (suf ++ post) - (msg + 2) ≡ length post = omega arith in
      rw (
        copy-front temp (suf ++ post) (omega arith),
        passed,
        copy-end l.level_2_buffer temp suf post 0 (msg + 2 - got)
            (got + length (suf ++ post) - (msg + 2)) (omega arith) (omega arith) (omega arith) rest,
        sub_two got (length pre) eg,
        copy-part l.read_buffer temp [] suf post (length pre) 0 (msg + 2 - got) (omega arith)
            (omega arith) refl (omega arith),
        rest,
      )

  -- A round that does not.
  read_more-more :
      (c : Bytes) (cs : List Bytes)
      → length c ≤ cap
      → length c < length suf
      → read_more msg got temp l (c ∷ cs)
        ≡ read_more msg
            (got + length c)
            (splice temp 0 c)
            (record l { read_buffer = splice l.read_buffer (length pre) c })
            cs
  unfolding read_more
  read_more-more c cs fits short =
      let open_yet : leb (msg + 2) (got + length c) ≡ false = ground arith in
      rw (
        copy-front temp c (omega arith),
        open_yet,
        sub_two got (length pre) eg,
        copy-end l.read_buffer temp [] c (length pre) 0 (length c) (omega arith) (omega arith) refl
            refl,
      )

module _ (cap : ℕ) where
  pub ended-Received :
      (l : Link) (pre suf post : Bytes) (cs : List Bytes)
      → length pre + length suf ≤ cap
      → length post ≤ cap
      → length l.read_buffer ≡ cap
      → length l.level_2_buffer ≡ cap
      → take (length pre) l.read_buffer ≡ pre
      → All (Fits cap) cs
      → Received cap (pre ++ suf) (post ++ concat cs) (ended l (length pre) suf post cs)
  ended-Received l pre suf post cs small short hr h2 front fits = record {
    valid = record {
      read_fits = length-splice l.read_buffer (length pre) suf ∙ hr;
      level_2_fits = length-splice l.level_2_buffer 0 post ∙ h2;
      size_fits = short;
      chunks_fit = fits;
    };
    message =
        take-splice l.read_buffer (length pre) suf (length (pre ++ suf)) (omega arith)
          (length-append pre suf)
        ∙ ap (λ b. b ++ suf) front;
    left =
        ap (λ b. b ++ concat cs)
          (take-splice l.level_2_buffer 0 post (length post) (omega arith) (omega arith));
  }

  -- The loop for a long message reads until the message is whole.
  pub read_more-Received :
      (cs : List Bytes) (pre suf rest temp : Bytes) (l : Link) (msg got : ℕ)
      → msg ≡ length pre + length suf
      → got ≡ length pre + 2
      → 0 < length suf
      → msg ≤ cap
      → length temp ≡ cap
      → length l.read_buffer ≡ cap
      → length l.level_2_buffer ≡ cap
      → take (length pre) l.read_buffer ≡ pre
      → All (Fits cap) cs
      → concat cs ≡ suf ++ rest
      → (l' : Link) × (read_more msg got temp l cs ≡ done (msg, l'))
        × Received cap (pre ++ suf) rest l'
  read_more-Received [] pre [] rest temp l msg got em eg left small ht hr h2 front fits e =
      absurd (omega arith)
  read_more-Received [] pre (x ∷ suf) rest temp l msg got em eg left small ht hr h2 front fits e =
      absurd (cc)
  read_more-Received (c ∷ cs) pre suf rest temp l msg got em eg left small ht hr h2 front fits e =
      elim (dec_lt (length c) (length suf)) [
        | no long ↦
            let (post, ec, er) = cut_long c (concat cs) suf rest e (omega arith) in
            (
              ended l (length pre) suf post cs,
              ap (λ b. read_more msg got temp l (b ∷ cs)) ec
                  ∙ read_more-last cap pre suf temp l msg got em eg small ht hr h2 post cs
                      (rw (← ec) fits.0.1),
              rw er (
                  ended-Received l pre suf post cs (omega arith)
                    (omega (arith, ap length ec, length-append suf post, fits.0.1)) hr h2 front
                    fits.1),
            )
        | yes short ↦
            let (more, es, en) = cut_long suf rest c (concat cs) (sym e) (omega arith) in
            let l1 : Link = record l { read_buffer = splice l.read_buffer (length pre) c } in
            let size = length-append pre c in
            let size' = ap length es ∙ length-append c more in
            let (l', ran, r) =
              read_more-Received cs (pre ++ c) more rest (splice temp 0 c) l1 msg (got + length c)
                (omega arith) (omega arith) (omega arith) small (length-splice temp 0 c ∙ ht)
                (length-splice l.read_buffer (length pre) c ∙ hr) h2
                (take-splice l.read_buffer (length pre) c (length (pre ++ c)) (omega arith) size
                  ∙ ap (λ b. b ++ c) front)
                fits.1 en in
            (
              l',
              read_more-more cap pre suf temp l msg got em eg small ht hr h2 c cs fits.0.1 short
                  ∙ ran,
              subst (λ b. Received cap b rest l')
                  (append_assoc pre c more ∙ ap (λ b. pre ++ b) (sym es)) r,
            )
      ]
