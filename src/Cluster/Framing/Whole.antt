-- ===== src/Cluster/Framing/Whole.antt =====
-- `readData` behind the first bytes of a message.
use grandma_scheduling_servi.Prelude.{
  ℕ, ◌+◌, ◌-◌, ◌*◌, ◌^◌, ◌≤◌, ◌<◌, ◌≡◌, refl, sym, ap, ◌∙◌, subst, true, false, [], ◌∷◌, ◌++◌,
  length, leb, arith, done, All, length-append,
}
use native.Mathlib.Decide.{dec_lt}
use grandma_scheduling_servi.Prelude.Text.{Bytes}
use grandma_scheduling_servi.Cluster.Framing.{Link, read_more, take_message}
use grandma_scheduling_servi.Cluster.Framing.Splice.{
  splice, length-splice, take-splice, load_header, copy-part, copy-end, cut_long,
}
use grandma_scheduling_servi.Cluster.Framing.Receive.{
  concat, Fits, Received, ended, ended-Received, read_more-Received,
}

-- A message whose length stands before it, in buffers of `cap` bytes.
pub record IsFramed (cap : ℕ) (msg : Bytes) (hi lo : ℕ) : Type 0 where
  pub length_read : hi * 256 + lo ≡ length msg
  pub fits : length msg ≤ cap
  pub positive : length msg < 2 ^ 15

module _ (cap : ℕ) (dst : Bytes) (hi lo : ℕ) (l : Link) (hd : length dst ≡ cap)
    (hr : length l.read_buffer ≡ cap) (h2 : length l.level_2_buffer ≡ cap) where
  take_message-whole :
      (msg post : Bytes)
      → IsFramed cap msg hi lo
      → length (hi ∷ lo ∷ (msg ++ post)) ≤ cap
      → take_message (length (hi ∷ lo ∷ (msg ++ post))) (splice dst 0 (hi ∷ lo ∷ (msg ++ post))) l
        ≡ done (length msg, ended l 0 msg post l.conn)
  unfolding take_message
  take_message-whole msg post f fits =
      let size = length-append msg post in
      let header = load_header dst (msg ++ post) hi lo (omega arith) in
      let signed : leb (2 ^ 15) (length msg) ≡ false = ground (arith, f.positive) in
      let whole : leb (length msg + 2) (length (hi ∷ lo ∷ (msg ++ post))) ≡ true = ground arith in
      let rest : length (hi ∷ lo ∷ (msg ++ post)) - 2 - length msg ≡ length post = omega arith in
      rw (header.0, header.1, f.length_read, signed, whole)
        (rw (
          copy-part l.read_buffer dst (hi ∷ lo ∷ []) msg post 0 2 (length msg) (omega arith)
              (omega (arith, f.fits)) refl refl,
          copy-end l.level_2_buffer dst (hi ∷ lo ∷ msg) post 0 (length msg + 2)
              (length (hi ∷ lo ∷ (msg ++ post)) - 2 - length msg) (omega arith) (omega arith)
              (omega arith) rest,
          rest,
        ))

  take_message-long :
      (body suf : Bytes)
      → IsFramed cap (body ++ suf) hi lo
      → length (hi ∷ lo ∷ body) ≤ cap
      → 0 < length suf
      → take_message (length (hi ∷ lo ∷ body)) (splice dst 0 (hi ∷ lo ∷ body)) l
        ≡ read_more
            (length (body ++ suf))
            (length (hi ∷ lo ∷ body))
            (splice dst 0 (hi ∷ lo ∷ body))
            (record l { read_buffer = splice l.read_buffer 0 body })
            l.conn
  unfolding take_message
  take_message-long body suf f fits more =
      let size = length-append body suf in
      let header = load_header dst body hi lo (omega arith) in
      let signed : leb (2 ^ 15) (length (body ++ suf)) ≡ false = ground (arith, f.positive) in
      let long : leb (length (body ++ suf) + 2) (length (hi ∷ lo ∷ body)) ≡ false = ground arith in
      rw (header.0, header.1, f.length_read, signed, long)
        (rw (
          copy-end l.read_buffer dst (hi ∷ lo ∷ []) body 0 2 (length (hi ∷ lo ∷ body) - 2)
            (omega arith) (omega arith) refl (omega arith)))

module _ (cap : ℕ) where
  -- From the first bytes on, `readData` gives the message, whether they hold all of it or not.
  pub take_message-Received :
      (dst body msg rest : Bytes) (hi lo : ℕ) (l : Link)
      → IsFramed cap msg hi lo
      → length (hi ∷ lo ∷ body) ≤ cap
      → length dst ≡ cap
      → length l.read_buffer ≡ cap
      → length l.level_2_buffer ≡ cap
      → All (Fits cap) l.conn
      → body ++ concat l.conn ≡ msg ++ rest
      → (l' : Link) × (take_message (length (hi ∷ lo ∷ body)) (splice dst 0 (hi ∷ lo ∷ body)) l
          ≡ done (length msg, l'))
        × Received cap msg rest l'
  take_message-Received dst body msg rest hi lo l f fits hd hr h2 chunks e =
      elim (dec_lt (length body) (length msg)) [
        | no whole ↦
            let (post, eb, er) = cut_long body (concat l.conn) msg rest e (omega arith) in
            (
              ended l 0 msg post l.conn,
              ap (λ b. take_message (length (hi ∷ lo ∷ b)) (splice dst 0 (hi ∷ lo ∷ b)) l) eb
                  ∙ take_message-whole cap dst hi lo l hd hr h2 msg post f
                      (subst (λ b. length (hi ∷ lo ∷ b) ≤ cap) eb fits),
              rw er (
                  ended-Received cap l [] msg post l.conn (omega (arith, f.fits))
                    (omega (arith, ap length eb, length-append msg post)) hr h2 refl chunks),
            )
        | yes long ↦
            let (suf, em, ec) = cut_long msg rest body (concat l.conn) (sym e) (omega arith) in
            let l1 : Link = record l { read_buffer = splice l.read_buffer 0 body } in
            let f' : IsFramed cap (body ++ suf) hi lo = subst (λ b. IsFramed cap b hi lo) em f in
            let size = length-append body suf in
            let (l', ran, r) =
              read_more-Received cap l.conn body suf rest (splice dst 0 (hi ∷ lo ∷ body)) l1
                (length (body ++ suf)) (length (hi ∷ lo ∷ body)) size (omega arith)
                (omega (arith, ap length em, size)) f'.fits (length-splice dst 0 _ ∙ hd)
                (length-splice l.read_buffer 0 body ∙ hr) h2
                (take-splice l.read_buffer 0 body (length body) (omega arith) (omega arith)) chunks
                ec in
            (
              l',
              take_message-long cap dst hi lo l hd hr h2 body suf f' fits
                    (omega (arith, ap length em, size))
                  ∙ ran
                  ∙ ap (λ b. done (length b, l')) (sym em),
              subst (λ b. Received cap b rest l') (sym em) r,
            )
      ]
