-- ===== src/Cluster/Framing/Kept.antt =====
-- What is true of each chunk that is still to come stays true: `readData` takes chunks off the front.
use grandma_scheduling_servi.Prelude.{
  ℕ, ◌+◌, ◌-◌, ◌*◌, ◌^◌, ◌≡◌, refl, subst, Bool, true, false, List, [], ◌∷◌, Option, none, some,
  if◌then◌else◌, ltb, leb, ◌==◌, length, replicate, load, All, Outcome, done, panic, blocked, ◌>>=◌,
}
use grandma_scheduling_servi.Prelude.Int.{pos, sub_ℕ}
use grandma_scheduling_servi.Prelude.Text.{Bytes}
use grandma_scheduling_servi.Cluster.Framing.{
  Link, copy, append_buffer, read, read_link, first_bytes, read_more, take_message, take_read,
  read_data,
}

module _ (P : Bytes → Type 0) where
  -- Whatever an outcome has read, the chunks behind it satisfy `P`.
  abbrev Keeps : {A : Type 0} → Outcome (A × Link) → Type 0
  Keeps (done (a, l)) = All P l.conn
  Keeps panic = Unit
  Keeps blocked = Unit

  Keeps-bind :
      {A B : Type 0} (o : Outcome A) (k : A → Outcome (B × Link))
      → ((a : A) → Keeps (k a))
      → Keeps (o >>= k)
  Keeps-bind (done a) k h = h a
  Keeps-bind panic k h = tt
  Keeps-bind blocked k h = tt

  Keeps-then :
      {A B : Type 0} (o : Outcome (A × Link)) (k : A × Link → Outcome (B × Link))
      → Keeps o
      → ((a : A) (l : Link) → All P l.conn → Keeps (k (a, l)))
      → Keeps (o >>= k)
  Keeps-then (done (a, l)) k ho h = h a l ho
  Keeps-then panic k ho h = tt
  Keeps-then blocked k ho h = tt

  Keeps-if :
      {A : Type 0} (b : Bool) (x y : Outcome (A × Link))
      → Keeps x
      → Keeps y
      → Keeps (if b then x else y)
  Keeps-if true x y hx hy = hx
  Keeps-if false x y hx hy = hy

  read_more-Keeps :
      (cs : List Bytes) (msg got : ℕ) (temp : Bytes) (l : Link)
      → All P cs
      → Keeps (read_more msg got temp l cs)
  unfolding read_more
  read_more-Keeps [] msg got temp l h = tt
  read_more-Keeps (c ∷ cs) msg got temp l h = Keeps-bind (copy temp c 0 0 (length c)) _ (λ temp'.
      Keeps-if (leb (msg + 2) (got + length c)) _ _
        (Keeps-bind
          (append_buffer l.level_2_buffer temp' (pos 0) (msg + 2 - got)
            (got + length c - (msg + 2)))
          _
          (λ level_2.
            Keeps-bind (append_buffer l.read_buffer temp' (sub_ℕ got 2) 0 (msg + 2 - got)) _
              (λ buffer. h.1)))
        (Keeps-bind (append_buffer l.read_buffer temp' (sub_ℕ got 2) 0 (length c)) _ (λ buffer.
          read_more-Keeps cs msg (got + length c) temp' (record l { read_buffer = buffer }) h.1)))

  take_message-Keeps :
      (size : ℕ) (temp : Bytes) (l : Link) → All P l.conn → Keeps (take_message size temp l)
  unfolding take_message
  take_message-Keeps size temp l h = Keeps-bind (load temp 0) _ (λ b0.
      Keeps-bind (load temp 1) _ (λ b1.
        let msg = b0 * 256 + b1 in
        Keeps-if (leb (2 ^ 15) msg) _ _ h (
          Keeps-if (leb (msg + 2) size) _ _
            (Keeps-bind (append_buffer l.read_buffer temp (pos 0) 2 msg) _ (λ buffer.
              Keeps-bind (append_buffer l.level_2_buffer temp (pos 0) (msg + 2) (size - 2 - msg)) _
                (λ level_2. h)))
            (Keeps-bind (append_buffer l.read_buffer temp (pos 0) 2 (size - 2)) _ (λ buffer.
              read_more-Keeps l.conn msg size temp (record l { read_buffer = buffer }) h)))))

  abbrev read_of : Bytes → Bytes → List Bytes → Outcome (Option (ℕ × Bytes) × List Bytes)
  read_of c b cs = done (some (length c, b), cs)

  abbrev onward :
      Link → Outcome (Option (ℕ × Bytes) × List Bytes) → Outcome (Option (ℕ × Bytes) × Link)
  onward l o = o >>= λ x. done (x.0, record l { conn = x.1 })

  copied-Keeps :
      (o : Outcome Bytes) (l : Link) (c : Bytes) (cs : List Bytes)
      → All P cs
      → Keeps (onward l (o >>= λ b. read_of c b cs))
  copied-Keeps (done b) l c cs h = h
  copied-Keeps panic l c cs h = tt
  copied-Keeps blocked l c cs h = tt

  read_link-Keeps :
      (cs : List Bytes) (temp : Bytes) (off : ℕ) (l : Link)
      → l.conn ≡ cs
      → All P cs
      → Keeps (read_link temp off l)
  unfolding read_link read
  read_link-Keeps [] temp off l e h = rw (e, read) tt
  read_link-Keeps (c ∷ cs) temp off l e h =
      rw (e, read) (copied-Keeps (copy temp c off 0 (length c)) l c cs h.1)

  taken-Keeps : (r : Option (ℕ × Bytes)) (l : Link) → All P l.conn → Keeps (take_read (r, l))
  unfolding take_read
  taken-Keeps none l h = h
  taken-Keeps (some (size, temp)) l h = take_message-Keeps size temp l h

  first_bytes-Keeps : (cap : ℕ) (l : Link) → All P l.conn → Keeps (first_bytes cap l)
  unfolding first_bytes
  first_bytes-Keeps cap l h =
      let held = append_buffer (replicate cap 0) l.level_2_buffer (pos 0) 0 l.level_2_size in
      let cleared : Link = record l { level_2_size = 0 } in
      Keeps-if (ltb 1 l.level_2_size) _ _ (Keeps-bind held _ (λ temp'. h)) (
        Keeps-if (l.level_2_size == 1) _ _
          (Keeps-bind held _ (λ temp'.
            Keeps-then (read_link temp' 1 cleared) _ (read_link-Keeps l.conn temp' 1 cleared refl h)
              (λ r l'. λ k. k)))
          (read_link-Keeps l.conn (replicate cap 0) 0 l refl h))

  -- Chunks that all satisfy `P` still do behind `readData`.
  pub read_data-All :
      (cap size : ℕ) (l l' : Link)
      → All P l.conn
      → read_data cap l ≡ done (size, l')
      → All P l'.conn
  unfolding read_data
  read_data-All cap size l l' h e =
      subst Keeps e
        (Keeps-then (first_bytes cap l) take_read (first_bytes-Keeps cap l h) taken-Keeps)
