-- ===== src/Cluster/Framing/Splice.antt =====
-- Lemmas on copying between buffers.
use grandma_scheduling_servi.Prelude.{
  ℕ, zero, suc, ◌+◌, ◌-◌, ◌≤◌, ◌<◌, ◌≡◌, refl, sym, ap, ◌∙◌, [], ◌∷◌, ◌++◌, length, take, drop, set,
  arith, get_or, done, load, load-get_or, store, length-append, append-nil, length-set,
}
use grandma_scheduling_servi.Prelude.Text.{Bytes}
use grandma_scheduling_servi.Cluster.Framing.{copy}

pub take-append_self : (xs ys : Bytes) (n : ℕ) → n ≡ length xs → take n (xs ++ ys) ≡ xs
take-append_self [] ys zero e = refl
take-append_self [] ys (suc n) e = absurd (omega arith)
take-append_self (x ∷ xs) ys zero e = absurd (omega arith)
take-append_self (x ∷ xs) ys (suc n) e = ap (λ l. x ∷ l) (take-append_self xs ys n (omega arith))

pub drop-append_self : (xs ys : Bytes) (n : ℕ) → n ≡ length xs → drop n (xs ++ ys) ≡ ys
drop-append_self [] ys zero e = refl
drop-append_self [] ys (suc n) e = absurd (omega arith)
drop-append_self (x ∷ xs) ys zero e = absurd (omega arith)
drop-append_self (x ∷ xs) ys (suc n) e = drop-append_self xs ys n (omega arith)

pub length-drop : (n : ℕ) (xs : Bytes) → length (drop n xs) ≡ length xs - n
length-drop zero xs = omega arith
length-drop (suc n) [] = omega arith
length-drop (suc n) (x ∷ xs) = omega (arith, length-drop n xs)

pub length-take : (n : ℕ) (xs : Bytes) → n ≤ length xs → length (take n xs) ≡ n
length-take zero xs h = refl
length-take (suc n) [] h = absurd (omega arith)
length-take (suc n) (x ∷ xs) h = ap suc (length-take n xs (omega arith))

-- `dst` with the bytes `xs` from index `i` on.
unfoldable pub splice : Bytes → ℕ → Bytes → Bytes
splice dst zero [] = dst
splice [] zero (x ∷ xs) = []
splice (d ∷ dst) zero (x ∷ xs) = x ∷ splice dst zero xs
splice [] (suc i) xs = []
splice (d ∷ dst) (suc i) xs = d ∷ splice dst i xs

pub length-splice : (dst : Bytes) (i : ℕ) (xs : Bytes) → length (splice dst i xs) ≡ length dst
unfolding splice
length-splice dst zero [] = refl
length-splice [] zero (x ∷ xs) = refl
length-splice (d ∷ dst) zero (x ∷ xs) = ap suc (length-splice dst zero xs)
length-splice [] (suc i) xs = refl
length-splice (d ∷ dst) (suc i) xs = ap suc (length-splice dst i xs)

-- The front of a spliced buffer: what stood before, and the new bytes.
pub take-splice :
    (dst : Bytes) (i : ℕ) (xs : Bytes) (n : ℕ)
    → i + length xs ≤ length dst
    → n ≡ i + length xs
    → take n (splice dst i xs) ≡ take i dst ++ xs
unfolding splice
take-splice dst zero [] zero h e = refl
take-splice dst zero [] (suc n) h e = absurd (omega arith)
take-splice [] zero (x ∷ xs) n h e = absurd (omega arith)
take-splice (d ∷ dst) zero (x ∷ xs) zero h e = absurd (omega arith)
take-splice (d ∷ dst) zero (x ∷ xs) (suc n) h e =
    ap (λ l. x ∷ l) (take-splice dst zero xs n (omega arith) (omega arith))
take-splice [] (suc i) xs n h e = absurd (omega arith)
take-splice (d ∷ dst) (suc i) xs zero h e = absurd (omega arith)
take-splice (d ∷ dst) (suc i) xs (suc n) h e =
    ap (λ l. d ∷ l) (take-splice dst i xs n (omega arith) (omega arith))

splice-nil : (dst : Bytes) (i : ℕ) → splice dst i [] ≡ dst
unfolding splice
splice-nil dst zero = refl
splice-nil [] (suc i) = refl
splice-nil (d ∷ dst) (suc i) = ap (λ l. d ∷ l) (splice-nil dst i)

splice-set :
    (dst : Bytes) (i v : ℕ) (xs : Bytes)
    → i < length dst
    → splice (set dst i v) (suc i) xs ≡ splice dst i (v ∷ xs)
unfolding splice
splice-set [] i v xs h = absurd (omega arith)
splice-set (d ∷ dst) zero v xs h = refl
splice-set (d ∷ dst) (suc i) v xs h = ap (λ l. d ∷ l) (splice-set dst i v xs (omega arith))

store-set : (xs : Bytes) (i v : ℕ) → i < length xs → store xs i v ≡ done (set xs i v)
store-set xs i v h = ground arith

drop-get_or : (xs : Bytes) (i : ℕ) → i < length xs → drop i xs ≡ get_or xs i 0 ∷ drop (suc i) xs
drop-get_or [] i h = absurd (omega arith)
drop-get_or (x ∷ xs) zero h = refl
drop-get_or (x ∷ xs) (suc i) h = drop-get_or xs i (omega arith)

pub copy-suc :
    (dst src : Bytes) (i j n : ℕ)
    → i < length dst
    → j < length src
    → copy dst src i j (suc n) ≡ copy (set dst i (get_or src j 0)) src (suc i) (suc j) n
unfolding copy
copy-suc dst src i j n hd hs =
    rw (load-get_or src j 0 hs) (rw (store-set dst i (get_or src j 0) hd))

-- In range, the loop of `append_buffer` splices a part of the source into the destination.
pub copy-splice :
    (dst src : Bytes) (i j n : ℕ)
    → i + n ≤ length dst
    → j + n ≤ length src
    → copy dst src i j n ≡ done (splice dst i (take n (drop j src)))
copy-splice dst src i j zero hd hs = unfold copy in ap done (sym (splice-nil dst i))
copy-splice dst src i j (suc n) hd hs =
    let v = get_or src j 0 in
    let rest =
      copy-splice (set dst i v) src (suc i) (suc j) n (omega (arith, length-set dst i v))
        (omega arith) in
    rw (copy-suc dst src i j n (omega arith) (omega arith), rest)
      (ap done (
        splice-set dst i v _ (omega arith)
        ∙ ap (λ l. splice dst i (take (suc n) l)) (sym (drop-get_or src j (omega arith)))))

-- What was spliced in at the front is read back.
slice-splice :
    (dst c : Bytes) (j n : ℕ)
    → length c ≤ length dst
    → j + n ≤ length c
    → take n (drop j (splice dst 0 c)) ≡ take n (drop j c)
unfolding splice
slice-splice dst [] zero zero hd h = refl
slice-splice dst [] (suc j) n hd h = absurd (omega arith)
slice-splice dst [] zero (suc n) hd h = absurd (omega arith)
slice-splice [] (x ∷ c) j n hd h = absurd (omega arith)
slice-splice (d ∷ dst) (x ∷ c) zero zero hd h = refl
slice-splice (d ∷ dst) (x ∷ c) zero (suc n) hd h =
    ap (λ l. x ∷ l) (slice-splice dst c zero n (omega arith) (omega arith))
slice-splice (d ∷ dst) (x ∷ c) (suc j) n hd h = slice-splice dst c j n (omega arith) (omega arith)

take_all : (xs : Bytes) (n : ℕ) → n ≡ length xs → take n xs ≡ xs
take_all [] zero e = refl
take_all [] (suc n) e = refl
take_all (x ∷ xs) zero e = absurd (omega arith)
take_all (x ∷ xs) (suc n) e = ap (λ l. x ∷ l) (take_all xs n (omega arith))

-- `Read` into the front of a buffer.
pub copy-front :
    (dst c : Bytes) → length c ≤ length dst → copy dst c 0 0 (length c) ≡ done (splice dst 0 c)
copy-front dst c h =
    copy-splice dst c 0 0 (length c) (omega arith) (omega arith)
    ∙ ap (λ l. done (splice dst 0 l)) (take_all c (length c) refl)

-- Copying the part `mid` of what was read into the front of a buffer.
pub copy-part :
    (dst temp pre mid post : Bytes) (i j n : ℕ)
    → length (pre ++ (mid ++ post)) ≤ length temp
    → i + length mid ≤ length dst
    → j ≡ length pre
    → n ≡ length mid
    → copy dst (splice temp 0 (pre ++ (mid ++ post))) i j n ≡ done (splice dst i mid)
copy-part dst temp pre mid post i j n fits room ej en =
    let c = pre ++ (mid ++ post) in
    let size = length-append pre (mid ++ post) in
    let size' = length-append mid post in
    copy-splice dst (splice temp 0 c) i j n (omega arith)
      (omega (arith, length-splice temp 0 c, size, size'))
    ∙ ap (λ l. done (splice dst i l))
        (slice-splice temp c j n fits (omega (arith, size, size'))
          ∙ ap (take n) (drop-append_self pre (mid ++ post) j ej)
          ∙ take-append_self mid post n en)

pub copy-end :
    (dst temp pre mid : Bytes) (i j n : ℕ)
    → length (pre ++ mid) ≤ length temp
    → i + length mid ≤ length dst
    → j ≡ length pre
    → n ≡ length mid
    → copy dst (splice temp 0 (pre ++ mid)) i j n ≡ done (splice dst i mid)
copy-end dst temp pre mid i j n fits room ej en =
    let tail = append-nil mid in
    ap (λ l. copy dst (splice temp 0 (pre ++ l)) i j n) (sym tail)
    ∙ copy-part dst temp pre mid [] i j n (rw tail fits) room ej en

-- Two ways to cut one text.
pub cut_long :
    (a b c d : Bytes)
    → a ++ b ≡ c ++ d
    → length c ≤ length a
    → (e : Bytes) × (a ≡ c ++ e) × (d ≡ e ++ b)
cut_long a b [] d h le = (a, refl, sym h)
cut_long [] b (y ∷ c) d h le = absurd (omega arith)
cut_long (x ∷ a) b (y ∷ c) d h le =
    let (e, p, q) = cut_long a b c d (cc) (omega arith) in (e, cc, q)

-- The two bytes of a length.
pub load_header :
    (dst rest : Bytes) (hi lo : ℕ)
    → length (hi ∷ lo ∷ rest) ≤ length dst
    → (load (splice dst 0 (hi ∷ lo ∷ rest)) 0 ≡ done hi)
      × (load (splice dst 0 (hi ∷ lo ∷ rest)) 1 ≡ done lo)
unfolding splice
load_header [] rest hi lo h = absurd (omega arith)
load_header (d ∷ []) rest hi lo h = absurd (omega arith)
load_header (d ∷ e ∷ dst) rest hi lo h = (refl, refl)

-- Reading behind one byte that is there already.
pub splice-splice :
    (dst c : Bytes) (x : ℕ) → splice (splice dst 0 (x ∷ [])) 1 c ≡ splice dst 0 (x ∷ c)
unfolding splice
splice-splice [] c x = refl
splice-splice (d ∷ dst) c x = refl

pub copy-behind :
    (dst c : Bytes) → length c + 1 ≤ length dst → copy dst c 1 0 (length c) ≡ done (splice dst 1 c)
copy-behind dst c h =
    copy-splice dst c 1 0 (length c) (omega arith) (omega arith)
    ∙ ap (λ l. done (splice dst 1 l)) (take_all c (length c) refl)
