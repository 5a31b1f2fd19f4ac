-- ===== src/Queue/Refine.antt =====
-- A valid queue behaves as the double-ended list of the messages that it holds.
use grandma_scheduling_servi.Prelude.{
  ℕ, zero, suc, ◌-◌, ◌≡◌, ◌≢◌, refl, List, [], ◌∷◌, Option, none, length, get_or, length-set, ap,
  arith, load-get_or, ◌↔◌, ◌<◌, get_or-set_self, done, panic, blocked, Outcome, ◌++◌, ◌∙◌,
}
use grandma_scheduling_servi.Queue.{
  GrandmaQueue, increase, decrease, push_message, push_front, pop_message,
}
use grandma_scheduling_servi.Queue.Inv.{
  push_message-IsValid, push_front-IsValid, pop_message-IsValid, IsValid, len, window, contents,
  length-window, window-set, window-set_ne,
}
use grandma_scheduling_servi.Queue.Deque
use grandma_scheduling_servi.Queue.Deque.{Op, Reply, stored, popped, full, waits}

module _ {A : Type 0} (cap : ℕ) where
  -- What the caller of a push sees: a panic is the refusal of a full queue.
  abbrev pushed : GrandmaQueue A → Outcome (GrandmaQueue A) → Reply (Option A) × GrandmaQueue A
  pushed q (done r) = (stored, r)
  pushed q panic = (full, q)
  pushed q blocked = (waits, q)

  abbrev read :
      GrandmaQueue A → Outcome (Option A × GrandmaQueue A) → Reply (Option A) × GrandmaQueue A
  read q (done (x, r)) = (popped x, r)
  read q panic = (full, q)
  read q blocked = (waits, q)

  -- One call on the circular queue.
  unfoldable pub call : GrandmaQueue A → Op (Option A) → Reply (Option A) × GrandmaQueue A
  call q (Op.push x) = pushed q (push_message cap q x)
  call q (Op.push_front x) = pushed q (push_front cap q x)
  call q Op.pop = read q (pop_message cap q)

  unfoldable pub calls : GrandmaQueue A → List (Op (Option A)) → List (Reply (Option A))
  calls q [] = []
  calls q (op ∷ ops) = let (r, q') = call q op in r ∷ calls q' ops

  call-IsValid :
      (q : GrandmaQueue A) (op : Op (Option A)) → IsValid cap q → IsValid cap (call q op).1
  unfolding call push_message push_front pop_message
  call-IsValid q (Op.push x) v = ground (arith, length-set q.queue q.pointer x)
  call-IsValid q (Op.push_front x) v = ground (arith, length-set q.queue (decrease cap q.front) x)
  call-IsValid q Op.pop v = ground arith

  -- `window` matches on `suc`, the code tests `front == pointer`.
  window_of_ne_zero :
      (buf : List (Option A)) (i n : ℕ)
      → n ≢ 0
      → window cap buf i n ≡ get_or buf i none ∷ window cap buf (increase cap i) (n - 1)
  window_of_ne_zero buf i zero p = absurd (p refl)
  window_of_ne_zero buf i (suc n) p =
      ap (λ k. get_or buf i none ∷ window cap buf (increase cap i) k) (omega arith)

  len-front-pointer : (q : GrandmaQueue A) → IsValid cap q → (len cap q ≡ 0) ↔ (q.front ≡ q.pointer)
  len-front-pointer q v = ground arith

  push_refines :
      (q : GrandmaQueue A) (x : Option A)
      → IsValid cap q
      → let (r, q') = call q (Op.push x) in
        (r, contents cap q') ≡ Deque.step (cap - 1) (contents cap q) (Op.push x)
  unfolding call push_message Deque.step
  push_refines q x v = ground (
    arith,
    length-window cap q.queue q.front (len cap q),
    window-set cap x q.queue q.front (len cap q) q.pointer,
  )

  push_front_refines :
      (q : GrandmaQueue A) (x : Option A)
      → IsValid cap q
      → let (r, q') = call q (Op.push_front x) in
        (r, contents cap q') ≡ Deque.step (cap - 1) (contents cap q) (Op.push_front x)
  unfolding call push_front Deque.step
  push_front_refines q x v =
      let i = decrease cap q.front in
      ground (
        arith,
        length-window cap q.queue q.front (len cap q),
        get_or-set_self q.queue i x none,
        window-set_ne cap x q.queue q.front (len cap q) (cap - 1) i,
      )

  pop_refines :
      (q : GrandmaQueue A)
      → IsValid cap q
      → let (r, q') = call q Op.pop in
        (r, contents cap q') ≡ Deque.step (cap - 1) (contents cap q) Op.pop
  unfolding call pop_message Deque.step
  pop_refines q v =
      ground
        (arith, load-get_or q.queue q.front none, window_of_ne_zero q.queue q.front (len cap q))

  call_refines :
      (q : GrandmaQueue A) (op : Op (Option A))
      → IsValid cap q
      → let (r, q') = call q op in (r, contents cap q') ≡ Deque.step (cap - 1) (contents cap q) op
  call_refines q (Op.push x) v = push_refines q x v
  call_refines q (Op.push_front x) v = push_front_refines q x v
  call_refines q Op.pop v = pop_refines q v

  -- Whatever calls are made on a valid queue of `cap` slots, one after the other, each gets the
  -- reply of the double-ended list that holds at most `cap - 1` messages.
  pub calls_refines :
      (q : GrandmaQueue A) (ops : List (Op (Option A)))
      → IsValid cap q
      → calls q ops ≡ Deque.run (cap - 1) (contents cap q) ops
  unfolding calls Deque.run
  calls_refines q [] v = refl
  calls_refines q (op ∷ ops) v =
      rw (calls_refines (call q op).1 ops (call-IsValid q op v), ← call_refines q op v)

-- The same for one call, as its callers use it.
module _ {A : Type 0} (cap : ℕ) where
  pub push_message-done :
      (q : GrandmaQueue A) (x : Option A)
      → IsValid cap q
      → length (contents cap q) < cap - 1
      → (q' : GrandmaQueue A) × (push_message cap q x ≡ done q')
        × IsValid cap q'
        × (contents cap q' ≡ contents cap q ++ (x ∷ []))
  unfolding call Deque.step
  push_message-done q x v room = by_result (push_message cap q x) refl
    where
      by_result :
          (r : Outcome (GrandmaQueue A))
          → push_message cap q x ≡ r
          → (q' : GrandmaQueue A) × (push_message cap q x ≡ done q')
            × IsValid cap q'
            × (contents cap q' ≡ contents cap q ++ (x ∷ []))
      by_result (done q') e =
          (q', e, push_message-IsValid cap q x v e, ground (arith, push_refines cap q x v))
      by_result panic e = absurd (ground (arith, push_refines cap q x v))
      by_result blocked e = absurd (ground (arith, push_refines cap q x v))

  pub push_front-done :
      (q : GrandmaQueue A) (x : Option A)
      → IsValid cap q
      → length (contents cap q) < cap - 1
      → (q' : GrandmaQueue A) × (push_front cap q x ≡ done q')
        × IsValid cap q'
        × (contents cap q' ≡ x ∷ contents cap q)
  unfolding call Deque.step
  push_front-done q x v room = by_result (push_front cap q x) refl
    where
      by_result :
          (r : Outcome (GrandmaQueue A))
          → push_front cap q x ≡ r
          → (q' : GrandmaQueue A) × (push_front cap q x ≡ done q')
            × IsValid cap q'
            × (contents cap q' ≡ x ∷ contents cap q)
      by_result (done q') e =
          (q', e, push_front-IsValid cap q x v e, ground (arith, push_front_refines cap q x v))
      by_result panic e = absurd (ground (arith, push_front_refines cap q x v))
      by_result blocked e = absurd (ground (arith, push_front_refines cap q x v))

  pub pop_message-done :
      (q : GrandmaQueue A) (x : Option A) (xs : List (Option A))
      → IsValid cap q
      → contents cap q ≡ x ∷ xs
      → (q' : GrandmaQueue A) × (pop_message cap q ≡ done (x, q'))
        × IsValid cap q'
        × (contents cap q' ≡ xs)
  unfolding call Deque.step
  pop_message-done q x xs v e = by_result (pop_message cap q) refl
    where
      by_result :
          (r : Outcome (Option A × GrandmaQueue A))
          → pop_message cap q ≡ r
          → (q' : GrandmaQueue A) × (pop_message cap q ≡ done (x, q'))
            × IsValid cap q'
            × (contents cap q' ≡ xs)
      by_result (done (y, q')) er =
          let same : y ≡ x = ground (arith, pop_refines cap q v) in
          (
            q',
            er ∙ ap (λ z. done (z, q')) same,
            pop_message-IsValid cap q v er,
            ground (arith, pop_refines cap q v),
          )
      by_result panic er = absurd (ground (arith, pop_refines cap q v))
      by_result blocked er = absurd (ground (arith, pop_refines cap q v))

  pub pop_message-waits :
      (q : GrandmaQueue A) → IsValid cap q → contents cap q ≡ [] → pop_message cap q ≡ blocked
  unfolding call Deque.step
  pop_message-waits q v e = by_result (pop_message cap q) refl
    where
      by_result :
          (r : Outcome (Option A × GrandmaQueue A))
          → pop_message cap q ≡ r
          → pop_message cap q ≡ blocked
      by_result (done (y, q')) er = absurd (ground (arith, pop_refines cap q v))
      by_result panic er = absurd (ground (arith, pop_refines cap q v))
      by_result blocked er = er
