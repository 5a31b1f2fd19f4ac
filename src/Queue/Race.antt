-- ===== src/Queue/Race.antt =====
-- What the guards of src/queue/queue.go do not cover: `PushMessage` tests `IsFull` before it takes
-- the write lock, and the slice is made before the configured length is read.
use grandma_scheduling_servi.Prelude.{
  ℕ, ◌+◌, ◌≤◌, ◌<◌, ◌≡◌, List, [], ◌∷◌, Option, none, true, false, length, set, arith, done, panic,
  Outcome, ◌>>=◌, length-set, length-replicate,
}
use grandma_scheduling_servi.Queue.{
  GrandmaQueue, increase, new_queue, is_empty, is_full, append_message, push_message,
}
use grandma_scheduling_servi.Queue.Inv.{IsValid, len}

module _ {A : Type 0} where
  -- Two `PushMessage` calls whose tests both run before either writes. In a valid queue with one
  -- free slot both tests pass and both writes succeed, and then the queue reads as empty: every
  -- message that it held is lost.
  pub push_message_race :
      (cap : ℕ) (q : GrandmaQueue A) (x y : Option A)
      → IsValid cap q
      → len cap q + 2 ≡ cap
      → (is_full cap q ≡ false)
        × ((r : GrandmaQueue A) × ((append_message cap q x >>= λ q'. append_message cap q' y)
              ≡ done r)
            × (is_empty r ≡ true))
  unfolding append_message is_full is_empty increase
  push_message_race cap q x y v h =
      let p = increase cap q.pointer in
      (
        ground arith,
        (
          record q { queue = set (set q.queue q.pointer x) p y; pointer = increase cap p },
          ground (arith, length-set q.queue q.pointer x),
          ground arith,
        ),
      )

  -- Pushes one after the other.
  unfoldable pub push_all : ℕ → GrandmaQueue A → List (Option A) → Outcome (GrandmaQueue A)
  push_all queue_length q [] = done q
  push_all queue_length q (x ∷ xs) =
      push_message queue_length q x >>= λ q'. push_all queue_length q' xs

  push_all_overrun :
      (queue_length : ℕ) (q : GrandmaQueue A) (xs : List (Option A))
      → length q.queue < queue_length
      → q.pointer ≤ length q.queue
      → length q.queue < q.pointer + length xs
      → push_all queue_length q xs ≡ panic
  unfolding push_all push_message
  push_all_overrun queue_length q [] small low long = absurd (omega arith)
  push_all_overrun queue_length q (x ∷ xs) small low long =
      let p = q.pointer in
      let r : GrandmaQueue A = record q { queue = set q.queue p x; pointer = p + 1 } in
      ground (arith, length-set q.queue p x, push_all_overrun queue_length r xs)

  -- A queue made with `n` slots before a greater `queue_length` is configured: any run of more
  -- than `n` pushes panics, also where it is shorter than the configured length.
  pub push_all-panic :
      (n queue_length : ℕ) (xs : List (Option A))
      → n < queue_length
      → n < length xs
      → push_all queue_length (new_queue n) xs ≡ panic
  unfolding new_queue
  push_all-panic n queue_length xs small long =
      let made = length-replicate {A = Option A} n none in
      push_all_overrun queue_length (new_queue n) xs (omega (arith, made)) (omega arith)
        (omega (arith, made))
