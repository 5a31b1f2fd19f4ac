-- ===== src/Queue.antt =====
-- src/queue/queue.go: the circular queue of message pointers.
-- `queue_length` is `conf.GetQueueLength()` at the time of the call, which need not be the length
-- of the slice: that is fixed when the queue is made. A method runs here as one step; `Queue.Race`
-- splits `PushMessage` where its locks allow another goroutine to run.
pub mod Deque
pub mod Inv
pub mod Refine
pub mod Race
use grandma_scheduling_servi.Prelude.{
  ℕ, ◌+◌, ◌-◌, Bool, List, Option, none, ◌==◌, if◌then◌else◌, replicate, Outcome, done, panic,
  blocked, ◌>>=◌, load, store,
}

-- `A` stands for `message.Obj`, and `none` for a nil pointer. The locks hold no data.
pub record GrandmaQueue {ℓ} (A : Type ℓ) : Type ℓ where
  pub queue : List (Option A)
  pub front : ℕ
  pub pointer : ℕ

module _ (queue_length : ℕ) where
  -- The source tests `i == queue_length - 1` on int.
  unfoldable pub increase : ℕ → ℕ
  increase i = if i + 1 == queue_length then 0 else i + 1

  unfoldable pub decrease : ℕ → ℕ
  decrease i = if i == 0 then queue_length - 1 else i - 1

module _ {ℓ} {A : Type ℓ} where
  unfoldable pub new_queue : ℕ → GrandmaQueue A
  new_queue queue_length = record { queue = replicate queue_length none; front = 0; pointer = 0 }

  unfoldable pub is_empty : GrandmaQueue A → Bool
  is_empty q = q.front == q.pointer

  unfoldable pub is_full : ℕ → GrandmaQueue A → Bool
  is_full queue_length q = q.front == increase queue_length q.pointer

  -- The part of `PushMessage` under `varLock`.
  unfoldable pub append_message : ℕ → GrandmaQueue A → Option A → Outcome (GrandmaQueue A)
  append_message queue_length q obj = do
    queue ← store q.queue q.pointer obj
    done (record q { queue = queue; pointer = increase queue_length q.pointer })

  unfoldable pub push_message : ℕ → GrandmaQueue A → Option A → Outcome (GrandmaQueue A)
  unfolding is_full append_message increase
  push_message queue_length q obj =
      if is_full queue_length q then panic else append_message queue_length q obj

  unfoldable pub push_front : ℕ → GrandmaQueue A → Option A → Outcome (GrandmaQueue A)
  unfolding is_full increase decrease
  push_front queue_length q obj =
      let front = decrease queue_length q.front in
      let write : Outcome (GrandmaQueue A) =
        (store q.queue front obj) >>= λ queue. done (record q { queue = queue; front = front }) in
      if is_full queue_length q then panic else write

  -- `blocked`: the caller waits for a message.
  unfoldable pub pop_message : ℕ → GrandmaQueue A → Outcome (Option A × GrandmaQueue A)
  unfolding is_empty increase
  pop_message queue_length q =
      let read : Outcome (Option A × GrandmaQueue A) = (load q.queue q.front) >>= λ ret.
      done (ret, record q { front = increase queue_length q.front }) in
      if is_empty q then blocked else read
