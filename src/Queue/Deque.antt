-- ===== src/Queue/Deque.antt =====
-- What a queue of capacity `cap` promises: a double-ended list, oldest message first.
use grandma_scheduling_servi.Prelude.{ℕ, List, [], ◌∷◌, ◌++◌, ◌==◌, if◌then◌else◌, length}

-- A call on a queue, and what its caller sees.
pub data Op {ℓ} (P : Type ℓ) : Type ℓ where
  push : P → Op P
  push_front : P → Op P
  pop : Op P

pub data Reply {ℓ} (P : Type ℓ) : Type ℓ where
  stored : Reply P
  popped : P → Reply P
  full : Reply P
  waits : Reply P

module _ {ℓ} {P : Type ℓ} where
  -- One call: the reply, and the list after it. A full queue refuses, an empty one makes `pop` wait.
  unfoldable pub step : ℕ → List P → Op P → Reply P × List P
  step cap xs (push x) = if length xs == cap then (full, xs) else (stored, xs ++ (x ∷ []))
  step cap xs (push_front x) = if length xs == cap then (full, xs) else (stored, x ∷ xs)
  step cap [] pop = (waits, [])
  step cap (x ∷ xs) pop = (popped x, xs)

  unfoldable pub run : ℕ → List P → List (Op P) → List (Reply P)
  run cap xs [] = []
  run cap xs (op ∷ ops) = let (r, ys) = step cap xs op in r ∷ run cap ys ops
