-- ===== src/Queue/Inv.antt =====
-- The representation invariant of `GrandmaQueue`, and the messages that a queue holds.
use grandma_scheduling_servi.Prelude.{
  ℕ, zero, suc, ◌+◌, ◌-◌, ◌≤◌, ◌<◌, ◌≡◌, refl, ap, ap₂, List, [], ◌∷◌, ◌++◌, Option, none, leb,
  if◌then◌else◌, length, get_or, set, arith, length-set, length-replicate, get_or-set_self,
  get_or-set_ne, done,
}
use grandma_scheduling_servi.Queue.{
  GrandmaQueue, increase, decrease, new_queue, push_message, push_front, pop_message,
}

pub record IsValid {ℓ} {A : Type ℓ} (cap : ℕ) (q : GrandmaQueue A) : Type 0 where
  pub storage : length q.queue ≡ cap
  pub front_in : q.front < cap
  pub pointer_in : q.pointer < cap

module _ {ℓ} {A : Type ℓ} where
  -- How many messages wait between `front` and `pointer`.
  abbrev pub len : ℕ → GrandmaQueue A → ℕ
  len cap q = if leb q.front q.pointer then q.pointer - q.front else cap + q.pointer - q.front

  -- The `n` slots from index `i` on.
  abbrev pub window : ℕ → List (Option A) → ℕ → ℕ → List (Option A)
  window cap buf i zero = []
  window cap buf i (suc n) = get_or buf i none ∷ window cap buf (increase cap i) n

  abbrev pub contents : ℕ → GrandmaQueue A → List (Option A)
  contents cap q = window cap q.queue q.front (len cap q)

  pub length-window : (cap : ℕ) (buf : List (Option A)) (i n : ℕ) → length (window cap buf i n) ≡ n
  length-window cap buf i zero = refl
  length-window cap buf i (suc n) = ap suc (length-window cap buf (increase cap i) n)

-- The index `n` slots after `i`.
abbrev pub advance : ℕ → ℕ → ℕ → ℕ
advance cap i n = if leb cap (i + n) then i + n - cap else i + n

advance-increase :
    (cap i n : ℕ) → i < cap → suc n < cap → advance cap (increase cap i) n ≡ advance cap i (suc n)
unfolding increase
advance-increase cap i n h k = ground arith

increase-lt : (cap i : ℕ) → i < cap → increase cap i < cap
unfolding increase
increase-lt cap i h = ground arith

module _ {ℓ} {A : Type ℓ} (cap : ℕ) (x : Option A) where
  -- A write outside a window leaves the window alone.
  pub window-set_ne :
      (buf : List (Option A)) (i n k j : ℕ)
      → i < cap
      → n ≤ k
      → k < cap
      → j ≡ advance cap i k
      → window cap (set buf j x) i n ≡ window cap buf i n
  window-set_ne buf i zero k j h le lt e = refl
  window-set_ne buf i (suc n) zero j h le lt e = absurd (omega arith)
  window-set_ne buf i (suc n) (suc k) j h le lt e =
      ap₂ ◌∷◌ (get_or-set_ne buf j i x none (ground arith)) (
        window-set_ne buf (increase cap i) n k j (increase-lt cap i h) (omega arith) (omega arith)
          (ground (arith, advance-increase cap i k)))

  -- A write just past a window extends it.
  pub window-set :
      (buf : List (Option A)) (i n j : ℕ)
      → length buf ≡ cap
      → i < cap
      → n < cap
      → j ≡ advance cap i n
      → window cap (set buf j x) i (suc n) ≡ window cap buf i n ++ (x ∷ [])
  window-set buf i zero j e h lt at =
      ap (λ y. y ∷ []) (rw (← at_start) (get_or-set_self buf j x none (ground arith)))
    where
      at_start : j ≡ i
      at_start = ground arith
  window-set buf i (suc n) j e h lt at = ap₂ ◌∷◌ (get_or-set_ne buf j i x none (ground arith)) (
      window-set buf (increase cap i) n j e (increase-lt cap i h) (omega arith)
        (ground (arith, advance-increase cap i n)))

module _ {ℓ} {A : Type ℓ} (cap : ℕ) where
  -- A new queue of at least one slot is valid.
  pub new_queue-IsValid : 0 < cap → IsValid cap (new_queue {A = A} cap)
  unfolding new_queue
  new_queue-IsValid h = ground (arith, length-replicate {A = Option A} cap none)

  -- `PushMessage` keeps the invariant.
  pub push_message-IsValid :
      (q : GrandmaQueue A) (x : Option A) {r : GrandmaQueue A}
      → IsValid cap q
      → push_message cap q x ≡ done r
      → IsValid cap r
  unfolding push_message
  push_message-IsValid q x v e = ground (arith, length-set q.queue q.pointer x)

  pub push_front-IsValid :
      (q : GrandmaQueue A) (x : Option A) {r : GrandmaQueue A}
      → IsValid cap q
      → push_front cap q x ≡ done r
      → IsValid cap r
  unfolding push_front
  push_front-IsValid q x v e = ground (arith, length-set q.queue (decrease cap q.front) x)

  pub pop_message-IsValid :
      (q : GrandmaQueue A) {x : Option A} {r : GrandmaQueue A}
      → IsValid cap q
      → pop_message cap q ≡ done (x, r)
      → IsValid cap r
  unfolding pop_message
  pop_message-IsValid q v e = ground arith
