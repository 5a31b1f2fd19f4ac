-- ===== src/Cluster/Sending/Steps.antt =====
-- The orders in which the runs of `executeSlaveQueue` can go on.
use grandma_scheduling_servi.Prelude.{
  ℕ, ◌+◌, ◌≡◌, Bool, true, if◌then◌else◌, List, [], ◌∷◌, Outcome, done,
}
use grandma_scheduling_servi.Message.{Obj}
use grandma_scheduling_servi.Cluster.Nodes.{Slaves}
use grandma_scheduling_servi.Cluster.Sending.{
  Sender, Sent, waits, execute_slave_queue, await_answer,
}

-- The last list is the first without one place, in which the element stands.
pub data Picked {ℓ} {A : Type ℓ} (x : A) : List A → List A → Type ℓ where
  here : (l : List A) → Picked x (x ∷ l) l
  there : (y : A) {l r : List A} → Picked x l r → Picked x (y ∷ l) (y ∷ r)

-- How many elements pass the test.
abbrev pub count {ℓ} : {A : Type ℓ} → (A → Bool) → List A → ℕ
count f [] = 0
count f (x ∷ l) = (if f x then 1 else 0) + count f l

module _ (fix : ℕ → ℕ → Slaves → Outcome Slaves) (cap : ℕ) where
  -- What the runs do one after the other, each state with the waits that have begun and not ended:
  -- the run in PopMessage takes a message, sends it and starts the next run, or any of the waits ends.
  pub data Run (s0 : Sender) (ws0 : List Sent) : Sender → List Sent → Type 0 where
    start : Run s0 ws0 s0 ws0
    sends :
        {s s' : Sender} {ws : List Sent} (w : Sent)
        → Run s0 ws0 s ws
        → execute_slave_queue fix cap true s ≡ done (w, s')
        → Run s0 ws0 s' (w ∷ ws)
    ends :
        {s s' : Sender} {ws ws' : List Sent} (p : ℕ) (msg : Obj)
        → Run s0 ws0 s ws
        → Picked (waits p msg) ws ws'
        → await_answer fix cap p msg s ≡ done s'
        → Run s0 ws0 s' ws'
