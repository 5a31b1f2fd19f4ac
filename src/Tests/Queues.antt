-- ===== src/Tests/Queues.antt =====
-- The circular queue.
use grandma_scheduling_servi.Prelude.{
  ℕ, ◌≡◌, refl, List, [], ◌∷◌, Option, none, some, true, false, done, panic, ◌>>=◌, arith,
}
use grandma_scheduling_servi.Queue.{
  GrandmaQueue, new_queue, is_empty, is_full, append_message, push_message, push_front, pop_message,
}
use grandma_scheduling_servi.Queue.Deque
use grandma_scheduling_servi.Queue.Deque.{Op, Reply, stored, popped, full, waits}
use grandma_scheduling_servi.Queue.Inv.{IsValid, contents}
use grandma_scheduling_servi.Queue.Refine.{calls, call, calls_refines}
use grandma_scheduling_servi.Queue.Race.{push_message_race, push_all, push_all-panic}

-- Three slots, of which two hold messages, round the end of the slice.
abbrev wrapped : GrandmaQueue ℕ
wrapped = record { queue = some 9 ∷ none ∷ some 8 ∷ []; front = 2; pointer = 1 }

abbrev script : List (Op (Option ℕ))
script = Op.push (some 1) ∷ Op.pop ∷ Op.push_front (some 2) ∷ Op.pop ∷ Op.pop ∷ Op.pop ∷ []

calls-wrapped :
    calls 3 wrapped script
    ≡ full ∷ popped (some 8) ∷ stored ∷ popped (some 2) ∷ popped (some 9) ∷ waits ∷ []
unfolding calls call push_message push_front pop_message
calls-wrapped = refl

wrapped-IsValid : IsValid 3 wrapped
wrapped-IsValid = omega arith

calls_refines_example : calls 3 wrapped script ≡ Deque.run 2 (contents 3 wrapped) script
calls_refines_example = calls_refines 3 wrapped script wrapped-IsValid

abbrev one_message : GrandmaQueue ℕ
one_message = record { queue = some 5 ∷ none ∷ none ∷ []; front = 0; pointer = 1 }

push_message_race_example :
    (is_full 3 one_message ≡ false)
    × ((r : GrandmaQueue ℕ) × ((append_message 3 one_message (some 6) >>= λ q'.
            append_message 3 q' (some 7))
          ≡ done r)
        × (is_empty r ≡ true))
push_message_race_example =
    push_message_race 3 one_message (some 6) (some 7) (omega arith) (omega arith)

push_all-panic_example : push_all {A = ℕ} 10 (new_queue 2) (some 1 ∷ some 2 ∷ some 3 ∷ []) ≡ panic
push_all-panic_example =
    push_all-panic 2 10 (some 1 ∷ some 2 ∷ some 3 ∷ []) (omega arith) (omega arith)
