-- ===== src/Tests/Senders.antt =====
-- Messages that are due, and their senders.
use grandma_scheduling_servi.Prelude.{
  List, Option, ◌≡◌, refl, [], ◌∷◌, true, none, some, done, arith,
}
use grandma_scheduling_servi.Prelude.Int.{pos}
use grandma_scheduling_servi.Prelude.Text.{codes}
use grandma_scheduling_servi.Message.{Obj}
use grandma_scheduling_servi.Queue.{GrandmaQueue, pop_message}
use grandma_scheduling_servi.Ws.{ConnMap}
use grandma_scheduling_servi.Distributor.{
  Job, rest_call, process_messages, process_message_queue, Http,
}
use grandma_scheduling_servi.Queue.Inv.{IsValid, contents}
use grandma_scheduling_servi.Distributor.Order.{AreFor, process_messages-AreFor}

abbrev one_due : GrandmaQueue Obj
one_due = record {
  queue =
      some (record {
        message_type = pos 107;
        endpoint = codes "GET x y";
        message_body = codes "hi";
        expiration = pos 0;
      })
      ∷ none
      ∷ [];
  front = 0;
  pointer = 1;
}

process-one_due :
    process_message_queue 2 one_due
    ≡ done (some (rest_call (codes "GET x y") (codes "hi")), record one_due { front = 1 })
unfolding process_message_queue pop_message
process-one_due = refl

abbrev nobody : ConnMap
nobody = λ id. none

-- Every request is answered with status 200.
abbrev fine : Http
fine = record {
  is_request = λ method url. true;
  do_request = λ method url content_type msg. some 200;
}

one_due-IsValid : IsValid 2 one_due
one_due-IsValid = record { storage = refl; front_in = omega arith; pointer_in = omega arith }

process_messages-AreFor_example :
    (jobs : List (Option Job)) × (q' : GrandmaQueue Obj) × (process_messages 2 1 one_due
      ≡ done (jobs, q'))
    × AreFor
        (record {
          message_type = pos 107;
          endpoint = codes "GET x y";
          message_body = codes "hi";
          expiration = pos 0;
        }
          ∷ [])
        jobs
    × IsValid 2 q'
    × (contents 2 q' ≡ [])
process_messages-AreFor_example =
    process_messages-AreFor 2
      (record {
        message_type = pos 107;
        endpoint = codes "GET x y";
        message_body = codes "hi";
        expiration = pos 0;
      }
        ∷ [])
      one_due one_due-IsValid refl
