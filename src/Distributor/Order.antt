-- ===== src/Distributor/Order.antt =====
-- The messages of the main queue are dispatched in their order.
use grandma_scheduling_servi.Prelude.{
  ℕ, ◌≡◌, ◌≢◌, refl, inl, inr, Bool-cases, List, [], ◌∷◌, map, Option, none, some, done, length,
  All,
}
use grandma_scheduling_servi.Prelude.Int.{pos, ◌=ℤ◌, same_number, other_number}
use grandma_scheduling_servi.Message.{Obj}
use grandma_scheduling_servi.Queue.{GrandmaQueue}
use grandma_scheduling_servi.Queue.Inv.{IsValid, contents}
use grandma_scheduling_servi.Queue.Refine.{pop_message-done}
use grandma_scheduling_servi.Distributor.{
  Job, rest_call, web_socket_msg, sms_message, gcm_push_notification, email_msg, dispatch,
  process_message_queue, process_messages,
}

-- The job that a message is for, by the number of its type.
pub data IsFor (m : Obj) : Option Job → Type 0 where
  by_push :
      m.message_type ≡ pos 102 → IsFor m (some (gcm_push_notification m.endpoint m.message_body))
  by_socket : m.message_type ≡ pos 105 → IsFor m (some (web_socket_msg m.endpoint m.message_body))
  by_mail : m.message_type ≡ pos 106 → IsFor m (some (email_msg m.endpoint m.message_body))
  by_rest : m.message_type ≡ pos 107 → IsFor m (some (rest_call m.endpoint m.message_body))
  by_text : m.message_type ≡ pos 109 → IsFor m (some (sms_message m.endpoint m.message_body))
  by_nobody : All (λ t. m.message_type ≢ pos t) (102 ∷ 105 ∷ 106 ∷ 107 ∷ 109 ∷ []) → IsFor m none

abbrev pub AreFor : List Obj → List (Option Job) → Type 0
AreFor [] [] = Unit
AreFor [] (j ∷ jobs) = ⊥
AreFor (m ∷ msgs) [] = ⊥
AreFor (m ∷ msgs) (j ∷ jobs) = IsFor m j × AreFor msgs jobs

dispatch-IsFor : (m : Obj) → IsFor m (dispatch m)
unfolding dispatch
dispatch-IsFor m = elim (Bool-cases (m.message_type =ℤ pos 107)) [
  | inl rest ↦ rw rest (by_rest (same_number m.message_type 107 rest))
  | inr no_rest ↦ elim (Bool-cases (m.message_type =ℤ pos 105)) [
    | inl socket ↦ rw (no_rest, socket) (by_socket (same_number m.message_type 105 socket))
    | inr no_socket ↦ elim (Bool-cases (m.message_type =ℤ pos 109)) [
      | inl text ↦ rw (no_rest, no_socket, text) (by_text (same_number m.message_type 109 text))
      | inr no_text ↦ elim (Bool-cases (m.message_type =ℤ pos 102)) [
        | inl push ↦
            rw (no_rest, no_socket, no_text, push) (by_push (same_number m.message_type 102 push))
        | inr no_push ↦ elim (Bool-cases (m.message_type =ℤ pos 106)) [
          | inl mail ↦
              rw (no_rest, no_socket, no_text, no_push, mail)
                (by_mail (same_number m.message_type 106 mail))
          | inr no_mail ↦
              rw (no_rest, no_socket, no_text, no_push, no_mail)
                (by_nobody (
                  other_number m.message_type 102 no_push,
                  (
                    other_number m.message_type 105 no_socket,
                    (
                      other_number m.message_type 106 no_mail,
                      (
                        other_number m.message_type 107 no_rest,
                        (other_number m.message_type 109 no_text, tt),
                      ),
                    ),
                  ),
                ))
        ]
      ]
    ]
  ]
]

-- A queue that holds messages, and no nil pointer, is emptied without a panic and without waiting:
-- in the order in which they stand, each message gets the sender of the number of its type, with its
-- endpoint and body, and none where the number has no sender.
pub process_messages-AreFor :
    (cap : ℕ) (msgs : List Obj) (q : GrandmaQueue Obj)
    → IsValid cap q
    → contents cap q ≡ map some msgs
    → (jobs : List (Option Job)) × (q' : GrandmaQueue Obj) × (process_messages cap (length msgs) q
        ≡ done (jobs, q'))
      × AreFor msgs jobs
      × IsValid cap q'
      × (contents cap q' ≡ [])
unfolding process_messages process_message_queue
process_messages-AreFor cap [] q v e = ([], q, refl, tt, v, e)
process_messages-AreFor cap (m ∷ msgs) q v e =
    let (q1, popped, v1, e1) = pop_message-done cap q (some m) (map some msgs) v e in
    let (jobs, q', ran, are, v', e') = process_messages-AreFor cap msgs q1 v1 e1 in
    (dispatch m ∷ jobs, q', rw (popped, ran), (dispatch-IsFor m, are), v', e')
