-- ===== src/Distributor.antt =====
-- src/distributor/distributor.go, rest.go and websocket.go: which sender gets a message that is due,
-- and how two of the senders take its endpoint apart. The other senders stand in Services.
pub mod Endpoints
pub mod Order
pub mod Services
use grandma_scheduling_servi.Prelude.{
  ℕ, zero, suc, ◌==◌, Bool, List, [], ◌∷◌, Option, none, some, if◌then◌else◌, Outcome, done, panic,
  ◌>>=◌, Result, ok, err,
}
use grandma_scheduling_servi.Prelude.Int.{pos, ◌=ℤ◌}
use grandma_scheduling_servi.Prelude.Text.{Bytes}
use grandma_scheduling_servi.Strconv.{split}
use grandma_scheduling_servi.Message.{Obj}
use grandma_scheduling_servi.Queue.{GrandmaQueue, pop_message}
use grandma_scheduling_servi.Ws.{Connection, ConnMap, send}

-- The goroutine that `ProcessMessageQueue` starts for a message, with its arguments.
pub data Job : Type 0 where
  rest_call : Bytes → Bytes → Job
  web_socket_msg : Bytes → Bytes → Job
  sms_message : Bytes → Bytes → Job
  gcm_push_notification : Bytes → Bytes → Job
  email_msg : Bytes → Bytes → Job

-- The `switch`; a type that has no case gives no job.
unfoldable pub dispatch : Obj → Option Job
dispatch msg =
    if msg.message_type =ℤ pos 107
    then some (rest_call msg.endpoint msg.message_body)
    else if msg.message_type =ℤ pos 105
    then some (web_socket_msg msg.endpoint msg.message_body)
    else if msg.message_type =ℤ pos 109
    then some (sms_message msg.endpoint msg.message_body)
    else if msg.message_type =ℤ pos 102
    then some (gcm_push_notification msg.endpoint msg.message_body)
    else if msg.message_type =ℤ pos 106
    then some (email_msg msg.endpoint msg.message_body)
    else none

-- A nil message panics where its type is read.
unfoldable pub dispatch_popped : Option Obj → Outcome (Option Job)
unfolding dispatch
dispatch_popped none = panic
dispatch_popped (some msg) = done (dispatch msg)

unfoldable pub process_message_queue :
    ℕ → GrandmaQueue Obj → Outcome (Option Job × GrandmaQueue Obj)
unfolding dispatch_popped
process_message_queue queue_length q = do
  (msg, q') ← pop_message queue_length q
  job ← dispatch_popped msg
  done (job, q')

-- The function starts itself again after each message: here for so many messages.
unfoldable pub process_messages :
    ℕ → ℕ → GrandmaQueue Obj → Outcome (List (Option Job) × GrandmaQueue Obj)
unfolding process_message_queue
process_messages queue_length zero q = done ([], q)
process_messages queue_length (suc n) q = do
  (job, q') ← process_message_queue queue_length q
  (jobs, q'') ← process_messages queue_length n q'
  done (job ∷ jobs, q'')

pub data Error : Type 0 where
  invalid_endpoint_or_body : Error
  network_disconnect : Error
  improper_response : Error

-- net/http: whether a request can be made of a method and a URL, and the status of the answer to it,
-- with its content type and body, if there is one.
pub record Http : Type 0 where
  pub is_request : Bytes → Bytes → Bool
  pub do_request : Bytes → Bytes → Bytes → Bytes → Option ℕ

unfoldable pub answered : Option ℕ → Result Error (Unit {0})
answered none = err network_disconnect
answered (some status) = if status == 200 then ok tt else err improper_response

module _ (http : Http) where
  unfoldable pub send_parts : List Bytes → Bytes → Result Error (Unit {0})
  unfolding answered
  send_parts (method ∷ url ∷ content_type ∷ []) msg =
      if http.is_request method url
      then answered (http.do_request method url content_type msg)
      else err invalid_endpoint_or_body
  send_parts _ msg = err invalid_endpoint_or_body

  unfoldable pub send_rest_call : Bytes → Bytes → Result Error (Unit {0})
  unfolding send_parts
  send_rest_call endpoint msg = send_parts (split endpoint b' ') msg

-- The parts of the endpoint behind the second are not read. `none` from `Send` is its error.
unfoldable pub send_to : List Bytes → ConnMap → Result Error (Option (List Connection))
unfolding send
send_to (id ∷ key ∷ more) m = ok (send id key m)
send_to _ m = err invalid_endpoint_or_body

unfoldable pub send_web_socket_msg : Bytes → ConnMap → Result Error (Option (List Connection))
unfolding send_to
send_web_socket_msg endpoint m = send_to (split endpoint b'.') m
