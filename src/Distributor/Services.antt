-- ===== src/Distributor/Services.antt =====
-- src/distributor/email.go, sms.go and push.go: the senders that call services. net/http, net/smtp,
-- net/url, the coding of JSON and the account at Twilio are parameters; logs are left out.
pub mod Gcm
pub mod Crash
use grandma_scheduling_servi.Prelude.{
  ℕ, ◌==◌, Bool, true, false, List, [], ◌∷◌, ◌++◌, Option, none, some, if◌then◌else◌, Outcome, done,
  panic, ◌>>=◌, Result, ok, err,
}
use grandma_scheduling_servi.Prelude.Text.{Bytes, codes}
use grandma_scheduling_servi.Json
use grandma_scheduling_servi.Json.{Json, Value, Object, get_string, get_object, object_from_value}
use grandma_scheduling_servi.Message.{Obj}
use grandma_scheduling_servi.Ws.{Connection, ConnMap}
use grandma_scheduling_servi.Ws.Sockets.{Sockets, hand_over}
use grandma_scheduling_servi.Distributor
use grandma_scheduling_servi.Distributor.{
  Http, Job, dispatch, rest_call, web_socket_msg, sms_message, gcm_push_notification, email_msg,
  network_disconnect, invalid_endpoint_or_body, improper_response, answered, send_rest_call,
  send_web_socket_msg,
}

-- A POST, with its headers and what basic authentication it has.
pub record Post : Type 0 where
  pub url : Bytes
  pub headers : List (Bytes × Bytes)
  pub basic_auth : Option (Bytes × Bytes)
  pub body : Bytes

pub record Mail : Type 0 where
  pub addr : Bytes
  pub from : Bytes
  pub to : List Bytes
  pub content : Bytes

-- `post` is the status of the answer, if there is one; `send_mail` says whether the mail is taken.
pub record Services : Type 0 where
  pub http : Http
  pub post : Post → Option ℕ
  pub encode : List (Bytes × Bytes) → Bytes
  pub decode : Bytes → Result Json.Error Value
  pub marshal : Json → Bytes
  pub send_mail : Mail → Bool
  pub account_sid : Bytes
  pub auth_token : Bytes

-- The errors that the senders return.
pub data Failure : Type 0 where
  of_http : Distributor.Error → Failure
  of_json : Json.Error → Failure
  of_mail : Failure

unfoldable pub from_http : Result Distributor.Error (Unit {0}) → Result Failure (Unit {0})
from_http (ok tt) = ok tt
from_http (err e) = err (of_http e)

-- `if err != nil { return err }` behind a call that reads JSON.
infixl 5 ◌andthen◌
abbrev pub ◌andthen◌ :
    {A B : Type 0} → Result Json.Error A → (A → Result Failure B) → Result Failure B
ok a andthen f = f a
err e andthen f = err (of_json e)

abbrev pub gcm_url : Bytes
gcm_url = codes "https://gcm-http.googleapis.com/gcm/send"

-- The document that is sent, put together as text.
unfoldable pub gcm_text : (endpoint title body type payload : Bytes) → Bytes
gcm_text endpoint title body type payload =
    codes "{\n  \t\t\"to\" : \"/topics/"
    ++ (endpoint
        ++ (codes "\",\n  \t\t\"priority\": \"high\",\n  \t\t\"data\" : {\n  \t\t\"title\": \""
            ++ (title
                ++ (codes "\",\n    \t\"message\" : \""
                    ++ (body
                        ++ (codes "\",\n    \t\"payload\": {\"type\": \""
                            ++ (type
                                ++ (codes "\", \"data\": "
                                    ++ (payload
                                        ++ (codes
                                              "}\n  \t\t},\n  \t\t\"notification\" : {\n    \t\"title\": \""
                                            ++ (title
                                                ++ (codes "\",\n    \t\"body\" : \""
                                                    ++ (body
                                                        ++ (codes
                                                            "\",\n    \t\"badge\": \"1\",\n    \t\"sound\": \"default\",\n    \t\"payload\": {\"type\": \""
                                                            ++ (type
                                                            ++ (codes "\", \"data\": "
                                                            ++ (payload
                                                            ++ codes
                                                            "}\n  \t\t}\n\t}")))))))))))))))))

abbrev pub is_nil : {E A : Type 0} → Result E A → Bool
is_nil (ok a) = true
is_nil (err e) = false

module _ (services : Services) where
  -- `Object.String`
  abbrev pub object_string : Object → Bytes
  object_string o = services.marshal o.value.contents

  abbrev pub gcm_post : Bytes → Post
  gcm_post msg = record {
    url = gcm_url;
    headers =
        (codes "Content-Type", codes "application/json")
        ∷ (codes "Authorization", codes "key")
        ∷ (codes "Powered-By", codes "GrandmaSchedulerServices")
        ∷ [];
    basic_auth = none;
    body = msg;
  }

  unfoldable pub send_gcm_call : Bytes → Result Distributor.Error (Unit {0})
  send_gcm_call msg =
      if services.http.is_request (codes "POST") gcm_url
      then answered (services.post (gcm_post msg))
      else err invalid_endpoint_or_body

  unfoldable pub send_gcm_push_notification : Bytes → Bytes → Result Failure (Unit {0})
  send_gcm_push_notification endpoint message =
      object_from_value (services.decode message) andthen λ msg.
      get_string msg (codes "type" ∷ []) andthen λ msg_type.
      get_string msg (codes "title" ∷ []) andthen λ msg_title.
      get_string msg (codes "body" ∷ []) andthen λ msg_body.
      get_object msg (codes "payload" ∷ []) andthen λ msg_data.
      from_http
        (send_gcm_call (gcm_text endpoint msg_title msg_body msg_type (object_string msg_data)))

  abbrev pub twilio_url : Bytes
  twilio_url =
      codes "https://api.twilio.com/2010-04-01/Accounts/"
      ++ (services.account_sid ++ codes "/Messages.json")

  abbrev pub sms_post : Bytes → Bytes → Post
  sms_post endpoint msg = record {
    url = twilio_url;
    headers =
        (codes "Accept", codes "application/json")
        ∷ (codes "Content-Type", codes "application/x-www-form-urlencoded")
        ∷ [];
    basic_auth = some (services.account_sid, services.auth_token);
    body =
        services.encode (
          (codes "To", endpoint) ∷ (codes "From", codes "+14152149780") ∷ (codes "Body", msg) ∷ []);
  }

  -- The error of the call is dropped: without an answer, its status is read of a nil pointer.
  unfoldable pub sms_answered : Option ℕ → Outcome (Result Distributor.Error (Unit {0}))
  sms_answered none = panic
  sms_answered (some status) = done (if status == 200 then ok tt else err improper_response)

  unfoldable pub send_sms_message : Bytes → Bytes → Outcome (Result Distributor.Error (Unit {0}))
  unfolding sms_answered
  send_sms_message endpoint msg =
      if services.http.is_request (codes "POST") twilio_url
      then sms_answered (services.post (sms_post endpoint msg))
      else done (err network_disconnect)

  unfoldable pub send_email_msg : Bytes → Bytes → Result Failure (Unit {0})
  send_email_msg endpoint message =
      let mail : Mail = record {
        addr = codes "email";
        from = codes "toemail";
        to = endpoint ∷ [];
        content = codes "To: " ++ (endpoint ++ (codes "\r\n" ++ message));
      } in
      if services.send_mail mail then ok tt else err of_mail

  -- The goroutine of a job, to its end: nothing reads what its sender returns, here whether that is
  -- a nil error. A panic of it ends the program. A message for connections waits for each of them;
  -- `fine` says which of their writes succeed.
  unfoldable pub hand_to :
      (ℕ → Bool)
      → Bytes
      → Sockets
      → Result Distributor.Error (Option (List Connection))
      → Outcome (Bool × Sockets)
  hand_to fine msg ss (err e) = done (false, ss)
  hand_to fine msg ss (ok none) = done (false, ss)
  hand_to fine msg ss (ok (some conns)) = hand_over fine msg conns ss >>= λ ss'. done (true, ss')

  unfoldable pub run_job : (ℕ → Bool) → ConnMap → Sockets → Job → Outcome (Bool × Sockets)
  unfolding hand_to
  run_job fine m ss (rest_call endpoint msg) =
      done (is_nil (send_rest_call services.http endpoint msg), ss)
  run_job fine m ss (web_socket_msg endpoint msg) =
      hand_to fine msg ss (send_web_socket_msg endpoint m)
  run_job fine m ss (sms_message endpoint msg) =
      send_sms_message endpoint msg >>= λ r. done (is_nil r, ss)
  run_job fine m ss (gcm_push_notification endpoint msg) =
      done (is_nil (send_gcm_push_notification endpoint msg), ss)
  run_job fine m ss (email_msg endpoint msg) = done (is_nil (send_email_msg endpoint msg), ss)

  -- What becomes of a message that is taken from the queue; `none` where its type has no sender.
  unfoldable pub deliver : (ℕ → Bool) → ConnMap → Sockets → Obj → Outcome (Option Bool × Sockets)
  deliver fine m ss msg = elim (dispatch msg) [
    | none ↦ done (none, ss)
    | some job ↦ run_job fine m ss job >>= λ r. done (some r.0, r.1)
  ]
