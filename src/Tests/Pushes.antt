-- ===== src/Tests/Pushes.antt =====
-- Text messages and push notifications.
use grandma_scheduling_servi.Prelude.{
  [], ℕ, Bool, ◌≡◌, ◌↔◌, refl, true, false, none, some, panic, ok,
}
use grandma_scheduling_servi.Prelude.Int.{pos}
use grandma_scheduling_servi.Prelude.Text.{codes, bytes_eq}
use grandma_scheduling_servi.Json.{
  Json, child, text, object, field, end, get_string, get_object, as_string, as_object,
  object_from_value,
}
use grandma_scheduling_servi.Message.{Obj}
use grandma_scheduling_servi.Ws.{ConnMap}
use grandma_scheduling_servi.Ws.Sockets.{Sockets}
use grandma_scheduling_servi.Distributor.{dispatch, answered}
use grandma_scheduling_servi.Distributor.Services.{
  Services, from_http, gcm_text, send_gcm_call, send_gcm_push_notification, sms_answered,
  send_sms_message, run_job, deliver,
}
use grandma_scheduling_servi.Distributor.Services.Crash.{IsUnanswered, deliver-panic_iff}

abbrev note : Json
note = object (
    field (codes "type") (text (codes "t")) (
      field (codes "title") (text (codes "Hello"))
        (field (codes "body") (text (codes "hi")) (field (codes "payload") (object end) end))))

-- Every push is taken, and no text message is answered.
abbrev services : Services
services = record {
  http = record {
    is_request = λ method url. true;
    do_request = λ method url content_type msg. none;
  };
  post = λ p. elim p.basic_auth [ none ↦ some 200 | some account ↦ none ];
  encode = λ values. codes "To=x";
  decode = λ message. ok (child note);
  marshal = λ j. codes "{}";
  send_mail = λ mail. false;
  account_sid = codes "A";
  auth_token = codes "T";
}

abbrev nobody : ConnMap
nobody = λ id. none

abbrev all_fine : ℕ → Bool
all_fine = λ p. true

abbrev all_beat : Sockets
all_beat = λ p. record { beats = true; closed = false; written = [] }

abbrev due : Obj
due = record {
  message_type = pos 109;
  endpoint = codes "x";
  message_body = codes "hi";
  expiration = pos 0;
}

deliver-due : deliver services all_fine nobody all_beat due ≡ panic
unfolding deliver dispatch run_job send_sms_message sms_answered
deliver-due = refl

deliver-panic_iff_example :
    (deliver services all_fine nobody all_beat due ≡ panic)
    ↔ ((due.message_type ≡ pos 109) × IsUnanswered services due.endpoint due.message_body)
deliver-panic_iff_example = deliver-panic_iff services all_fine nobody all_beat due

send_gcm_push_notification-note :
    send_gcm_push_notification services (codes "news") (codes "{}") ≡ ok tt
unfolding send_gcm_push_notification send_gcm_call from_http gcm_text answered object_from_value
    as_object get_string get_object as_string bytes_eq
send_gcm_push_notification-note = refl
