-- ===== src/Tests/Requests.antt =====
-- HTTP requests and batches of calls.
use grandma_scheduling_servi.Prelude.{ℕ, ◌+◌, ◌≡◌, ◌⊎◌, refl, Bool, false, [], ◌∷◌, some, done, ok}
use grandma_scheduling_servi.Prelude.Int.{pos}
use grandma_scheduling_servi.Prelude.Text.{Bytes, codes, bytes_eq}
use grandma_scheduling_servi.Message.{Obj, new_message_object}
use grandma_scheduling_servi.Strconv.{parse_int}
use grandma_scheduling_servi.Json
use grandma_scheduling_servi.Json.{
  Json, Object, child, text, number, array, object, field, end, nil, cons, as_string, as_int64,
  as_array,
}
use grandma_scheduling_servi.Server.{Request, Library, handler, answer}
use grandma_scheduling_servi.Server.Answers.{Passes, Refuses, handler-Passes}
use grandma_scheduling_servi.Mapping.{
  MappingCall, make, new_payloads, process_separate_payload, get_payload, result_org,
  get_result_org_method, trigger, get_trigger_method, parse_mapping,
}
use grandma_scheduling_servi.Mapping.Batch.{payload_of}

abbrev pub document : Json
document = object (
    field (codes "type") (number (codes "107")) (
      field (codes "endpoint") (text (codes "GET x y")) (
        field (codes "message") (text (codes "hi"))
          (field (codes "expiration") (number (codes "5000")) end))))

-- Every body decodes to the same document, and the state counts the messages.
abbrev library : Library ℕ
library = record {
  decode = λ body. ok (child document);
  mac = λ s. s;
  fprintf = λ s. s;
  dist_calls = λ obj n. done (ok (pos n), n + 1);
}

abbrev signed : Bytes → Request
signed token = record {
  method = codes "POST";
  time = codes "1";
  token = token;
  body = some (codes "{}");
}

abbrev sent : Obj
sent = record {
  message_type = pos 107;
  endpoint = codes "GET x y";
  message_body = codes "hi";
  expiration = pos 5000;
}

handler-scheduled :
    handler library (signed (codes "test")) 3 ≡ done (answer library sent (ok (pos 3)), 4)
unfolding handler bytes_eq as_int64 parse_int as_string new_message_object
handler-scheduled = refl

handler-Passes_example :
    Passes library (signed (codes "test")) 3 ⊎ Refuses library (signed (codes "test")) 3
handler-Passes_example = handler-Passes library (signed (codes "test")) 3

-- The body of a request that asks for two calls.
abbrev asked : Json
asked = object (
    field (codes "num_petition") (number (codes "2")) (
      field (codes "payload")
        (object (
          field (codes "type") (text (codes "separate_data")) (
            field (codes "payloads") (array (cons (text (codes "a")) (cons (text (codes "b")) nil)))
              end)))
        (field (codes "result") (text (codes "all"))
          (field (codes "trigger") (text (codes "none")) end))))

-- No text is a URL.
abbrev no_urls : Bytes → Bool
no_urls t = false

abbrev read_call : MappingCall
read_call = record {
  payloads = payload_of false (codes "a") ∷ payload_of false (codes "b") ∷ [];
  resorg = result_org (codes "all");
  trigger_mtd = trigger (codes "none");
}

parse_mapping-asked : parse_mapping no_urls (ok (child asked)) ≡ done (ok read_call)
unfolding parse_mapping get_payload process_separate_payload new_payloads make get_result_org_method
    get_trigger_method result_org trigger bytes_eq as_int64 parse_int as_string as_array
parse_mapping-asked = refl
