-- ===== src/Tests/Messages.antt =====
-- Messages and their payloads.
use grandma_scheduling_servi.Prelude.{◌≡◌, ◌↔◌, refl, ◌++◌, done, panic, ok, arith}
use grandma_scheduling_servi.Prelude.Int.{pos}
use grandma_scheduling_servi.Prelude.Text.{codes}
use grandma_scheduling_servi.Strconv.{itoa, parse_int, split}
use grandma_scheduling_servi.Strconv.Parts.{before}
use grandma_scheduling_servi.Message.{
  Obj, newline, new_message_object, get_message_payload, new_message_from_payload, Hashes,
}
use grandma_scheduling_servi.Message.Valid.{IsValid, new_message_object-ok_iff}
use grandma_scheduling_servi.Message.Payload.{
  new_message_from_payload-get_message_payload, new_message_from_payload-cut,
}

abbrev hello : Obj
hello = record {
  message_type = pos 107;
  endpoint = codes "GET x y";
  message_body = codes "hi";
  expiration = pos 5000;
}

abbrev two_lines : Obj
two_lines = record hello { message_body = codes "hi\n12" }

hello-IsValid : IsValid hello
hello-IsValid = record {
  addressed = cc;
  not_negative = omega arith;
  within = omega arith;
  type_low = omega arith;
  type_high = omega arith;
}

short_payload : new_message_from_payload (codes "107\nGET") ≡ panic
unfolding new_message_from_payload split
short_payload = refl

new_message_object-ok_iff_example :
    (new_message_object (pos 107) (codes "GET x y") (codes "hi") (pos 5000) ≡ ok hello)
    ↔ ((hello ≡ hello) × IsValid hello)
new_message_object-ok_iff_example =
    new_message_object-ok_iff (pos 107) (codes "GET x y") (codes "hi") (pos 5000) hello

new_message_from_payload-get_message_payload_example :
    new_message_from_payload (get_message_payload hello) ≡ done (ok hello)
new_message_from_payload-get_message_payload_example =
    new_message_from_payload-get_message_payload hello hello-IsValid (omega arith) (omega arith)

new_message_from_payload-cut_example :
    new_message_from_payload (get_message_payload two_lines)
    ≡ done (
        new_message_object
          (pos 107)
          (codes "GET x y")
          (codes "hi")
          (parse_int (before (codes "12" ++ (newline ++ itoa (pos 5000))) b'\n')).0)
new_message_from_payload-cut_example =
    new_message_from_payload-cut two_lines (codes "hi") (codes "12") (omega arith) (omega arith)
      (omega arith) refl

abbrev identity : Hashes
identity = record { md5 = λ b. b; sha1 = λ b. b; sha256 = λ b. b }
