-- ===== src/Message/Payload.antt =====
-- `GetMessagePayload` against `NewMessageFromPayload`: the round trip of a message to a slave.
use grandma_scheduling_servi.Prelude.{◌≡◌, refl, ◌∙◌, ap, ◌∷◌, ◌++◌, arith, done, ok, append_assoc}
use grandma_scheduling_servi.Prelude.Int.{ℤ}
use grandma_scheduling_servi.Prelude.Text.{Bytes, Lacks}
use grandma_scheduling_servi.Strconv.{itoa, parse_int, split}
use grandma_scheduling_servi.Strconv.Decimal.{IsInt64, parse_int-itoa, itoa-Lacks}
use grandma_scheduling_servi.Strconv.Parts.{split-append, split-Lacks, before, split-before}
use grandma_scheduling_servi.Message.{
  Obj, newline, new_message_object, get_message_payload, from_parts, new_message_from_payload,
}
use grandma_scheduling_servi.Message.Valid.{IsValid, new_message_object-ok_iff}

-- The first two fields of a payload are read back, whatever follows.
read_head :
    (t : ℤ) (endpoint s : Bytes)
    → Lacks b'\n' endpoint
    → new_message_from_payload (itoa t ++ (newline ++ (endpoint ++ (newline ++ s))))
      ≡ from_parts (itoa t ∷ endpoint ∷ split s b'\n')
unfolding new_message_from_payload
read_head t endpoint s h = ap from_parts (
    split-append (itoa t) (endpoint ++ (newline ++ s)) b'\n' (itoa-Lacks t)
    ∙ ap (λ ps. itoa t ∷ ps) (split-append endpoint s b'\n' h))

IsValid-IsInt64 : (o : Obj) → IsValid o → IsInt64 o.message_type × IsInt64 o.expiration
IsValid-IsInt64 o v = ground arith

-- A valid message whose endpoint and body hold no newline arrives at the slave as it was sent.
pub new_message_from_payload-get_message_payload :
    (o : Obj)
    → IsValid o
    → Lacks b'\n' o.endpoint
    → Lacks b'\n' o.message_body
    → new_message_from_payload (get_message_payload o) ≡ done (ok o)
unfolding get_message_payload from_parts
new_message_from_payload-get_message_payload o v he hb =
    let fits = IsValid-IsInt64 o v in
    rw
      (
        read_head o.message_type o.endpoint _ he,
        split-append o.message_body _ b'\n' hb,
        split-Lacks (itoa o.expiration) b'\n' (itoa-Lacks o.expiration),
        parse_int-itoa o.message_type fits.0,
        parse_int-itoa o.expiration fits.1,
      )
      (ap done ((new_message_object-ok_iff _ _ _ _ o).1 (refl, v)))

-- A message whose body holds a newline is cut there: the slave takes the first line for the body,
-- and the text up to the next newline for the expiration.
pub new_message_from_payload-cut :
    (o : Obj) (first rest : Bytes)
    → IsInt64 o.message_type
    → Lacks b'\n' o.endpoint
    → Lacks b'\n' first
    → o.message_body ≡ first ++ (newline ++ rest)
    → new_message_from_payload (get_message_payload o)
      ≡ done (
          new_message_object o.message_type o.endpoint first
            (parse_int (before (rest ++ (newline ++ itoa o.expiration)) b'\n')).0)
unfolding get_message_payload from_parts
new_message_from_payload-cut o first rest fits he hf e =
    let tail = rest ++ (newline ++ itoa o.expiration) in
    let (ps, cut) = split-before tail b'\n' in
    rw (
      e,
      append_assoc first (newline ++ rest) (newline ++ itoa o.expiration),
      read_head o.message_type o.endpoint _ he,
      split-append first tail b'\n' hf,
      cut,
      parse_int-itoa o.message_type fits,
    )
