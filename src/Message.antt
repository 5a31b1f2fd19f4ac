-- ===== src/Message.antt =====
-- src/message/message.go and utils.go: the message object, its checks, its payload on the wire and
-- its hash. `A × error` results are `Result`; the hash functions of crypto are a parameter.
pub mod Valid
pub mod Payload
pub mod Hash
use grandma_scheduling_servi.Prelude.{
  ◌+◌, ◌*◌, Bool, true, false, ◌||◌, List, [], ◌∷◌, ◌++◌, ◌==◌, if◌then◌else◌, Outcome, done, panic,
  Result, ok, err,
}
use grandma_scheduling_servi.Prelude.Int.{ℤ, pos, ltb_ℤ, ◌=ℤ◌}
use grandma_scheduling_servi.Prelude.Text.{Bytes}
use grandma_scheduling_servi.Strconv.{itoa, parse_int, split}

pub record Obj : Type 0 where
  pub message_type : ℤ
  pub endpoint : Bytes
  pub message_body : Bytes
  pub expiration : ℤ

pub data Error : Type 0 where
  invalid_type : Error
  expiration_too_big : Error
  negative_expiration : Error
  no_endpoint : Error
  algorithm_not_supported : Error

-- 90 days in milliseconds.
abbrev pub max_expiration : ℤ
max_expiration = pos (90 * 24 * 60 * 60 * 1000)

abbrev is_nil : Bytes → Bool
is_nil [] = true
is_nil (c ∷ s) = false

unfoldable pub new_message_object : ℤ → Bytes → Bytes → ℤ → Result Error Obj
new_message_object msg_type endpoint msg_body exp_time =
    if is_nil endpoint
    then err no_endpoint
    else if ltb_ℤ max_expiration exp_time
    then err expiration_too_big
    else if ltb_ℤ exp_time (pos 0)
    then err negative_expiration
    else if ltb_ℤ (pos 109) msg_type || ltb_ℤ msg_type (pos 100)
    then err invalid_type
    else ok (record {
      message_type = msg_type;
      endpoint = endpoint;
      message_body = msg_body;
      expiration = exp_time;
    })

abbrev pub newline : Bytes
newline = b'\n' ∷ []

unfoldable pub get_message_payload : Obj → Bytes
get_message_payload o =
    itoa o.message_type
    ++ (newline ++ (o.endpoint ++ (newline ++ (o.message_body ++ (newline ++ itoa o.expiration)))))

-- The parts of a payload: fewer than four make an index panic, and the fifth and later are not
-- read. The errors of `Atoi` and `ParseInt` are dropped.
from_parts : List Bytes → Outcome (Result Error Obj)
from_parts (t ∷ endpoint ∷ body ∷ x ∷ more) =
    done (new_message_object (parse_int t).0 endpoint body (parse_int x).0)
from_parts _ = panic

unfoldable pub new_message_from_payload : Bytes → Outcome (Result Error Obj)
unfolding from_parts
new_message_from_payload payload = from_parts (split payload b'\n')

-- `getMD5Hash`, `getSHA1Hash` and `getSHA256Hash`.
pub record Hashes : Type 0 where
  pub md5 : Bytes → Bytes
  pub sha1 : Bytes → Bytes
  pub sha256 : Bytes → Bytes

abbrev pub hashed_text : Obj → Bytes
hashed_text o = o.endpoint ++ (newline ++ o.message_body)

unfoldable pub get_message_hashing : Hashes → Obj → ℤ → Result Error Bytes
get_message_hashing h o algorithm =
    if algorithm =ℤ pos 203
    then ok (h.md5 (hashed_text o))
    else if algorithm =ℤ pos 201
    then ok (h.sha1 (hashed_text o))
    else if algorithm =ℤ pos 202
    then ok (h.sha256 (hashed_text o))
    else err algorithm_not_supported
