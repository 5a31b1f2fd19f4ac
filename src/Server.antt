-- ===== src/Server.antt =====
-- routes.go and src/signature/signature.go: the HTTP handler. The JSON decoder, the MAC of a token,
-- Fprintf of a text without arguments and what becomes of a message (`dist_calls`, on a state `S`)
-- are parameters. Headers and logs are left out.
pub mod Answers
pub mod Scheduling
pub mod Main
use grandma_scheduling_servi.Prelude.{
  ℕ, ◌/◌, Bool, true, false, List, [], ◌∷◌, ◌++◌, Option, none, some, if◌then◌else◌, Outcome, done,
  Result, ok, err, ◌>>=◌,
}
use grandma_scheduling_servi.Prelude.Int.{ℤ, pos}
use grandma_scheduling_servi.Prelude.Text.{Bytes, codes, bytes_eq}
use grandma_scheduling_servi.Strconv.{itoa}
use grandma_scheduling_servi.Message
use grandma_scheduling_servi.Message.{Obj, new_message_object, newline}
use grandma_scheduling_servi.Json
use grandma_scheduling_servi.Json.{Value, Object, get_int64, get_string, object_from_value}

-- `body` is `none` where reading it fails.
pub record Request : Type 0 where
  pub method : Bytes
  pub time : Bytes
  pub token : Bytes
  pub body : Option Bytes

pub record Response : Type 0 where
  pub status : ℕ
  pub text : Bytes

-- `conf.GetRestSecret()` and hmac, sha256, hex and base64 together are `mac`.
pub record Library (S : Type 0) : Type 0 where
  pub decode : Bytes → Result Json.Error Value
  pub mac : Bytes → Bytes
  pub fprintf : Bytes → Bytes
  pub dist_calls : Obj → S → Outcome (Result Bytes ℤ × S)

-- Of the clock's nanoseconds; nothing calls it.
unfoldable pub time_stamp : ℕ → Bytes
time_stamp now = itoa (pos (now / 1000000))

unfoldable pub error_text : Message.Error → Bytes
error_text Message.invalid_type = codes "Type not exists"
error_text Message.expiration_too_big = codes "Expiration time too big"
error_text Message.negative_expiration = codes "Negative expiration time"
error_text Message.no_endpoint = codes "No endpoint provided"
error_text Message.algorithm_not_supported = codes "Algorithm not supported"

-- A chain of calls, of which each has its own answer to an error.
infixl 5 ◌or◌then◌
abbrev ◌or◌then◌ {ℓ} :
    {E A : Type 0} {B : Type ℓ}
    → Result E A
    → (E → Response)
    → (A → Result Response B)
    → Result Response B
ok a or answer then f = f a
err e or answer then f = err (answer e)

module _ {S : Type 0} (lib : Library S) where
  unfoldable pub vtoken : Bytes → Bytes → Bytes → Bytes
  vtoken method time path = lib.mac (method ++ (newline ++ (time ++ (newline ++ path))))

  abbrev pub failure : ℕ → Bytes → Response
  failure status msg = record {
    status = status;
    text = lib.fprintf (codes "{\"failure\":{\"msg\":\"" ++ (msg ++ codes "\"}}"));
  }

  abbrev pub bad_request : Response
  bad_request = failure 400 (codes "Bad request")

  -- The message in an authorized body, or the answer that refuses it.
  unfoldable pub read_message : Bytes → Result Response Obj
  unfolding object_from_value get_int64 get_string error_text
  read_message body = object_from_value (lib.decode body) or (λ e. bad_request) then λ json.
      get_int64 json (codes "type" ∷ []) or (λ e. bad_request) then λ m_type.
      get_string json (codes "endpoint" ∷ []) or (λ e. bad_request) then λ endpoint.
      get_string json (codes "message" ∷ []) or (λ e. bad_request) then λ msg.
      get_int64 json (codes "expiration" ∷ []) or (λ e. bad_request) then λ exp.
      new_message_object m_type endpoint msg exp or (λ e. failure 400 (error_text e)) then ok

  -- The answer to what `DistCalls` returned.
  unfoldable pub answer : Obj → Result Bytes ℤ → Response
  answer obj (err e) = failure 400 e
  answer obj (ok id) = record {
    status = 200;
    text = lib.fprintf (
        codes "{\"success\":{\"msg\": \"Message to "
        ++ (obj.endpoint ++ codes " scheduled successfully\"}}"));
  }

  unfoldable pub distribute : Result Response Obj → S → Outcome (Response × S)
  unfolding answer
  distribute (err refusal) st = done (refusal, st)
  distribute (ok obj) st = lib.dist_calls obj st >>= λ r. done (answer obj r.0, r.1)

  -- The token of the request is computed, and then overwritten by "test".
  unfoldable pub handle_body : Request → Bytes → S → Outcome (Response × S)
  unfolding vtoken read_message distribute
  handle_body r body st =
      let computed = vtoken (codes "POST") r.time body in
      let to_compare = codes "test" in
      if bytes_eq r.token to_compare then distribute (read_message body) st else done
        (failure 403 (codes "Not authorized"), st)

  unfoldable pub handler : Request → S → Outcome (Response × S)
  unfolding handle_body
  handler r st =
      let handled : Outcome (Response × S) = elim r.body [
        | none ↦ done (bad_request, st)
        | some body ↦ handle_body r body st
      ] in
      if bytes_eq r.method (codes "POST") then handled else done (bad_request, st)
