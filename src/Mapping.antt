-- ===== src/Mapping.antt =====
-- src/mapping/mapping.go and payload.go: a batch of calls read from JSON. `url.Parse` is a
-- parameter: whether it accepts a text. What decodes the input is too, since `ParseMapping` reads
-- it. A pointer to a `Payload` is an `Option` while it may be nil; the entries of a result are not.
pub mod Batch
pub mod Parse
use grandma_scheduling_servi.Prelude.{
  ℕ, zero, suc, Bool, true, false, List, [], ◌∷◌, Option, none, some, if◌then◌else◌, Outcome, done,
  panic, Result, ok, err, ◌>>=◌, length, ◌==◌, replicate,
}
use grandma_scheduling_servi.Prelude.Int.{ℤ, pos, negsuc}
use grandma_scheduling_servi.Prelude.Text.{Bytes, codes, bytes_eq}
use grandma_scheduling_servi.Json
use grandma_scheduling_servi.Json.{
  Value, Object, get_int64, get_string, get_object, get_string_array, object_from_value,
}

pub data Error : Type 0 where
  json_error : Json.Error → Error
  invalid_payload : Error
  wrong_payload_size : Error

pub record Payload : Type 0 where
  pub urldata : Bool
  pub url : Bytes
  pub data_text : Bytes

pub record MappingCall : Type 0 where
  pub payloads : List Payload
  pub resorg : ℤ
  pub trigger_mtd : ℤ

-- `if err != nil { return nil, err }` behind a call that reads JSON, and behind one that may panic.
infixl 5 ◌andthen◌ ◌ending◌
abbrev pub ◌andthen◌ {ℓ} :
    {A : Type 0} {B : Type ℓ}
    → Result Json.Error A
    → (A → Outcome (Result Error B))
    → Outcome (Result Error B)
ok a andthen f = f a
err e andthen f = done (err (json_error e))

abbrev pub ◌ending◌ {ℓ} :
    {A : Type 0} {B : Type ℓ}
    → Outcome (Result Error A)
    → (A → Outcome (Result Error B))
    → Outcome (Result Error B)
r ending f = r >>= λ x. elim x [ ok a ↦ f a | err e ↦ done (err e) ]

-- `make([]*Payload, size)` panics for a negative size (what memory cannot hold is left out).
unfoldable pub make : ℤ → Outcome ℕ
make (pos n) = done n
make (negsuc n) = panic

unfoldable pub process_single_payload : Option Payload → ℤ → Outcome (Result Error (List Payload))
unfolding make
process_single_payload none size = done (err invalid_payload)
process_single_payload (some p) size = make size >>= λ n. done (ok (replicate n p))

module _ (url_parses : Bytes → Bool) where
  -- The loop: `payloads[i]` for each text.
  unfoldable pub new_payloads : Bool → List Bytes → Result Error (List Payload)
  new_payloads isurl [] = ok []
  new_payloads isurl (t ∷ ts) =
      let rest = new_payloads isurl ts in
      let cons : Payload → Result Error (List Payload) =
        λ p. elim rest [ ok ps ↦ ok (p ∷ ps) | err e ↦ err e ] in
      if isurl
      then (if url_parses t
          then cons (record { urldata = true; url = t; data_text = [] })
          else err invalid_payload)
      else cons (record { urldata = false; url = []; data_text = t })

  unfoldable pub process_separate_payload :
      Object → ℤ → Bool → Outcome (Result Error (List Payload))
  unfolding make get_string_array new_payloads
  process_separate_payload p size isurl = make size >>= λ n.
      get_string_array p (codes "payloads" ∷ []) andthen λ json_payloads.
      if length json_payloads == n
      then done (new_payloads isurl json_payloads)
      else done (err wrong_payload_size)

  -- In both `single` cases `p` is declared and never made, and the write to its field panics.
  unfoldable pub single_file : Object → ℤ → Outcome (Result Error (List Payload))
  unfolding get_string
  single_file payload size = get_string payload (codes "url" ∷ []) andthen λ urlpath.
      if url_parses urlpath then panic else done (err invalid_payload)

  unfoldable pub single_data : Object → ℤ → Outcome (Result Error (List Payload))
  unfolding get_string
  single_data payload size = get_string payload (codes "data" ∷ []) andthen λ text.
      if bytes_eq text [] then done (err invalid_payload) else panic

  unfoldable pub get_payload : Object → ℤ → Outcome (Result Error (List Payload))
  unfolding get_string single_file single_data process_separate_payload
  get_payload payload size = get_string payload (codes "type" ∷ []) andthen λ t.
      if bytes_eq t (codes "single_file")
      then single_file payload size
      else if bytes_eq t (codes "separate_file")
      then process_separate_payload payload size true
      else if bytes_eq t (codes "single_data")
      then single_data payload size
      else if bytes_eq t (codes "separate_data")
      then process_separate_payload payload size false
      else done (err invalid_payload)

-- `switch r` with its default, 0.
unfoldable pub result_org : Bytes → ℤ
result_org r =
    if bytes_eq r (codes "none")
    then pos 0
    else if bytes_eq r (codes "combined")
    then pos 1
    else if bytes_eq r (codes "separated")
    then pos 2
    else pos 0

unfoldable pub get_result_org_method : Object → Outcome (Result Error ℤ)
unfolding get_string result_org
get_result_org_method json =
    get_string json (codes "result" ∷ []) andthen λ r. done (ok (result_org r))

unfoldable pub trigger : Bytes → ℤ
trigger t =
    if bytes_eq t (codes "none")
    then pos 100
    else if bytes_eq t (codes "email")
    then pos 106
    else if bytes_eq t (codes "sms")
    then pos 109
    else if bytes_eq t (codes "rest")
    then pos 107
    else if bytes_eq t (codes "push")
    then pos 102
    else pos 100

unfoldable pub get_trigger_method : Object → Outcome (Result Error ℤ)
unfolding get_string trigger
get_trigger_method json = get_string json (codes "trigger" ∷ []) andthen λ t. done (ok (trigger t))

abbrev pub create_mapping_call : List Payload → ℤ → ℤ → MappingCall
create_mapping_call payloads result trigger_method = record {
  payloads = payloads;
  resorg = result;
  trigger_mtd = trigger_method;
}

unfoldable pub parse_mapping :
    (Bytes → Bool) → Result Json.Error Value → Outcome (Result Error MappingCall)
unfolding object_from_value get_int64 get_object get_payload get_result_org_method
    get_trigger_method
parse_mapping url_parses content = object_from_value content andthen λ json.
    get_int64 json (codes "num_petition" ∷ []) andthen λ num_petition.
    get_object json (codes "payload" ∷ []) andthen λ payload_obj.
    get_payload url_parses payload_obj num_petition ending λ payloads.
    get_result_org_method json ending λ result_method.
    get_trigger_method json ending λ trigger_method.
    done (ok (create_mapping_call payloads result_method trigger_method))
