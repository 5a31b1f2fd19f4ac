-- ===== src/Mapping/Parse.antt =====
-- `ParseMapping` as a whole: which documents describe a batch of calls.
use grandma_scheduling_servi.Prelude.{
  ℕ, ◌≡◌, Bool, List, [], ◌∷◌, some, length, map, All, if◌then◌else◌,
}
use grandma_scheduling_servi.Prelude.Int.{pos}
use grandma_scheduling_servi.Prelude.Text.{Bytes, codes}
use grandma_scheduling_servi.Json
use grandma_scheduling_servi.Json.{Json, Fields, array, object, text}
use grandma_scheduling_servi.Json.Path.{at}
use grandma_scheduling_servi.Json.Arrays.{texts}
use grandma_scheduling_servi.Json.Getters.{IsInt}
use grandma_scheduling_servi.Mapping.{Payload, MappingCall, result_org, trigger}
use grandma_scheduling_servi.Mapping.Batch.{payload_of, IsUsable}

-- The type of a payload that makes a batch.
abbrev pub type_text : Bool → Bytes
type_text isurl = if isurl then codes "separate_file" else codes "separate_data"

-- A payload that describes the batch `ps` of `n`.
pub record IsBatch (url_parses : Bytes → Bool) (payload : Json) (n : ℕ) (ps : List Payload)
    : Type 0 where
  pub isurl : Bool
  pub typed : at payload (codes "type" ∷ []) ≡ some (text (type_text isurl))
  pub items : List Bytes
  pub listed : at payload (codes "payloads" ∷ []) ≡ some (array (texts items))
  pub counted : length items ≡ n
  pub made : ps ≡ map (payload_of isurl) items
  pub usable : All (IsUsable url_parses isurl) items

-- A document that describes a call.
pub record Describes (url_parses : Bytes → Bool) (root : Json) (call : MappingCall) : Type 0 where
  pub size : ℕ
  pub count : Json
  pub num_petition : at root (codes "num_petition" ∷ []) ≡ some count
  pub sized : IsInt (pos size) count
  pub fields : Fields
  pub payload : at root (codes "payload" ∷ []) ≡ some (object fields)
  pub batch : IsBatch url_parses (object fields) size call.payloads
  pub result : Bytes
  pub result_there : at root (codes "result" ∷ []) ≡ some (text result)
  pub result_read : call.resorg ≡ result_org result
  pub method : Bytes
  pub trigger_there : at root (codes "trigger" ∷ []) ≡ some (text method)
  pub trigger_read : call.trigger_mtd ≡ trigger method
