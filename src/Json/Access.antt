-- ===== src/Json/Access.antt =====
-- src/jsonwrapper/jsonwrapper.go: the text of JSON, and numbers as floats. encoding/json and strconv
-- are parameters: the decoder, the coder, and the float that a number is read as, if it is one.
use grandma_scheduling_servi.Prelude.{List, Option, none, some, Result, ok, err}
use grandma_scheduling_servi.Prelude.Text.{Bytes}
use grandma_scheduling_servi.Prelude.Results.{◌>>=◌}
use grandma_scheduling_servi.Json.{
  Json, Error, number_range, Value, Object, as_number, get_path, get_array, object_from_value,
}

-- `Object.Map` and `Value.Interface`
abbrev pub map_of : Object → List (Bytes × Value)
map_of o = o.m

abbrev pub interface : Value → Json
interface v = v.contents

-- A reader is what it reads.
module _ (decode : Bytes → Result Error Value) where
  unfoldable pub new_value_from_bytes : Bytes → Result Error Value
  new_value_from_bytes b = decode b

  unfoldable pub new_object_from_bytes : Bytes → Result Error Object
  unfolding new_value_from_bytes
  new_object_from_bytes b = object_from_value (new_value_from_bytes b)

module _ {F : Type 0} (parse_float : Bytes → Option F) where
  unfoldable pub as_float64 : Value → Result Error F
  as_float64 v =
      as_number v >>= λ n. elim (parse_float n) [ none ↦ err number_range | some f ↦ ok f ]

  unfoldable pub get_float64 : Object → List Bytes → Result Error F
  unfolding as_float64
  get_float64 o keys = get_path o.value keys >>= as_float64

  unfoldable pub get_float64_array : Object → List Bytes → Result Error (List F)
  unfolding as_float64
  get_float64_array o keys = get_array o keys as_float64
