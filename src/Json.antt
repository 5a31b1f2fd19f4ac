-- ===== src/Json.antt =====
-- src/jsonwrapper/jsonwrapper.go: typed access to decoded JSON. Decoding itself is encoding/json's;
-- `Json` is what it leaves in an `interface{}`. A Go map is a list of entries, whose keys differ.
-- What goes through text, and floats, stands in Json.Access.
pub mod Path
pub mod Arrays
pub mod Getters
pub mod Root
pub mod Access
use grandma_scheduling_servi.Prelude.{
  ℕ, zero, suc, ◌+◌, Bool, true, false, List, [], ◌∷◌, if◌then◌else◌, Result, ok, err, length,
}
use grandma_scheduling_servi.Prelude.Int.{ℤ}
use grandma_scheduling_servi.Prelude.Text.{Bytes, bytes_eq}
use grandma_scheduling_servi.Prelude.Results.{◌>>=◌, collect}
use grandma_scheduling_servi.Strconv.{parse_int}

-- `number` holds the digits, as json.Number does.
mutual
  pub data Json : Type 0 where
    null : Json
    bool : Bool → Json
    number : Bytes → Json
    text : Bytes → Json
    array : Items → Json
    object : Fields → Json

  pub data Items : Type 0 where
    nil : Items
    cons : Json → Items → Items

  pub data Fields : Type 0 where
    end : Fields
    field : Bytes → Json → Fields → Fields

pub data Error : Type 0 where
  not_null : Error
  not_array : Error
  not_number : Error
  not_bool : Error
  not_object : Error
  not_string : Error
  key_not_found : Bytes → Error
  number_range : Error

pub record Value : Type 0 where
  pub contents : Json
  pub exists : Bool

-- The embedded `Value` of an object keeps `exists` at its zero value.
pub record Object : Type 0 where
  pub value : Value
  pub m : List (Bytes × Value)

abbrev pub child : Json → Value
child j = record { contents = j; exists = true }

pub children : Items → List Value
children nil = []
children (cons j js) = child j ∷ children js

pub entries : Fields → List (Bytes × Value)
entries end = []
entries (field k j fs) = (k, child j) ∷ entries fs

-- The conversions of a `Value`.
unfoldable pub as_null : Value → Result Error (Unit {0})
as_null v = elim v.contents [ null ↦ (if v.exists then ok tt else err not_null) | _ ↦ err not_null ]

unfoldable pub as_array : Value → Result Error (List Value)
unfolding children
as_array v = elim v.contents [ array js ↦ ok (children js) | _ ↦ err not_array ]

unfoldable pub as_number : Value → Result Error Bytes
as_number v = elim v.contents [ number n ↦ ok n | _ ↦ err not_number ]

unfoldable checked : ℤ × Bool → Result Error ℤ
checked (n, failed) = if failed then err number_range else ok n

unfoldable pub as_int64 : Value → Result Error ℤ
unfolding as_number checked
as_int64 v = do n ← as_number v; checked (parse_int n)

unfoldable pub as_boolean : Value → Result Error Bool
as_boolean v = elim v.contents [ bool b ↦ ok b | _ ↦ err not_bool ]

unfoldable pub as_object : Value → Result Error Object
unfolding entries
as_object v = elim v.contents [
  | object fs ↦
      ok (record { value = record { contents = object fs; exists = false }; m = entries fs })
  | _ ↦ err not_object
]

unfoldable pub as_string : Value → Result Error Bytes
as_string v = elim v.contents [ text s ↦ ok s | _ ↦ err not_string ]

unfoldable pub find_key : Bytes → List (Bytes × Value) → Result Error Value
find_key key [] = err (key_not_found key)
find_key key ((k, v) ∷ m) = if bytes_eq k key then ok v else find_key key m

unfoldable pub get : Value → Bytes → Result Error Value
unfolding as_object find_key
get v key = do o ← as_object v; find_key key o.m

unfoldable pub get_path : Value → List Bytes → Result Error Value
unfolding get
get_path v [] = ok v
get_path v (key ∷ keys) = do next ← get v key; get_path next keys

-- The getters of an `Object`: the value at a path, converted.
module _ (o : Object) (keys : List Bytes) where
  unfoldable pub get_value : Result Error Value
  unfolding get_path
  get_value = get_path o.value keys

  unfoldable pub get_object : Result Error Object
  unfolding get_path
  get_object = get_path o.value keys >>= as_object

  unfoldable pub get_string : Result Error Bytes
  unfolding get_path
  get_string = get_path o.value keys >>= as_string

  unfoldable pub get_null : Result Error (Unit {0})
  unfolding get_path
  get_null = get_path o.value keys >>= as_null

  unfoldable pub get_number : Result Error Bytes
  unfolding get_path
  get_number = get_path o.value keys >>= as_number

  unfoldable pub get_int64 : Result Error ℤ
  unfolding get_path
  get_int64 = get_path o.value keys >>= as_int64

  unfoldable pub get_interface : Result Error Json
  unfolding get_path
  get_interface = get_path o.value keys >>= λ v. ok v.contents

  unfoldable pub get_boolean : Result Error Bool
  unfolding get_path
  get_boolean = get_path o.value keys >>= as_boolean

  unfoldable pub get_value_array : Result Error (List Value)
  unfolding get_path as_array
  get_value_array = get_path o.value keys >>= as_array

  -- The loops over an array, which the source writes out in each getter.
  pub get_array : {A : Type 0} → (Value → Result Error A) → Result Error (List A)
  get_array convert = do v ← get_path o.value keys; items ← as_array v; collect convert items

  unfoldable pub get_object_array : Result Error (List Object)
  unfolding get_array
  get_object_array = get_array as_object

  unfoldable pub get_string_array : Result Error (List Bytes)
  unfolding get_array
  get_string_array = get_array as_string

  unfoldable pub get_number_array : Result Error (List Bytes)
  unfolding get_array
  get_number_array = get_array as_number

  unfoldable pub get_int64_array : Result Error (List ℤ)
  unfolding get_array
  get_int64_array = get_array as_int64

  unfoldable pub get_boolean_array : Result Error (List Bool)
  unfolding get_array
  get_boolean_array = get_array as_boolean

  -- How many nulls there are.
  unfoldable pub get_null_array : Result Error ℕ
  unfolding get_array
  get_null_array = get_array as_null >>= λ nulls. ok (length nulls)

-- `objectFromValue`, after the decoder.
unfoldable pub object_from_value : Result Error Value → Result Error Object
object_from_value r = r >>= as_object
