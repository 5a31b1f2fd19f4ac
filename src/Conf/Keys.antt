-- ===== src/Conf/Keys.antt =====
-- src/conf/config.go, `setKey`: the key of a configuration file that sets each variable.
use grandma_scheduling_servi.Prelude.{
  Bool, false, not, ◌||◌, List, [], ◌∷◌, ◌++◌, Option, none, some, if◌then◌else◌, Result, ok, err,
}
use grandma_scheduling_servi.Prelude.Int.{ℤ, pos, ltb_ℤ}
use grandma_scheduling_servi.Prelude.Text.{Bytes, codes, bytes_eq}
use grandma_scheduling_servi.Json
use grandma_scheduling_servi.Json.{
  Object, get_string, get_int64, get_boolean, get_string_array, get_int64_array,
}
use grandma_scheduling_servi.Conf.{
  Error, invalid_settings, unknown_config_key, underlying, Interface, int64, Settings,
  default_bind_port, default_grandma_name, default_network_port,
}

-- The constants CONF_MESSAGE_TYPES and so on that `setKey` knows.
pub data Key : Type 0 where
  message_types : Key
  bind_port : Key
  grandma_name : Key
  network_port : Key
  network_secret : Key
  schedule_ttl_max : Key
  slave_list : Key
  cluster_mode : Key
  queue_length : Key
  rest_sig_secret : Key

abbrev pub key_text : Key → Bytes
key_text message_types = codes "msg_type"
key_text bind_port = codes "bind_port"
key_text grandma_name = codes "name"
key_text network_port = codes "network_port"
key_text network_secret = codes "secret"
key_text schedule_ttl_max = codes "ttl_max"
key_text slave_list = codes "slave_list"
key_text cluster_mode = codes "cluster_mode"
key_text queue_length = codes "queue_length"
key_text rest_sig_secret = codes "rest_secret"

abbrev pub all_keys : List Key
all_keys =
    message_types ∷ bind_port ∷ grandma_name ∷ network_port ∷ network_secret ∷ schedule_ttl_max
    ∷ slave_list ∷ cluster_mode ∷ queue_length ∷ rest_sig_secret ∷ []

-- `switch key`
abbrev pub switch : Bytes → List Key → Option Key
switch key [] = none
switch key (k ∷ ks) = let rest = switch key ks in if bytes_eq key (key_text k) then some k else rest

unfoldable pub key_of : Bytes → Option Key
key_of key = switch key all_keys

-- What a getter returns beside its error: the zero of its type, where there is one.
abbrev pub value_or {ℓ} : {A : Type ℓ} → A → Result Json.Error A → A
value_or zero_value (ok a) = a
value_or zero_value (err e) = zero_value

abbrev pub error_of {ℓ} : {A : Type ℓ} → Result Json.Error A → Option Error
error_of (ok a) = none
error_of (err e) = some underlying

-- The loop over "msg_type": the list as far as it has come, where a type is out of range.
unfoldable pub push_types : List ℤ → List Interface → Option Error × List Interface
push_types [] l = (none, l)
push_types (e ∷ es) l =
    let rest = push_types es (l ++ (int64 e ∷ [])) in
    if ltb_ℤ (pos 109) e || ltb_ℤ e (pos 100) then (some unknown_config_key, l) else rest

unfoldable pub set_types : Result Json.Error (List ℤ) → Settings → Option Error × Settings
set_types (err e) s = (some underlying, s)
set_types (ok types) s =
    let pushed = push_types types [] in (pushed.0, record s { supported_messages = some pushed.1 })

unfoldable pub set_queue_length : Result Json.Error ℤ → Settings → Option Error × Settings
set_queue_length (err e) s = (some underlying, s)
set_queue_length (ok n) s =
    if ltb_ℤ (pos 1000000) n || ltb_ℤ n (pos 10)
    then (some invalid_settings, s)
    else (none, record s { queue_length = n })

unfoldable pub set_rest_secret : Result Json.Error Bytes → Settings → Option Error × Settings
set_rest_secret (err e) s = (some underlying, s)
set_rest_secret (ok secret) s = (none, record s { rest_secret = secret })

module _ (obj : Object) where
  -- `obj.GetString(CONF_…)` and so on: one key.
  abbrev pub string_of : Key → Result Json.Error Bytes
  string_of k = get_string obj (key_text k ∷ [])

  abbrev pub int64_of : Key → Result Json.Error ℤ
  int64_of k = get_int64 obj (key_text k ∷ [])

  abbrev pub types_of : Result Json.Error (List ℤ)
  types_of = get_int64_array obj (key_text message_types ∷ [])

  abbrev pub slaves_of : Result Json.Error (List Bytes)
  slaves_of = get_string_array obj (key_text slave_list ∷ [])

  abbrev pub mode_of : Result Json.Error Bool
  mode_of = get_boolean obj (key_text cluster_mode ∷ [])

  -- The other cases set the variable first and test the error then. What a flag has set is kept.
  unfoldable pub set_known : Key → Settings → Option Error × Settings
  set_known message_types s = set_types types_of s
  set_known bind_port s = if not (bytes_eq s.bind_port default_bind_port) then (none, s) else (
    error_of (string_of bind_port),
    record s { bind_port = value_or [] (string_of bind_port) },
  )
  set_known grandma_name s =
      if not (bytes_eq s.grandma_name default_grandma_name) then (none, s) else (
        error_of (string_of grandma_name),
        record s { grandma_name = value_or [] (string_of grandma_name) },
      )
  set_known network_port s =
      if not (bytes_eq s.network_port default_network_port) then (none, s) else (
        error_of (string_of network_port),
        record s { network_port = value_or [] (string_of network_port) },
      )
  set_known network_secret s = (
    error_of (string_of network_secret),
    record s { network_secret = value_or [] (string_of network_secret) },
  )
  set_known schedule_ttl_max s = (
    error_of (int64_of schedule_ttl_max),
    record s { ttl_max = value_or (pos 0) (int64_of schedule_ttl_max) },
  )
  set_known slave_list s =
      (error_of slaves_of, record s { slave_list = some (value_or [] slaves_of) })
  set_known cluster_mode s = (error_of mode_of, record s { cluster_mode = value_or false mode_of })
  set_known queue_length s = set_queue_length (int64_of queue_length) s
  set_known rest_sig_secret s = set_rest_secret (string_of rest_sig_secret) s

  -- Each case reads the value under the constant, which is the key itself.
  unfoldable pub set_key : Bytes → Settings → Option Error × Settings
  unfolding set_known
  set_key key s = elim (key_of key) [ none ↦ (some unknown_config_key, s) | some k ↦ set_known k s ]
