-- ===== src/Conf/Named.antt =====
-- What a configuration file that names some keys makes of the settings, and which keys it may name.
use grandma_scheduling_servi.Prelude.{
  ◌≡◌, refl, inl, inr, Bool, Bool-cases, true, false, not, ◌&&◌, ◌||◌, List, [], ◌∷◌, ◌++◌, map,
  Option, none, some, if◌then◌else◌, Result, Result-cases, ok, err, arith, append_assoc, append-nil,
}
use grandma_scheduling_servi.Prelude.Int.{ℤ, pos, ltb_ℤ}
use grandma_scheduling_servi.Prelude.Text.{Bytes, codes, bytes_eq}
use grandma_scheduling_servi.Json
use grandma_scheduling_servi.Json.{Object}
use grandma_scheduling_servi.Conf.{
  Error, unknown_config_key, underlying, invalid_settings, Interface, int64, Settings,
  default_bind_port, default_grandma_name, default_network_port,
}
use grandma_scheduling_servi.Conf.Keys.{
  Key, message_types, bind_port, grandma_name, network_port, network_secret, schedule_ttl_max,
  slave_list, cluster_mode, queue_length, rest_sig_secret, key_text, key_of, value_or, string_of,
  int64_of, types_of, slaves_of, mode_of, push_types, set_types, set_queue_length, set_rest_secret,
  set_known,
}

abbrev pub is_ok {ℓ} : {A : Type ℓ} → Result Json.Error A → Bool
is_ok (ok a) = true
is_ok (err e) = false

-- Every message type is from 100 to 109.
abbrev pub in_range : List ℤ → Bool
in_range [] = true
in_range (e ∷ es) = not (ltb_ℤ (pos 109) e || ltb_ℤ e (pos 100)) && in_range es

abbrev pub types_fit : Result Json.Error (List ℤ) → Bool
types_fit (ok types) = in_range types
types_fit (err e) = false

abbrev pub length_fits : Result Json.Error ℤ → Bool
length_fits (ok n) = not (ltb_ℤ (pos 1000000) n || ltb_ℤ n (pos 10))
length_fits (err e) = false

-- Whether the file may hold what it holds under a key. Under the three that a flag has set it may
-- hold anything.
abbrev pub fits : Object → Settings → Key → Bool
fits obj s message_types = types_fit (types_of obj)
fits obj s bind_port =
    not (bytes_eq s.bind_port default_bind_port) || is_ok (string_of obj bind_port)
fits obj s grandma_name =
    not (bytes_eq s.grandma_name default_grandma_name) || is_ok (string_of obj grandma_name)
fits obj s network_port =
    not (bytes_eq s.network_port default_network_port) || is_ok (string_of obj network_port)
fits obj s network_secret = is_ok (string_of obj network_secret)
fits obj s schedule_ttl_max = is_ok (int64_of obj schedule_ttl_max)
fits obj s slave_list = is_ok (slaves_of obj)
fits obj s cluster_mode = is_ok (mode_of obj)
fits obj s queue_length = length_fits (int64_of obj queue_length)
fits obj s rest_sig_secret = is_ok (string_of obj rest_sig_secret)

-- A key that is none of the constants is not usable.
abbrev pub fits_known : Object → Settings → Option Key → Bool
fits_known obj s none = false
fits_known obj s (some k) = fits obj s k

abbrev pub usable : Object → Settings → Bytes → Bool
usable obj s key = fits_known obj s (key_of key)

-- Whether `t` is one of the keys.
abbrev pub member : Bytes → List Bytes → Bool
member t [] = false
member t (key ∷ keys) = bytes_eq key t || member t keys

-- Every key is usable.
abbrev pub all_usable : Object → Settings → List Bytes → Bool
all_usable obj s [] = true
all_usable obj s (key ∷ keys) = usable obj s key && all_usable obj s keys

-- A value of the file, where nothing but the default stands there yet.
abbrev pub unless_given : Bytes → Result Json.Error Bytes → Bytes → Bytes
unless_given default r old = if bytes_eq old default then value_or [] r else old

-- The settings behind a file that names the keys that `named` says.
unfoldable pub configured : (Bytes → Bool) → Object → Settings → Settings
configured named obj s = record {
  supported_messages =
      if named (codes "msg_type")
      then some (map int64 (value_or [] (types_of obj)))
      else s.supported_messages;
  path_conf = s.path_conf;
  bind_port =
      if named (codes "bind_port")
      then unless_given default_bind_port (string_of obj bind_port) s.bind_port
      else s.bind_port;
  grandma_name =
      if named (codes "name")
      then unless_given default_grandma_name (string_of obj grandma_name) s.grandma_name
      else s.grandma_name;
  cluster_mode =
      if named (codes "cluster_mode") then value_or false (mode_of obj) else s.cluster_mode;
  queue_length =
      if named (codes "queue_length")
      then value_or (pos 0) (int64_of obj queue_length)
      else s.queue_length;
  slave_list =
      if named (codes "slave_list") then some (value_or [] (slaves_of obj)) else s.slave_list;
  ttl_max =
      if named (codes "ttl_max")
      then value_or (pos 0) (int64_of obj schedule_ttl_max)
      else s.ttl_max;
  network_port =
      if named (codes "network_port")
      then unless_given default_network_port (string_of obj network_port) s.network_port
      else s.network_port;
  network_secret =
      if named (codes "secret")
      then value_or [] (string_of obj network_secret)
      else s.network_secret;
  rest_secret =
      if named (codes "rest_secret")
      then value_or [] (string_of obj rest_sig_secret)
      else s.rest_secret;
}

-- The loop over the message types, which starts with `l`.
push_types-in_range :
    (types : List ℤ) (l : List Interface)
    → in_range types ≡ true
    → push_types types l ≡ (none, l ++ map int64 types)
unfolding push_types
push_types-in_range [] l h = rw (append-nil l) refl
push_types-in_range (e ∷ es) l h = ground (
  arith,
  push_types-in_range es (l ++ (int64 e ∷ [])),
  append_assoc l (int64 e ∷ []) (map int64 es),
)

push_types-fails :
    (types : List ℤ) (l : List Interface)
    → in_range types ≡ false
    → (e : Error) × ((push_types types l).0 ≡ some e)
unfolding push_types
push_types-fails [] l h = absurd (cc)
push_types-fails (e ∷ es) l h = elim (Bool-cases (ltb_ℤ (pos 109) e || ltb_ℤ e (pos 100))) [
  | inl out ↦ (unknown_config_key, rw out refl)
  | inr within ↦ rw within (push_types-fails es (l ++ (int64 e ∷ [])) (ground (arith, h, within)))
]

set_types-fits :
    (s : Settings) (r : Result Json.Error (List ℤ))
    → types_fit r ≡ true
    → set_types r s ≡ (none, record s { supported_messages = some (map int64 (value_or [] r)) })
unfolding set_types
set_types-fits s (ok types) h = rw (push_types-in_range types [] h) refl
set_types-fits s (err e) h = absurd (cc)

set_types-fails :
    (s : Settings) (r : Result Json.Error (List ℤ))
    → types_fit r ≡ false
    → (e : Error) × ((set_types r s).0 ≡ some e)
unfolding set_types
set_types-fails s (ok types) h = push_types-fails types [] h
set_types-fails s (err e) h = (underlying, refl)

module _ (obj : Object) (s : Settings) where
  pub set_known-fits :
      (k : Key)
      → fits obj s k ≡ true
      → set_known obj k s ≡ (none, configured (bytes_eq (key_text k)) obj s)
  unfolding set_known configured bytes_eq set_queue_length set_rest_secret
  set_known-fits message_types h = set_types-fits s (types_of obj) h
  set_known-fits bind_port h = ground arith
  set_known-fits grandma_name h = ground arith
  set_known-fits network_port h = ground arith
  set_known-fits network_secret h = ground arith
  set_known-fits schedule_ttl_max h = ground arith
  set_known-fits slave_list h = ground arith
  set_known-fits cluster_mode h = ground arith
  set_known-fits queue_length h = ground arith
  set_known-fits rest_sig_secret h = ground arith

  pub set_known-fails :
      (k : Key) → fits obj s k ≡ false → (e : Error) × ((set_known obj k s).0 ≡ some e)
  unfolding set_known set_queue_length set_rest_secret
  set_known-fails message_types h = set_types-fails s (types_of obj) h
  set_known-fails bind_port h = (underlying, ground arith)
  set_known-fails grandma_name h = (underlying, ground arith)
  set_known-fails network_port h = (underlying, ground arith)
  set_known-fails network_secret h = (underlying, ground arith)
  set_known-fails schedule_ttl_max h = (underlying, ground arith)
  set_known-fails slave_list h = (underlying, ground arith)
  set_known-fails cluster_mode h = (underlying, ground arith)
  set_known-fails queue_length h = elim (Result-cases (int64_of obj queue_length)) [
    | inl (n, e) ↦ (invalid_settings, ground (arith, e))
    | inr (e, failed) ↦ (underlying, ground (arith, failed))
  ]
  set_known-fails rest_sig_secret h = (underlying, ground arith)
