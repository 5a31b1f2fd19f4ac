-- ===== src/Conf.antt =====
-- src/conf/config.go: the settings. The variables of the package are a record; those that no code sets or reads are left out.
pub mod Keys
pub mod Files
pub mod Named
pub mod Configured
pub mod Read
pub mod Bounds
use grandma_scheduling_servi.Prelude.{
  ℕ, zero, suc, ◌*◌, Bool, true, false, not, ◌||◌, List, [], ◌∷◌, ◌++◌, map, Option, none, some,
  if◌then◌else◌, Result, ok, err, ◌==◌,
}
use grandma_scheduling_servi.Prelude.Int.{ℤ, pos, ltb_ℤ, ◌=ℤ◌}
use grandma_scheduling_servi.Prelude.Text.{Bytes, codes, bytes_eq}

-- `underlying` is an error of the file system or of jsonwrapper.
pub data Error : Type 0 where
  invalid_settings : Error
  not_support_message_type : Error
  parsing_config_file : Error
  unknown_config_key : Error
  underlying : Error

-- An `interface{}` with a number, of the type that was put in.
pub data Interface : Type 0 where
  int : ℤ → Interface
  int64 : ℤ → Interface
  uint : ℕ → Interface

-- `none` is a nil list.
pub record Settings : Type 0 where
  pub supported_messages : Option (List Interface)
  pub path_conf : Bytes
  pub bind_port : Bytes
  pub grandma_name : Bytes
  pub cluster_mode : Bool
  pub queue_length : ℤ
  pub slave_list : Option (List Bytes)
  pub ttl_max : ℤ
  pub network_port : Bytes
  pub network_secret : Bytes
  pub rest_secret : Bytes

-- DEFAULT_BIND_PORT and so on.
abbrev pub default_conf_name : Bytes
default_conf_name = codes "grandma.conf"

abbrev pub default_bind_port : Bytes
default_bind_port = codes "443"

abbrev pub default_grandma_name : Bytes
default_grandma_name = codes "Grandma-Sharon"

abbrev pub default_network_port : Bytes
default_network_port = codes "12345"

-- What the variables are initialized to.
abbrev pub initial : Settings
initial = record {
  supported_messages = none;
  path_conf = default_conf_name;
  bind_port = default_bind_port;
  grandma_name = default_grandma_name;
  cluster_mode = false;
  queue_length = pos 1000;
  slave_list = none;
  ttl_max = pos (30 * 24 * 60 * 60 * 1000);
  network_port = default_network_port;
  network_secret = codes "GrandmaService";
  rest_secret = codes "GrandmaSecret";
}

-- The ints from `i` on, `n` of them.
abbrev ints : ℕ → ℕ → List Interface
ints zero i = []
ints (suc n) i = int (pos i) ∷ ints n (suc i)

-- From 100 to 108: the end, 109, is left out.
unfoldable pub set_default : Settings → Settings
set_default s = record s { supported_messages = some (ints 9 100) }

-- `==` on interfaces: the types are compared, then the values.
unfoldable pub interface_eq : Interface → Interface → Bool
interface_eq (int a) (int b) = a =ℤ b
interface_eq (int64 a) (int64 b) = a =ℤ b
interface_eq (uint a) (uint b) = a == b
interface_eq _ _ = false

-- The loop of `CheckMsgType`. `none` is a nil error.
unfoldable pub check_list : ℕ → List Interface → Bool × Option Error
check_list msg_type [] = (false, some not_support_message_type)
check_list msg_type (e ∷ es) =
    let rest = check_list msg_type es in
    if interface_eq (uint msg_type) e then (true, none) else rest

unfoldable pub check_msg_type : ℕ → Settings → Bool × Option Error
unfolding check_list
check_msg_type msg_type s = elim s.supported_messages [
  | none ↦ (false, some invalid_settings)
  | some types ↦ check_list msg_type types
]
