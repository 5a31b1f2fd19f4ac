-- ===== src/Conf/Files.antt =====
-- src/conf/config.go: the flags and the configuration file. The file system, the JSON decoder, the
-- order in which a map is ranged over and what package flag has parsed are parameters.
use grandma_scheduling_servi.Prelude.{
  Bool, not, List, [], ◌∷◌, map, Option, none, some, if◌then◌else◌, length, Outcome, done, panic,
  Result, ok, err, ◌==◌,
}
use grandma_scheduling_servi.Prelude.Text.{Bytes, bytes_eq}
use grandma_scheduling_servi.Json
use grandma_scheduling_servi.Json.{Object, Value, object_from_value}
use grandma_scheduling_servi.Conf.{
  Error, invalid_settings, parsing_config_file, underlying, Settings, default_conf_name,
  default_bind_port, default_grandma_name, default_network_port, set_default,
}
use grandma_scheduling_servi.Conf.Keys.{set_key}

-- `none` where a call of the file system fails.
pub record Files : Type 0 where
  pub read_dir : Option (List Bytes)
  pub read_file : Bytes → Option Bytes
  pub decode : Bytes → Result Json.Error Value
  pub range : List Bytes → List Bytes

-- The flags that the command line has.
pub record Flags : Type 0 where
  pub c : Option Bytes
  pub p : Option Bytes
  pub np : Option Bytes
  pub n : Option Bytes
  pub v : Bool

abbrev given : Option Bytes → Bytes → Bytes
given none default = default
given (some a) default = a

-- With `-v` the program ends (`false`).
unfoldable pub read_flags : Flags → Settings → Bool × Settings
read_flags f s = (
  not f.v,
  record s {
    path_conf = given f.c [];
    bind_port = given f.p default_bind_port;
    network_port = given f.np default_network_port;
    grandma_name = given f.n default_grandma_name;
  },
)

unfoldable pub get_port : Settings → Bytes
get_port s = b':' ∷ s.bind_port

unfoldable pub get_network_port : Settings → Bytes
get_network_port s = b':' ∷ s.network_port

-- The keys of a map, each as often as it is there.
abbrev pub keys_of : Object → List Bytes
keys_of obj = map (λ e. e.0) obj.m

unfoldable pub set_keys : Object → List Bytes → Settings → Option Error × Settings
set_keys obj [] s = (none, s)
set_keys obj (key ∷ rest) s =
    let r = set_key obj key s in
    let others = set_keys obj rest r.1 in
    elim r.0 [ none ↦ others | some e ↦ (some invalid_settings, r.1) ]

-- The loop over the files of the directory.
unfoldable pub find_conf : List Bytes → Bytes
find_conf [] = []
find_conf (file ∷ files) =
    let rest = find_conf files in
    if bytes_eq file default_conf_name then default_conf_name else rest

module _ (fs : Files) where
  unfoldable pub read_content : Bytes → Settings → Option Error × Settings
  read_content content s = elim (object_from_value (fs.decode content)) [
    | err e ↦ (some parsing_config_file, s)
    | ok obj ↦ set_keys obj (fs.range (keys_of obj)) s
  ]

  unfoldable pub read_path : Settings → Option Error × Settings
  unfolding read_content
  read_path s = elim (fs.read_file s.path_conf) [
    | none ↦ (some underlying, s)
    | some content ↦ read_content content s
  ]

  -- Without a path the file is looked for in the directory; where it is not there, nothing is read.
  unfoldable pub search_path : List Bytes → Settings → Option Error × Settings
  unfolding find_conf read_path
  search_path files s =
      let found = record s { path_conf = find_conf files } in
      let content = read_path found in
      if length found.path_conf == 0 then (none, found) else content

  unfoldable pub read_config_from_file : Settings → Option Error × Settings
  unfolding search_path read_path
  read_config_from_file s =
      let s1 = set_default s in
      let searched : Option Error × Settings = elim fs.read_dir [
        | none ↦ (some underlying, s1)
        | some files ↦ search_path files s1
      ] in
      let content = read_path s1 in if length s1.path_conf == 0 then searched else content

  unfoldable pub configure : Settings → Outcome Settings
  configure s = let r = read_config_from_file s in elim r.0 [ none ↦ done r.1 | some e ↦ panic ]
