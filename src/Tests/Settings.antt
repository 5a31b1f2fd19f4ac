-- ===== src/Tests/Settings.antt =====
-- A configuration file with two keys.
use grandma_scheduling_servi.Prelude.{
  ℕ, ◌≡◌, refl, Bool, false, ◌||◌, List, [], ◌∷◌, none, some, if◌then◌else◌, done, panic, ok, arith,
}
use grandma_scheduling_servi.Prelude.Int.{pos, ◌≤ℤ◌}
use grandma_scheduling_servi.Prelude.Text.{Bytes, codes, bytes_eq}
use grandma_scheduling_servi.Strconv.{parse_int}
use grandma_scheduling_servi.Json.{
  Json, Object, child, text, number, object, field, end, as_object, object_from_value, get_string,
  get_int64, as_string, as_int64,
}
use grandma_scheduling_servi.Conf.{
  Settings, initial, not_support_message_type, set_default, check_msg_type,
}
use grandma_scheduling_servi.Conf.Files.{
  Files, Flags, read_flags, keys_of, set_keys, read_content, read_path, read_config_from_file,
  configure,
}
use grandma_scheduling_servi.Conf.Keys.{set_key, key_of, set_known, set_queue_length}
use grandma_scheduling_servi.Conf.Named.{member, all_usable, configured}
use grandma_scheduling_servi.Conf.Read.{configure-configured}
use grandma_scheduling_servi.Conf.Bounds.{configure-check_msg_type}

abbrev document : Json
document = object (
    field (codes "queue_length") (number (codes "5000"))
      (field (codes "secret") (text (codes "k")) end))

abbrev settings : Object
settings = record {
  value = record { contents = document; exists = false };
  m =
      (codes "queue_length", child (number (codes "5000")))
      ∷ (codes "secret", child (text (codes "k")))
      ∷ [];
}

-- Two keys are ranged over the other way round.
abbrev turned : List Bytes → List Bytes
turned (a ∷ b ∷ rest) = b ∷ a ∷ rest
turned keys = keys

abbrev files : Files
files = record {
  read_dir = some [];
  read_file = λ path. some (codes "{}");
  decode = λ content. ok (child document);
  range = turned;
}

same_keys : (t : Bytes) → member t (turned (keys_of settings)) ≡ member t (keys_of settings)
same_keys t = either_way (bytes_eq (codes "secret") t) (bytes_eq (codes "queue_length") t)
  where
    either_way : (a b : Bool) → (a || (b || false)) ≡ (b || (a || false))
    either_way a b = ground arith

decoded : object_from_value (files.decode (codes "{}")) ≡ ok settings
unfolding object_from_value as_object
decoded = refl

configure-configured_example : configure files initial ≡ (
    if all_usable settings (set_default initial) (keys_of settings)
    then done (configured (λ t. member t (keys_of settings)) settings (set_default initial))
    else panic)
configure-configured_example =
    configure-configured files initial (codes "{}") settings (omega arith) refl decoded same_keys

abbrev flags : Flags
flags = record { c = some (codes "my.conf"); p = none; np = none; n = none; v = false }

abbrev started : Settings
started = record (set_default initial) {
  path_conf = codes "my.conf";
  queue_length = pos 5000;
  network_secret = codes "k";
}

starts : configure files (read_flags flags initial).1 ≡ done started
unfolding configure read_flags read_config_from_file set_default read_path read_content
    object_from_value as_object set_keys set_key key_of bytes_eq set_known set_queue_length
    get_string get_int64 as_string as_int64 parse_int
starts = refl

configure-check_msg_type_example :
    (pos 10 ≤ℤ started.queue_length)
    × (started.queue_length ≤ℤ pos 1000000)
    × ((m : ℕ) → check_msg_type m started ≡ (false, some not_support_message_type))
configure-check_msg_type_example = configure-check_msg_type files flags started starts
