-- ===== src/Conf/Bounds.antt =====
-- What every configuration file leaves in order, and which message types it leaves supported.
use grandma_scheduling_servi.Prelude.{
  ℕ, ◌≡◌, refl, subst, ◌∙◌, inl, inr, Bool, Bool-cases, true, false, ◌||◌, List, [], ◌∷◌, ◌++◌,
  Option, Option-cases, none, some, if◌then◌else◌, Result, Result-cases, ok, err, Outcome, done,
  panic, All, arith,
}
use grandma_scheduling_servi.Prelude.Int.{ℤ, pos, ◌≤ℤ◌, ltb_ℤ}
use grandma_scheduling_servi.Prelude.Text.{Bytes}
use grandma_scheduling_servi.Json
use grandma_scheduling_servi.Json.{Object, object_from_value}
use grandma_scheduling_servi.Conf.{
  Error, unknown_config_key, underlying, not_support_message_type, Interface, int, int64, uint,
  Settings, initial, set_default, interface_eq, check_list, check_msg_type,
}
use grandma_scheduling_servi.Conf.Keys.{
  Key, message_types, bind_port, grandma_name, network_port, network_secret, schedule_ttl_max,
  slave_list, cluster_mode, queue_length, rest_sig_secret, key_of, push_types, set_types,
  set_queue_length, set_rest_secret, set_known, set_key, int64_of, types_of, string_of,
}
use grandma_scheduling_servi.Conf.Files.{
  Files, Flags, read_flags, keys_of, set_keys, find_conf, read_content, read_path, search_path,
  read_config_from_file, configure,
}

-- No number of type uint is among the supported types.
abbrev pub IsSigned : Interface → Type 0
IsSigned (int n) = Unit
IsSigned (int64 n) = Unit
IsSigned (uint n) = ⊥

pub record IsOrderly (s : Settings) : Type 0 where
  pub low : pos 10 ≤ℤ s.queue_length
  pub high : s.queue_length ≤ℤ pos 1000000
  pub types : List Interface
  pub listed : s.supported_messages ≡ some types
  pub signed : All IsSigned types

check_list-signed :
    (m : ℕ) (l : List Interface)
    → All IsSigned l
    → check_list m l ≡ (false, some not_support_message_type)
unfolding check_list interface_eq
check_list-signed m [] a = refl
check_list-signed m (int n ∷ l) a = check_list-signed m l a.1
check_list-signed m (int64 n ∷ l) a = check_list-signed m l a.1
check_list-signed m (uint n ∷ l) a = absurd a.0

snoc_signed : (e : ℤ) (l : List Interface) → All IsSigned l → All IsSigned (l ++ (int64 e ∷ []))
snoc_signed e [] a = (tt, tt)
snoc_signed e (x ∷ xs) a = (a.0, snoc_signed e xs a.1)

by_range :
    (b : Bool) (l : List Interface) (r : Option Error × List Interface)
    → All IsSigned l
    → All IsSigned r.1
    → All IsSigned (if b then (some unknown_config_key, l) else r).1
by_range true l r a a' = a
by_range false l r a a' = a'

push_types-signed :
    (types : List ℤ) (l : List Interface) → All IsSigned l → All IsSigned (push_types types l).1
unfolding push_types
push_types-signed [] l a = a
push_types-signed (e ∷ es) l a =
    by_range (ltb_ℤ (pos 109) e || ltb_ℤ e (pos 100)) l _ a
      (push_types-signed es _ (snoc_signed e l a))

-- Settings that share length and types with orderly ones.
same-IsOrderly :
    (s s' : Settings)
    → s'.queue_length ≡ s.queue_length
    → s'.supported_messages ≡ s.supported_messages
    → IsOrderly s
    → IsOrderly s'
same-IsOrderly s s' same_length same_types o = record {
  low = rw same_length o.low;
  high = rw same_length o.high;
  types = o.types;
  listed = same_types ∙ o.listed;
  signed = o.signed;
}

either :
    (b : Bool) (x y : Option Error × Settings)
    → IsOrderly x.1
    → IsOrderly y.1
    → IsOrderly (if b then x else y).1
either true x y ox oy = ox
either false x y ox oy = oy

set_types-IsOrderly :
    (s : Settings) (r : Result Json.Error (List ℤ)) → IsOrderly s → IsOrderly (set_types r s).1
unfolding set_types
set_types-IsOrderly s (err e) o = o
set_types-IsOrderly s (ok types) o = record {
  low = o.low;
  high = o.high;
  types = (push_types types []).1;
  listed = refl;
  signed = push_types-signed types [] tt;
}

set_queue_length-IsOrderly :
    (s : Settings) (r : Result Json.Error ℤ) → IsOrderly s → IsOrderly (set_queue_length r s).1
unfolding set_queue_length
set_queue_length-IsOrderly s (err e) o = o
set_queue_length-IsOrderly s (ok n) o =
    elim (Bool-cases (ltb_ℤ (pos 1000000) n || ltb_ℤ n (pos 10))) [
      | inl out ↦ rw out o
      | inr within ↦ rw within (record {
        low = ground (arith, within);
        high = ground (arith, within);
        types = o.types;
        listed = o.listed;
        signed = o.signed;
      })
    ]

set_rest_secret-IsOrderly :
    (s : Settings) (r : Result Json.Error Bytes) → IsOrderly s → IsOrderly (set_rest_secret r s).1
unfolding set_rest_secret
set_rest_secret-IsOrderly s (err e) o = o
set_rest_secret-IsOrderly s (ok secret) o = same-IsOrderly s _ refl refl o

module _ (obj : Object) where
  set_known-IsOrderly : (k : Key) (s : Settings) → IsOrderly s → IsOrderly (set_known obj k s).1
  unfolding set_known
  set_known-IsOrderly message_types s o = set_types-IsOrderly s (types_of obj) o
  set_known-IsOrderly bind_port s o = either _ _ _ o (same-IsOrderly s _ refl refl o)
  set_known-IsOrderly grandma_name s o = either _ _ _ o (same-IsOrderly s _ refl refl o)
  set_known-IsOrderly network_port s o = either _ _ _ o (same-IsOrderly s _ refl refl o)
  set_known-IsOrderly network_secret s o = same-IsOrderly s _ refl refl o
  set_known-IsOrderly schedule_ttl_max s o = same-IsOrderly s _ refl refl o
  set_known-IsOrderly slave_list s o = same-IsOrderly s _ refl refl o
  set_known-IsOrderly cluster_mode s o = same-IsOrderly s _ refl refl o
  set_known-IsOrderly queue_length s o = set_queue_length-IsOrderly s (int64_of obj queue_length) o
  set_known-IsOrderly rest_sig_secret s o =
      set_rest_secret-IsOrderly s (string_of obj rest_sig_secret) o

  set_key-IsOrderly : (key : Bytes) (s : Settings) → IsOrderly s → IsOrderly (set_key obj key s).1
  unfolding set_key
  set_key-IsOrderly key s o = elim (Option-cases (key_of key)) [
    | inl unknown ↦ rw (unknown, set_key) o
    | inr (k, known) ↦ rw (known, set_key) (set_known-IsOrderly k s o)
  ]

  set_keys-IsOrderly :
      (keys : List Bytes) (s : Settings) → IsOrderly s → IsOrderly (set_keys obj keys s).1
  unfolding set_keys
  set_keys-IsOrderly [] s o = o
  set_keys-IsOrderly (key ∷ keys) s o =
      let here = set_key-IsOrderly key s o in
      let others = set_keys-IsOrderly keys (set_key obj key s).1 here in
      elim (Option-cases (set_key obj key s).0) [
        | inl good ↦ rw (good, set_keys) others
        | inr (e, bad) ↦ rw (bad, set_keys) here
      ]

module _ (fs : Files) where
  read_path-IsOrderly : (s : Settings) → IsOrderly s → IsOrderly (read_path fs s).1
  unfolding read_path read_content
  read_path-IsOrderly s o = elim (Option-cases (fs.read_file s.path_conf)) [
    | inl gone ↦ rw (gone, read_path) o
    | inr (content, file) ↦ elim (Result-cases (object_from_value (fs.decode content))) [
      | inl (obj, decoded) ↦
          rw (read_path, file, read_content, decoded)
            (set_keys-IsOrderly obj (fs.range (keys_of obj)) s o)
      | inr (e, failed) ↦ rw (read_path, file, read_content, failed) o
    ]
  ]

  search_path-IsOrderly :
      (files : List Bytes) (s : Settings) → IsOrderly s → IsOrderly (search_path fs files s).1
  unfolding search_path
  search_path-IsOrderly files s o =
      let found = same-IsOrderly s (record s { path_conf = find_conf files }) refl refl o in
      either _ _ _ found (read_path-IsOrderly _ found)

  read_config_from_file-IsOrderly :
      (s : Settings) → IsOrderly (set_default s) → IsOrderly (read_config_from_file fs s).1
  unfolding read_config_from_file
  read_config_from_file-IsOrderly s o =
      either _ _ _ (searched fs.read_dir) (read_path-IsOrderly (set_default s) o)
    where
      searched :
          (dir : Option (List Bytes))
          → IsOrderly
              (elim dir as (λ _. Option Error × Settings) [
                | none ↦ (some underlying, set_default s)
                | some files ↦ search_path fs files (set_default s)
              ]).1
      searched none = o
      searched (some files) = search_path-IsOrderly files (set_default s) o

initial-IsOrderly : (f : Flags) → IsOrderly (set_default (read_flags f initial).1)
unfolding set_default read_flags
initial-IsOrderly f = record {
  low = omega arith;
  high = omega arith;
  types = _;
  listed = refl;
  signed = (tt, (tt, (tt, (tt, (tt, (tt, (tt, (tt, (tt, tt)))))))));
}

finished :
    (r : Option Error × Settings) (s' : Settings)
    → (elim r.0 as (λ _. Outcome Settings) [ none ↦ done r.1 | some e ↦ panic ]) ≡ done s'
    → r.1 ≡ s'
finished (none, s) s' h = cc
finished (some e, s) s' h = absurd (cc)

-- With any flags, files and order of keys the program starts only with a queue length from 10 to
-- 1000000; and `CheckMsgType` then answers for every type that it is not supported.
pub configure-check_msg_type :
    (fs : Files) (f : Flags) (s' : Settings)
    → configure fs (read_flags f initial).1 ≡ done s'
    → (pos 10 ≤ℤ s'.queue_length)
      × (s'.queue_length ≤ℤ pos 1000000)
      × ((m : ℕ) → check_msg_type m s' ≡ (false, some not_support_message_type))
unfolding configure check_msg_type
configure-check_msg_type fs f s' h =
    let s1 = (read_flags f initial).1 in
    let o =
      subst IsOrderly (finished (read_config_from_file fs s1) s' h)
        (read_config_from_file-IsOrderly fs s1 (initial-IsOrderly f)) in
    (o.low, o.high, λ m. rw o.listed (check_list-signed m o.types o.signed))
