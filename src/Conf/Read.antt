-- ===== src/Conf/Read.antt =====
-- Reading a configuration file, whatever order its keys come in.
use grandma_scheduling_servi.Prelude.{
  ◌≡◌, refl, sym, ◌∙◌, ap, subst, inl, inr, Bool, Bool-cases, true, false, List, [], ◌∷◌, Option,
  none, some, if◌then◌else◌, length, Outcome, done, panic, ok, arith, ◌==◌, ◌<◌,
}
use grandma_scheduling_servi.Prelude.Text.{Bytes, bytes_eq, bytes_eq_sound, bytes_eq_refl}
use grandma_scheduling_servi.Json.{Object, object_from_value}
use grandma_scheduling_servi.Conf.{Error, invalid_settings, Settings, set_default}
use grandma_scheduling_servi.Conf.Keys.{set_key}
use grandma_scheduling_servi.Conf.Files.{
  Files, keys_of, set_keys, read_content, read_path, read_config_from_file, configure,
}
use grandma_scheduling_servi.Conf.Named.{usable, configured, member, all_usable}
use grandma_scheduling_servi.Conf.Configured.{
  set_key-usable, set_key-unusable, configured-configured, usable-configured,
}

module _ (obj : Object) where
  -- Behind one usable key the others are as usable as before.
  all_usable-configured :
      (s : Settings) (key : Bytes) (keys : List Bytes)
      → usable obj s key ≡ true
      → all_usable obj (configured (bytes_eq key) obj s) keys ≡ all_usable obj s keys
  all_usable-configured s key [] h = refl
  all_usable-configured s key (j ∷ keys) h =
      let same : bytes_eq key j ≡ true → usable obj s j ≡ true =
        λ e. ap (usable obj s) (sym (bytes_eq_sound key j e)) ∙ h in
      rw (usable-configured obj (bytes_eq key) s j same, all_usable-configured s key keys h) refl

  first_key :
      (key : Bytes) (keys : List Bytes) (s s1 : Settings)
      → set_key obj key s ≡ (none, s1)
      → set_keys obj (key ∷ keys) s ≡ set_keys obj keys s1
  unfolding set_keys
  first_key key keys s s1 e =
      ap
        (λ (r : Option Error × Settings). elim r.0 as (λ _. Option Error × Settings) [
          | none ↦ set_keys obj keys r.1
          | some e' ↦ (some invalid_settings, r.1)
        ])
        e

  set_keys-usable :
      (keys : List Bytes) (s : Settings)
      → all_usable obj s keys ≡ true
      → set_keys obj keys s ≡ (none, configured (λ t. member t keys) obj s)
  unfolding set_keys
  set_keys-usable [] s h = unfold configured in refl
  set_keys-usable (key ∷ keys) s h =
      let here : usable obj s key ≡ true = ground (arith, h) in
      let behind : all_usable obj s keys ≡ true = ground (arith, h) in
      first_key key keys s (configured (bytes_eq key) obj s) (set_key-usable obj s key here)
      ∙ (set_keys-usable keys (configured (bytes_eq key) obj s)
            (all_usable-configured s key keys here ∙ behind)
          ∙ ap (λ x. (none, x)) (configured-configured obj (λ t. member t keys) (bytes_eq key) s))

  set_keys-fails :
      (keys : List Bytes) (s : Settings)
      → all_usable obj s keys ≡ false
      → (set_keys obj keys s).0 ≡ some invalid_settings
  unfolding set_keys
  set_keys-fails [] s h = absurd (cc)
  set_keys-fails (key ∷ keys) s h = elim (Bool-cases (usable obj s key)) [
    | inl here ↦
        ap (λ r. r.0)
          (first_key key keys s (configured (bytes_eq key) obj s) (set_key-usable obj s key here))
        ∙ (set_keys-fails keys (configured (bytes_eq key) obj s)
            (all_usable-configured s key keys here ∙ (ground (arith, h, here))))
    | inr unusable ↦
        let (e, failed) = set_key-unusable obj s key unusable in rw (failed, set_keys) refl
  ]

-- Lists with the same members are usable together.
module _ (obj : Object) (s : Settings) where
  usable-member :
      (keys : List Bytes) (t : Bytes)
      → all_usable obj s keys ≡ true
      → member t keys ≡ true
      → usable obj s t ≡ true
  usable-member [] t h m = absurd (cc)
  usable-member (key ∷ keys) t h m = elim (Bool-cases (bytes_eq key t)) [
    | inl same ↦ subst (λ k. usable obj s k ≡ true) (bytes_eq_sound key t same) (ground (arith, h))
    | inr other ↦ usable-member keys t (ground (arith, h)) (ground (arith, m, other))
  ]

  all_members :
      (keys : List Bytes)
      → ((t : Bytes) → member t keys ≡ true → usable obj s t ≡ true)
      → all_usable obj s keys ≡ true
  all_members [] h = refl
  all_members (key ∷ keys) h =
      let here : usable obj s key ≡ true = h key (rw (bytes_eq_refl key) refl) in
      let behind : all_usable obj s keys ≡ true =
        all_members keys (λ t m. h t (ground (arith, m))) in
      rw (here, behind) refl

  same_usable :
      (keys keys' : List Bytes)
      → ((t : Bytes) → member t keys ≡ member t keys')
      → all_usable obj s keys ≡ true
      → all_usable obj s keys' ≡ true
  same_usable keys keys' same h = all_members keys' (λ t m. usable-member keys t h (same t ∙ m))

  same_unusable :
      (keys keys' : List Bytes)
      → ((t : Bytes) → member t keys' ≡ member t keys)
      → all_usable obj s keys ≡ false
      → all_usable obj s keys' ≡ false
  same_unusable keys keys' same h = elim (Bool-cases (all_usable obj s keys')) [
    | inl whole ↦ absurd (both (all_usable obj s keys) (same_usable keys' keys same whole) h)
    | inr broken ↦ broken
  ]
    where
      both : (b : Bool) → b ≡ true → b ≡ false → ⊥
      both b e e' = ground (arith, e, e')

finish : Option Error × Settings → Outcome Settings
finish r = elim r.0 [ none ↦ done r.1 | some e ↦ panic ]

read-set_keys :
    (fs : Files) (s : Settings) (content : Bytes) (obj : Object)
    → 0 < length s.path_conf
    → fs.read_file s.path_conf ≡ some content
    → object_from_value (fs.decode content) ≡ ok obj
    → read_config_from_file fs s ≡ set_keys obj (fs.range (keys_of obj)) (set_default s)
unfolding read_config_from_file set_default read_path read_content
read-set_keys fs s content obj path file decoded =
    let there : (length s.path_conf == 0) ≡ false = ground (arith, path) in
    rw (there, read_path, file, read_content, decoded) refl

-- A file that is there and holds a JSON object makes the settings that its keys name, in whatever
-- order they are ranged over, where every key is usable; and else the program panics.
pub configure-configured :
    (fs : Files) (s : Settings) (content : Bytes) (obj : Object)
    → 0 < length s.path_conf
    → fs.read_file s.path_conf ≡ some content
    → object_from_value (fs.decode content) ≡ ok obj
    → ((t : Bytes) → member t (fs.range (keys_of obj)) ≡ member t (keys_of obj))
    → configure fs s ≡ (
        if all_usable obj (set_default s) (keys_of obj)
        then done (configured (λ t. member t (keys_of obj)) obj (set_default s))
        else panic)
unfolding configure finish
configure-configured fs s content obj path file decoded same =
    let s1 = set_default s in
    let keys = fs.range (keys_of obj) in
    ap finish (read-set_keys fs s content obj path file decoded)
    ∙ elim (Bool-cases (all_usable obj s1 (keys_of obj))) [
      | inl whole ↦
          let ranged = same_usable obj s1 (keys_of obj) keys (λ t. sym (same t)) whole in
          ap finish (set_keys-usable obj keys s1 ranged)
          ∙ ap (λ named. done (configured named obj s1)) (λ i t. same t i)
          ∙ rw whole refl
      | inr broken ↦
          rw
            (
              set_keys-fails obj keys s1 (same_unusable obj s1 (keys_of obj) keys same broken),
              broken,
            )
            refl
    ]
