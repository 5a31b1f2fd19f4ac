-- ===== src/Conf/Configured.antt =====
-- One key of a configuration file, and what it leaves for the others.
use grandma_scheduling_servi.Prelude.{
  ◌≡◌, refl, sym, ◌∙◌, ap, inl, inr, Bool, Bool-cases, true, false, not, ◌||◌, List, [], ◌∷◌,
  Option, none, some, if◌then◌else◌, Result, arith,
}
use grandma_scheduling_servi.Prelude.Text.{Bytes, codes, bytes_eq, bytes_eq_sound}
use grandma_scheduling_servi.Json
use grandma_scheduling_servi.Json.{Object, object_from_value}
use grandma_scheduling_servi.Conf.{
  Error, unknown_config_key, Settings, default_bind_port, default_grandma_name,
  default_network_port,
}
use grandma_scheduling_servi.Conf.Keys.{
  Key, message_types, bind_port, grandma_name, network_port, network_secret, schedule_ttl_max,
  slave_list, cluster_mode, queue_length, rest_sig_secret, key_text, all_keys, switch, key_of,
  string_of, set_key,
}
use grandma_scheduling_servi.Conf.Named.{
  is_ok, fits, fits_known, usable, unless_given, configured, set_known-fits, set_known-fails,
}

switch_sound : (key : Bytes) (ks : List Key) (k : Key) → switch key ks ≡ some k → key ≡ key_text k
switch_sound key [] k h = absurd (cc)
switch_sound key (j ∷ ks) k h = elim (Bool-cases (bytes_eq key (key_text j))) [
  | inl same ↦
      bytes_eq_sound key (key_text j) same
      ∙ ap key_text (one j k (ap (λ b. if b then some j else switch key ks) (sym same) ∙ h))
  | inr other ↦
      switch_sound key ks k (ap (λ b. if b then some j else switch key ks) (sym other) ∙ h)
]
  where
    one : (j k : Key) → some j ≡ some k → j ≡ k
    one j k e = cc

key_of_sound : (key : Bytes) (k : Key) → key_of key ≡ some k → key ≡ key_text k
unfolding key_of
key_of_sound key k h = switch_sound key all_keys k h

-- A value that is set twice.
twice :
    {A : Type 0} (p q : Bool) (v x : A)
    → (if p then v else if q then v else x) ≡ (if q || p then v else x)
twice p q v x = ground arith

twice_given :
    (p q : Bool) (default : Bytes) (r : Result Json.Error Bytes) (x : Bytes)
    → (if p
        then unless_given default r (if q then unless_given default r x else x)
        else if q
        then unless_given default r x
        else x)
      ≡ (if q || p then unless_given default r x else x)
twice_given p q default r x = ground arith

module _ (obj : Object) where
  by_key :
      (s : Settings) (key : Bytes) (o : Option Key)
      → key_of key ≡ o
      → fits_known obj s o ≡ true
      → set_key obj key s ≡ (none, configured (bytes_eq key) obj s)
  unfolding set_key
  by_key s key none known h = absurd (cc)
  by_key s key (some k) known h =
      rw (known, set_key) (set_known-fits obj s k h)
      ∙ ap (λ b. (none, configured (bytes_eq b) obj s)) (sym (key_of_sound key k known))

  by_key_fails :
      (s : Settings) (key : Bytes) (o : Option Key)
      → key_of key ≡ o
      → fits_known obj s o ≡ false
      → (e : Error) × ((set_key obj key s).0 ≡ some e)
  unfolding set_key
  by_key_fails s key none known h = (unknown_config_key, rw (known, set_key) refl)
  by_key_fails s key (some k) known h = rw (known, set_key) (set_known-fails obj s k h)

  -- A field of the settings after two files, and after one that names what either does.
  abbrev Same : {A : Type 0} → (Settings → A) → (Bytes → Bool) → (Bytes → Bool) → Settings → Type 0
  Same field p q s =
      field (configured p obj (configured q obj s)) ≡ field (configured (λ t. q t || p t) obj s)

  pub configured-configured :
      (p q : Bytes → Bool) (s : Settings)
      → configured p obj (configured q obj s) ≡ configured (λ t. q t || p t) obj s
  unfolding configured
  configured-configured p q s =
      let e0 : Same (λ x. x.supported_messages) p q s =
        twice (p (codes "msg_type")) (q (codes "msg_type")) _ _ in
      let e1 : Same (λ x. x.bind_port) p q s =
        twice_given (p (codes "bind_port")) (q (codes "bind_port")) _ (string_of obj bind_port) _ in
      let e2 : Same (λ x. x.grandma_name) p q s =
        twice_given (p (codes "name")) (q (codes "name")) _ (string_of obj grandma_name) _ in
      let e3 : Same (λ x. x.cluster_mode) p q s =
        twice (p (codes "cluster_mode")) (q (codes "cluster_mode")) _ _ in
      let e4 : Same (λ x. x.queue_length) p q s =
        twice (p (codes "queue_length")) (q (codes "queue_length")) _ _ in
      let e5 : Same (λ x. x.slave_list) p q s =
        twice (p (codes "slave_list")) (q (codes "slave_list")) _ _ in
      let e6 : Same (λ x. x.ttl_max) p q s =
        twice (p (codes "ttl_max")) (q (codes "ttl_max")) _ _ in
      let e7 : Same (λ x. x.network_port) p q s =
        twice_given (p (codes "network_port")) (q (codes "network_port")) _
          (string_of obj network_port) _ in
      let e8 : Same (λ x. x.network_secret) p q s =
        twice (p (codes "secret")) (q (codes "secret")) _ _ in
      let e9 : Same (λ x. x.rest_secret) p q s =
        twice (p (codes "rest_secret")) (q (codes "rest_secret")) _ _ in
      λ i. record {
        supported_messages = e0 i;
        bind_port = e1 i;
        grandma_name = e2 i;
        cluster_mode = e3 i;
        queue_length = e4 i;
        slave_list = e5 i;
        ttl_max = e6 i;
        network_port = e7 i;
        network_secret = e8 i;
        rest_secret = e9 i;
        path_conf = s.path_conf;
      }

  -- What may stand under a flag's key does not change where its value is usable.
  flag_fits :
      (q : Bool) (default : Bytes) (r : Result Json.Error Bytes) (x : Bytes)
      → (q ≡ true → (not (bytes_eq x default) || is_ok r) ≡ true)
      → (not (bytes_eq (if q then unless_given default r x else x) default) || is_ok r)
        ≡ (not (bytes_eq x default) || is_ok r)
  flag_fits false default r x h = refl
  flag_fits true default r x h = elim (Bool-cases (bytes_eq x default)) [
    | inl same ↦ ground (arith, same, h refl)
    | inr other ↦ ground (arith, other)
  ]

  fits-configured :
      (q : Bytes → Bool) (s : Settings) (k : Key)
      → (q (key_text k) ≡ true → fits obj s k ≡ true)
      → fits obj (configured q obj s) k ≡ fits obj s k
  unfolding configured
  fits-configured q s message_types h = refl
  fits-configured q s bind_port h =
      flag_fits (q (codes "bind_port")) default_bind_port (string_of obj bind_port) s.bind_port h
  fits-configured q s grandma_name h =
      flag_fits (q (codes "name")) default_grandma_name (string_of obj grandma_name) s.grandma_name
        h
  fits-configured q s network_port h =
      flag_fits (q (codes "network_port")) default_network_port (string_of obj network_port)
        s.network_port h
  fits-configured q s network_secret h = refl
  fits-configured q s schedule_ttl_max h = refl
  fits-configured q s slave_list h = refl
  fits-configured q s cluster_mode h = refl
  fits-configured q s queue_length h = refl
  fits-configured q s rest_sig_secret h = refl

  pub usable-configured :
      (q : Bytes → Bool) (s : Settings) (key : Bytes)
      → (q key ≡ true → usable obj s key ≡ true)
      → usable obj (configured q obj s) key ≡ usable obj s key
  usable-configured q s key h = by_known (key_of key) refl h
    where
      by_known :
          (o : Option Key)
          → key_of key ≡ o
          → (q key ≡ true → fits_known obj s o ≡ true)
          → fits_known obj (configured q obj s) o ≡ fits_known obj s o
      by_known none known h' = refl
      by_known (some k) known h' =
          fits-configured q s k (λ e. h' (ap q (key_of_sound key k known) ∙ e))

  pub set_key-usable :
      (s : Settings) (key : Bytes)
      → usable obj s key ≡ true
      → set_key obj key s ≡ (none, configured (bytes_eq key) obj s)
  set_key-usable s key h = by_key s key (key_of key) refl h

  pub set_key-unusable :
      (s : Settings) (key : Bytes)
      → usable obj s key ≡ false
      → (e : Error) × ((set_key obj key s).0 ≡ some e)
  set_key-unusable s key h = by_key_fails s key (key_of key) refl h
