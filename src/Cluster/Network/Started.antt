-- ===== src/Cluster/Network/Started.antt =====
-- What a node that has started relies on.
use grandma_scheduling_servi.Prelude.{
  ◌≡◌, ◌⊎◌, refl, sym, ap, subst, ◌∙◌, inl, inr, Bool-cases, true, false, List, [], ◌∷◌, Option,
  none, some, if◌then◌else◌, Outcome, done, Result, ok, err, ◌>>=◌, bind-done,
}
use grandma_scheduling_servi.Prelude.Text.{Bytes}
use grandma_scheduling_servi.Conf.{Settings}
use grandma_scheduling_servi.Conf.Files.{get_network_port}
use grandma_scheduling_servi.Cluster.Handshake.{success, Arrival, bytes}
use grandma_scheduling_servi.Cluster.Handshake.Secret.{handshake_slave-secret}
use grandma_scheduling_servi.Cluster.Nodes.{Node, Slaves}
use grandma_scheduling_servi.Cluster.Discovery.{Dialled, Error, underlying, discover_slaves}
use grandma_scheduling_servi.Cluster.Discovery.Pool.{IsPool, discover_slaves-IsPool}
use grandma_scheduling_servi.Cluster.Network.{
  Session, Outside, Role, single, master, slave, shaken, accept_master, dialled,
  wait_master_connection, new_slaves, rank_slaves, serve_master, network,
}
use grandma_scheduling_servi.Cluster.Network.Waiting.{Takes, accept_master-ok_iff}

-- What discovery finds at an address.
abbrev pub finds : Outside → Settings → Bytes → Dialled
finds outside s address = dialled s.network_secret s.grandma_name (outside.dial address)

-- The master's slaves are ranked, there are some, and each has shaken hands.
pub record IsMaster (outside : Outside) (s : Settings) (slaves : Slaves) : Type 0 where
  pub pool : List Node
  pub joined : IsPool (finds outside s) pool
  pub ranked : outside.rank (new_slaves pool) ≡ done slaves

-- The connection is the first on which the handshake has ended well, and with a secret its other
-- side has sent that.
pub record IsSlave (outside : Outside) (s : Settings) (session : Session) : Type 0 where
  pub takes : Takes s.network_secret s.grandma_name outside.accepts session
  pub proven :
      (s.network_secret ≡ [])
      ⊎ ((rest : List Arrival) × (session.arrivals
            ≡ bytes (100 ∷ []) ∷ bytes s.network_secret ∷ rest))

-- The role of a node that is configured in this way.
pub data Plays (outside : Outside) (s : Settings) : Role → Type 0 where
  alone : s.cluster_mode ≡ false → Plays outside s single
  over :
      (addresses : List Bytes) (slaves : Slaves)
      → s.cluster_mode ≡ true
      → s.slave_list ≡ some addresses
      → IsMaster outside s slaves
      → Plays outside s (master slaves)
  under :
      (session : Session)
      → s.cluster_mode ≡ true
      → s.slave_list ≡ none
      → IsSlave outside s session
      → Plays outside s (slave session)

same_role : (a b : Role) → ◌≡◌ {A = Outcome (Option Role)} (done (some a)) (done (some b)) → a ≡ b
same_role a b e = cc

no_port :
    (t : Session)
    → ◌≡◌ {A = Outcome (Result Error Session)} (done (err underlying)) (done (ok t))
    → ⊥
no_port t e = cc

module _ (outside : Outside) (s : Settings) where
  ranked-Plays :
      (addresses : List Bytes) (found : Result Error (List Node)) (role : Role)
      → s.cluster_mode ≡ true
      → s.slave_list ≡ some addresses
      → discover_slaves (finds outside s) addresses ≡ done found
      → rank_slaves outside found ≡ done (some role)
      → Plays outside s role
  unfolding rank_slaves
  ranked-Plays addresses (err e) role mode listed ran h = absurd (cc)
  ranked-Plays addresses (ok pool) role mode listed ran h =
      let (slaves, ranked, h1) = bind-done (outside.rank (new_slaves pool)) _ (some role) h in
      subst (Plays outside s) (same_role (master slaves) role h1) (
        over addresses slaves mode listed (record {
          pool = pool;
          joined = discover_slaves-IsPool (finds outside s) addresses pool ran;
          ranked = ranked;
        }))

  by_secret :
      (secret : Bytes)
      → s.network_secret ≡ secret
      → (session : Session) → shaken s.network_secret s.grandma_name session ≡ done success
      → (s.network_secret ≡ [])
        ⊎ ((rest : List Arrival) × (session.arrivals
              ≡ bytes (100 ∷ []) ∷ bytes s.network_secret ∷ rest))
  by_secret [] e session well = inl e
  by_secret (c ∷ secret) e session well = inr (
      handshake_slave-secret s.network_secret s.grandma_name session.writes session.arrivals
        (λ e'. cc) well)

  waited-IsSlave :
      (session : Session)
      → wait_master_connection outside s ≡ done (ok session)
      → IsSlave outside s session
  unfolding wait_master_connection
  waited-IsSlave session h = elim (Bool-cases (outside.can_listen (get_network_port s))) [
    | inl open_port ↦
        let accepted : accept_master s.network_secret s.grandma_name outside.accepts
            ≡ done (ok session) =
          ap
            (λ b.
              if b
              then accept_master s.network_secret s.grandma_name outside.accepts
              else done (err underlying))
            (sym open_port)
          ∙ h in
        let takes =
          (accept_master-ok_iff s.network_secret s.grandma_name outside.accepts session).0
            accepted in
        record { takes = takes; proven = by_secret s.network_secret refl session takes.well }
    | inr closed_port ↦ absurd (
        no_port session (
          ap
            (λ b.
              if b
              then accept_master s.network_secret s.grandma_name outside.accepts
              else done (err underlying))
            (sym closed_port)
          ∙ h))
  ]

  served-Plays :
      (waited : Result Error Session) (role : Role)
      → s.cluster_mode ≡ true
      → s.slave_list ≡ none
      → wait_master_connection outside s ≡ done waited
      → serve_master waited ≡ done (some role)
      → Plays outside s role
  unfolding serve_master
  served-Plays (err e) role mode unlisted ran h = absurd (cc)
  served-Plays (ok session) role mode unlisted ran h =
      subst (Plays outside s) (same_role (slave session) role h)
        (under session mode unlisted (waited-IsSlave session ran))

  on_its_own : s.cluster_mode ≡ false → network outside s ≡ done (some single)
  unfolding network
  on_its_own mode = rw mode refl

  clustered_over :
      {addresses : List Bytes}
      → s.slave_list ≡ some addresses
      → s.cluster_mode ≡ true
      → network outside s ≡ (discover_slaves (finds outside s) addresses >>= rank_slaves outside)
  unfolding network
  clustered_over e mode = rw (mode, e) refl

  clustered_under :
      s.slave_list ≡ none
      → s.cluster_mode ≡ true
      → network outside s ≡ (wait_master_connection outside s >>= serve_master)
  unfolding network wait_master_connection get_network_port
  clustered_under e mode = rw (mode, e) refl

  clustered-Plays :
      (listed : Option (List Bytes)) (role : Role)
      → s.slave_list ≡ listed
      → s.cluster_mode ≡ true
      → network outside s ≡ done (some role)
      → Plays outside s role
  clustered-Plays (some addresses) role e mode h =
      let (found, ran, h1) =
        bind-done (discover_slaves (finds outside s) addresses) (rank_slaves outside) (some role)
          (sym (clustered_over e mode) ∙ h) in
      ranked-Plays addresses found role mode e ran h1
  clustered-Plays none role e mode h =
      let (waited, ran, h1) =
        bind-done (wait_master_connection outside s) serve_master (some role)
          (sym (clustered_under e mode) ∙ h) in
      served-Plays waited role mode e ran h1

  -- A node that starts plays the role that it is configured for. A master has a slave, and has
  -- shaken hands with each of its slaves; a slave has taken the first connection on which its own
  -- handshake has ended well, from a side that has sent the secret where one is set.
  pub network-Plays : (role : Role) → network outside s ≡ done (some role) → Plays outside s role
  network-Plays role h = elim (Bool-cases s.cluster_mode) [
    | inl mode ↦ clustered-Plays s.slave_list role refl mode h
    | inr mode ↦
        subst (Plays outside s) (same_role single role (sym (on_its_own mode) ∙ h)) (alone mode)
  ]
