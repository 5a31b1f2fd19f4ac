-- ===== src/Cluster/Rejoin/Taken.antt =====
-- Which connection a slave takes for the master that it has lost.
use grandma_scheduling_servi.Prelude.{
  ◌≡◌, ◌↔◌, ◌≢◌, ◌⊎◌, refl, sym, ap, ◌∙◌, inl, inr, Bool, Bool-cases, true, false, List, [], ◌∷◌,
  ◌++◌, Option, none, some, if◌then◌else◌, then_branch, All, done, ◌>>=◌, bind-done,
}
use grandma_scheduling_servi.Prelude.Text.{Bytes}
use grandma_scheduling_servi.Cluster.Handshake.{
  Status, success, timeout, refused, badconn, svr_err, unknown,
}
use grandma_scheduling_servi.Cluster.Calls.{send_master}
use grandma_scheduling_servi.Cluster.Network.{Session, shaken}
use grandma_scheduling_servi.Cluster.Rediscovery.{heartbeat}
use grandma_scheduling_servi.Cluster.Rejoin.{
  Slave, is_taken, rejoined, await_master, rediscover_master,
}

-- The slave on a new connection: nothing has been written on it, and all else is as it was.
abbrev pub on_session : {D : Type 0} → Session → Slave D → Slave D
on_session session c = record {
  session = session;
  node = record {
    world = record {
      db = c.node.world.db;
      store = c.node.world.store;
      main_queue = c.node.world.main_queue;
      tcp = some [];
    };
    complexity = c.node.complexity;
    closed = false;
    waiting = c.node.waiting;
  };
}

module _ (secret name : Bytes) where
  -- Accepting fails, the handshake ends but not well, or the connection cannot be kept.
  pub data IsPassed : Option Session → Type 0 where
    not_accepted : IsPassed none
    not_well :
        (s : Session) (status : Status)
        → shaken secret name s ≡ done status
        → status ≢ success
        → IsPassed (some s)
    not_kept :
        (s : Session)
        → shaken secret name s ≡ done success
        → s.keep_alive ≡ false
        → IsPassed (some s)

  -- The first connection on which the handshake ends well and which can be kept.
  pub record Comes (accepts : List (Option Session)) (session : Session) : Type 0 where
    pub before : List (Option Session)
    pub behind : List (Option Session)
    pub passed : All IsPassed before
    pub there : accepts ≡ before ++ (some session ∷ behind)
    pub well : shaken secret name session ≡ done success
    pub kept : session.keep_alive ≡ true

  Comes-behind :
      (a : Option Session) (rest : List (Option Session)) (s : Session)
      → IsPassed a
      → Comes rest s
      → Comes (a ∷ rest) s
  Comes-behind a rest s p c = record {
    before = a ∷ c.before;
    behind = c.behind;
    passed = (p, c.passed);
    there = ap (λ l. a ∷ l) c.there;
    well = c.well;
    kept = c.kept;
  }

  taken-success :
      (s : Session) (status : Status)
      → is_taken s status ≡ true
      → (status ≡ success) × (s.keep_alive ≡ true)
  taken-success s success h = (refl, h)
  taken-success s timeout h = absurd (cc)
  taken-success s refused h = absurd (cc)
  taken-success s badconn h = absurd (cc)
  taken-success s svr_err h = absurd (cc)
  taken-success s unknown h = absurd (cc)

  not_taken-IsPassed :
      (s : Session) (status : Status)
      → shaken secret name s ≡ done status
      → is_taken s status ≡ false
      → IsPassed (some s)
  not_taken-IsPassed s success ran h = not_kept s ran h
  not_taken-IsPassed s timeout ran h = not_well s timeout ran (λ e. cc)
  not_taken-IsPassed s refused ran h = not_well s refused ran (λ e. cc)
  not_taken-IsPassed s badconn ran h = not_well s badconn ran (λ e. cc)
  not_taken-IsPassed s svr_err ran h = not_well s svr_err ran (λ e. cc)
  not_taken-IsPassed s unknown ran h = not_well s unknown ran (λ e. cc)

  not_success : (s : Session) (status : Status) → status ≢ success → is_taken s status ≡ false
  not_success s success h = absurd (h refl)
  not_success s timeout h = refl
  not_success s refused h = refl
  not_success s badconn h = refl
  not_success s svr_err h = refl
  not_success s unknown h = refl

  module _ {D : Type 0} (c : Slave D) where
    same_slave : (x y : Slave D) → done x ≡ done y → y ≡ x
    same_slave x y e = cc

    rejoined-on_session : (s : Session) → rejoined s c ≡ on_session s c
    unfolding rejoined
    rejoined-on_session s = refl

    await_master-Comes :
        (accepts : List (Option Session)) (c' : Slave D)
        → await_master secret name accepts c ≡ done c'
        → (s : Session) × (c' ≡ on_session s c) × Comes accepts s
    unfolding await_master
    await_master-Comes [] c' h = absurd (cc)
    await_master-Comes (none ∷ rest) c' h =
        let (s, same, comes) = await_master-Comes rest c' h in
        (s, same, Comes-behind none rest s not_accepted comes)
    await_master-Comes (some t ∷ rest) c' h =
        let (status, ran, h1) = bind-done (shaken secret name t) _ c' h in
        elim (Bool-cases (is_taken t status)) [
          | inl taken ↦
              let (well, kept) = taken-success t status taken in
              (
                t,
                same_slave (rejoined t c) c' (rw taken at h1) ∙ rejoined-on_session t,
                record {
                  before = [];
                  behind = rest;
                  passed = tt;
                  there = refl;
                  well = ran ∙ ap done well;
                  kept = kept;
                },
              )
          | inr other ↦
              let (s, same, comes) = await_master-Comes rest c' (rw other at h1) in
              (s, same, Comes-behind (some t) rest s (not_taken-IsPassed t status ran other) comes)
        ]

    passes :
        (a : Option Session) (rest : List (Option Session))
        → IsPassed a
        → await_master secret name (a ∷ rest) c ≡ await_master secret name rest c
    unfolding await_master
    passes none rest not_accepted = refl
    passes (some s) rest (not_well s' status ran other) = rw (ran, not_success s status other) refl
    passes (some s) rest (not_kept s' ran gone) = rw (ran, gone) refl

    pass_all :
        (before rest : List (Option Session))
        → All IsPassed before
        → await_master secret name (before ++ rest) c ≡ await_master secret name rest c
    pass_all [] rest h = refl
    pass_all (a ∷ before) rest h = passes a (before ++ rest) h.0 ∙ pass_all before rest h.1

    Comes-await_master :
        (accepts : List (Option Session)) (s : Session)
        → Comes accepts s
        → await_master secret name accepts c ≡ done (on_session s c)
    unfolding await_master
    Comes-await_master accepts s d =
        ap (λ l. await_master secret name l c) d.there
        ∙ (pass_all d.before (some s ∷ d.behind) d.passed
            ∙ (ap
                  (λ o. o >>= λ status.
                    if is_taken s status
                    then done (rejoined s c)
                    else await_master secret name d.behind c)
                  d.well
                ∙ (then_branch s.keep_alive (done (rejoined s c)) _ d.kept
                    ∙ ap done (rejoined-on_session s))))

    not_sent :
        (sent : Bool) → c.node.closed ≡ true → send_master sent heartbeat c.node ≡ done c.node
    unfolding send_master
    not_sent sent lost = then_branch c.node.closed (done c.node) _ lost

    lost_round :
        (sent can_listen : Bool) (accepts : List (Option Session))
        → c.node.closed ≡ true
        → rediscover_master secret name sent can_listen accepts c
          ≡ (if can_listen then await_master secret name accepts c else done c)
    unfolding rediscover_master
    lost_round sent can_listen accepts lost =
        ap
          (λ o. o >>= λ node.
            if node.closed
            then (if can_listen
                then await_master secret name accepts (record c { node = node })
                else done (record c { node = node }))
            else done (record c { node = node }))
          (not_sent sent lost)
        ∙ then_branch c.node.closed _ (done c) lost

    -- A round of a slave that has lost its master ends, where the port can be listened to, exactly
    -- with the first connection on which the handshake ends well and which can be kept: the slave is
    -- then open on it, nothing has been written on it, and all else is as it was. Where the port
    -- cannot be listened to, it ends at once and nothing has changed.
    pub rediscover_master-done_iff :
        (sent can_listen : Bool) (accepts : List (Option Session)) (c' : Slave D)
        → c.node.closed ≡ true
        → (rediscover_master secret name sent can_listen accepts c ≡ done c') ↔ (
            ((can_listen ≡ false) × (c' ≡ c))
            ⊎ ((can_listen ≡ true) × (s : Session) × (c' ≡ on_session s c) × Comes accepts s))
    rediscover_master-done_iff sent true accepts c' lost =
        let here = lost_round sent true accepts lost in
        (
          λ h.
              let (s, same, comes) = await_master-Comes accepts c' (sym here ∙ h) in
              inr (refl, s, same, comes),
          λ r. elim r [
            | inl closed_port ↦ absurd (not_both closed_port.0)
            | inr (e, s, same, comes) ↦
                here ∙ (Comes-await_master accepts s comes ∙ ap done (sym same))
          ],
        )
      where
        not_both : true ≡ false → ⊥
        not_both e = cc
    rediscover_master-done_iff sent false accepts c' lost =
        let here = lost_round sent false accepts lost in
        (
          λ h. inl (refl, same_slave c c' (sym here ∙ h)),
          λ r. elim r [
            | inl (e, same) ↦ here ∙ ap done (sym same)
            | inr open_port ↦ absurd (not_both open_port.0)
          ],
        )
      where
        not_both : false ≡ true → ⊥
        not_both e = cc
