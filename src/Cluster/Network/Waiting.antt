-- ===== src/Cluster/Network/Waiting.antt =====
-- Which connection a slave takes for its master.
use grandma_scheduling_servi.Prelude.{
  ◌≡◌, ◌≢◌, ◌↔◌, refl, ap, subst, ◌∙◌, Bool, true, false, List, [], ◌∷◌, ◌++◌, Option, none, some,
  if◌then◌else◌, All, Outcome, done, panic, blocked, Result, ok, err, ◌>>=◌,
}
use grandma_scheduling_servi.Prelude.Text.{Bytes}
use grandma_scheduling_servi.Cluster.Handshake.{
  Status, success, timeout, refused, badconn, svr_err, unknown,
}
use grandma_scheduling_servi.Cluster.Discovery.{Error, underlying}
use grandma_scheduling_servi.Cluster.Network.{Session, by_slave_status, shaken, accept_master}

module _ (secret name : Bytes) where
  -- The handshake ends, but not well.
  abbrev pub IsTurnedAway : Option Session → Type 0
  IsTurnedAway a =
      (s : Session) × (status : Status) × (a ≡ some s)
      × (shaken secret name s ≡ done status)
      × (status ≢ success)

  -- The first connection on which the handshake ends well, and which can be kept alive.
  pub record Takes (accepts : List (Option Session)) (s : Session) : Type 0 where
    pub before : List (Option Session)
    pub behind : List (Option Session)
    pub turned_away : All IsTurnedAway before
    pub there : accepts ≡ before ++ (some s ∷ behind)
    pub well : shaken secret name s ≡ done success
    pub alive : s.keep_alive ≡ true

  later :
      (a : Option Session) (accepts : List (Option Session)) (s : Session)
      → IsTurnedAway a
      → Takes accepts s
      → Takes (a ∷ accepts) s
  later a accepts s away t = record {
    before = a ∷ t.before;
    behind = t.behind;
    turned_away = (away, t.turned_away);
    there = ap (λ l. a ∷ l) t.there;
    well = t.well;
    alive = t.alive;
  }

  goes_on :
      (t : Session) (next : Outcome (Result Error Session)) (status : Status)
      → status ≢ success
      → by_slave_status t next status ≡ next
  unfolding by_slave_status
  goes_on t next success h = absurd (h refl)
  goes_on t next timeout h = refl
  goes_on t next refused h = refl
  goes_on t next badconn h = refl
  goes_on t next svr_err h = refl
  goes_on t next unknown h = refl

  -- Success is kept, if the connection can be.
  ends_here :
      (t s : Session) (rest : List (Option Session)) (alive : Bool)
      → t.keep_alive ≡ alive
      → shaken secret name t ≡ done success
      → ◌≡◌ {A = Outcome (Result Error Session)}
          (done (if alive then ok t else err underlying))
          (done (ok s))
      → Takes (some t ∷ rest) s
  ends_here t s rest true e well h =
      let same : t ≡ s = cc in
      record {
        before = [];
        behind = rest;
        turned_away = tt;
        there = ap (λ x. some x ∷ rest) same;
        well = subst (λ x. shaken secret name x ≡ done success) same well;
        alive = subst (λ x. x.keep_alive ≡ true) same e;
      }
  ends_here t s rest false e well h = absurd (cc)

  by_shaken :
      (t s : Session) (rest : List (Option Session))
      → (accept_master secret name rest ≡ done (ok s) → Takes rest s)
      → (o : Outcome Status) → shaken secret name t ≡ o
      → (o >>= by_slave_status t (accept_master secret name rest)) ≡ done (ok s)
      → Takes (some t ∷ rest) s
  unfolding by_slave_status
  by_shaken t s rest ih panic e h = absurd (cc)
  by_shaken t s rest ih blocked e h = absurd (cc)
  by_shaken t s rest ih (done success) e h = ends_here t s rest t.keep_alive refl e h
  by_shaken t s rest ih (done timeout) e h =
      later (some t) rest s (t, timeout, refl, e, λ e'. cc) (ih h)
  by_shaken t s rest ih (done refused) e h =
      later (some t) rest s (t, refused, refl, e, λ e'. cc) (ih h)
  by_shaken t s rest ih (done badconn) e h =
      later (some t) rest s (t, badconn, refl, e, λ e'. cc) (ih h)
  by_shaken t s rest ih (done svr_err) e h =
      later (some t) rest s (t, svr_err, refl, e, λ e'. cc) (ih h)
  by_shaken t s rest ih (done unknown) e h =
      later (some t) rest s (t, unknown, refl, e, λ e'. cc) (ih h)

  accept_master-Takes :
      (accepts : List (Option Session)) (s : Session)
      → accept_master secret name accepts ≡ done (ok s)
      → Takes accepts s
  unfolding accept_master
  accept_master-Takes [] s h = absurd (cc)
  accept_master-Takes (none ∷ rest) s h = absurd (cc)
  accept_master-Takes (some t ∷ rest) s h =
      by_shaken t s rest (accept_master-Takes rest s) (shaken secret name t) refl h

  one_away :
      (a : Option Session) (rest : List (Option Session))
      → IsTurnedAway a
      → accept_master secret name (a ∷ rest) ≡ accept_master secret name rest
  unfolding accept_master
  one_away a rest (t, status, e, ran, bad) =
      ap (λ x. accept_master secret name (x ∷ rest)) e
      ∙ (rw ran (goes_on t (accept_master secret name rest) status bad))

  all_away :
      (before rest : List (Option Session))
      → All IsTurnedAway before
      → accept_master secret name (before ++ rest) ≡ accept_master secret name rest
  all_away [] rest h = refl
  all_away (a ∷ before) rest h = one_away a (before ++ rest) h.0 ∙ all_away before rest h.1

  Takes-accept_master :
      (accepts : List (Option Session)) (s : Session)
      → Takes accepts s
      → accept_master secret name accepts ≡ done (ok s)
  unfolding accept_master by_slave_status
  Takes-accept_master accepts s t =
      ap (accept_master secret name) t.there
      ∙ (all_away t.before (some s ∷ t.behind) t.turned_away ∙ (rw (t.well, t.alive) refl))

  -- The loop that waits for a master ends with a connection exactly where the handshakes on all that
  -- came before it end, and not well, and its own ends well and it can be kept alive.
  pub accept_master-ok_iff :
      (accepts : List (Option Session)) (s : Session)
      → (accept_master secret name accepts ≡ done (ok s)) ↔ Takes accepts s
  accept_master-ok_iff accepts s = (accept_master-Takes accepts s, Takes-accept_master accepts s)
