-- ===== src/Cluster/Handshake/Secret.antt =====
-- A slave that has a secret takes no master without it.
use grandma_scheduling_servi.Prelude.{
  ◌≡◌, ◌≢◌, refl, sym, ap, subst, ◌∙◌, Bool, true, false, List, [], ◌∷◌, if◌then◌else◌, Outcome,
  done, panic, blocked, ◌>>=◌,
}
use grandma_scheduling_servi.Prelude.Text.{Bytes, bytes_eq, bytes_eq_sound}
use grandma_scheduling_servi.Cluster.Handshake.{
  Status, success, badconn, svr_err, timeout, Arrival, bytes, Reception, got, bad, timed_out,
  Script, finish, write, receive, or_answer, read_and_check_time_out, slave_secret, slave_locked,
  slave_name, give_up, handshake_slave, run,
}
use grandma_scheduling_servi.Cluster.Handshake.Reads.{got-bytes}

-- A status that is given up with is no success.
run-give_up :
    (b : Bytes) (s : Status) (ws : List Bool) (rs : List Arrival)
    → run (write b (finish s) (finish s)) ws rs ≡ done s
unfolding run
run-give_up b s [] rs = refl
run-give_up b s (true ∷ ws) rs = refl
run-give_up b s (false ∷ ws) rs = refl

clash : (s : Status) → s ≢ success → done s ≡ done success → ⊥
clash s differs e = differs (cc)

no_panic : panic ≡ done success → ⊥
no_panic e = cc

no_wait : blocked ≡ done success → ⊥
no_wait e = cc

-- Success after a read with `or_answer` comes by data.
received :
    (x y : Bytes) (k : Bytes → Script) (ws : List Bool) (rs : List Arrival)
    → run (receive (or_answer x y k)) ws rs ≡ done success
    → (d : Bytes) × (rest : List Arrival) × (rs ≡ bytes d ∷ rest)
      × (run (k d) ws rest ≡ done success)
unfolding run
received x y k ws [] h = absurd (clash timeout (λ e. cc) (sym (run-give_up y timeout ws []) ∙ h))
received x y k ws (r ∷ rs) h = by_reception (read_and_check_time_out r) refl
  where
    by_reception :
        (o : Outcome Reception)
        → read_and_check_time_out r ≡ o
        → (d : Bytes) × (rest : List Arrival) × (r ∷ rs ≡ bytes d ∷ rest)
          × (run (k d) ws rest ≡ done success)
    by_reception panic e =
        absurd
          (no_panic (subst (λ o. (o >>= λ c. run (or_answer x y k c) ws rs) ≡ done success) e h))
    by_reception blocked e =
        absurd
          (no_wait (subst (λ o. (o >>= λ c. run (or_answer x y k c) ws rs) ≡ done success) e h))
    by_reception (done (got d)) e = (
      d,
      rs,
      ap (λ a. a ∷ rs) (got-bytes r d e),
      subst (λ o. (o >>= λ c. run (or_answer x y k c) ws rs) ≡ done success) e h,
    )
    by_reception (done bad) e = absurd (
        clash badconn (λ e'. cc)
          (sym (run-give_up x badconn ws rs)
            ∙ subst (λ o. (o >>= λ c. run (or_answer x y k c) ws rs) ≡ done success) e h))
    by_reception (done timed_out) e = absurd (
        clash timeout (λ e'. cc)
          (sym (run-give_up y timeout ws rs)
            ∙ subst (λ o. (o >>= λ c. run (or_answer x y k c) ws rs) ≡ done success) e h))

-- Success after a write whose failure is given up comes by its success.
written :
    (b : Bytes) (next : Script) (b' : Bytes) (s : Status) (ws : List Bool) (rs : List Arrival)
    → s ≢ success
    → run (write b next (write b' (finish s) (finish s))) ws rs ≡ done success
    → (ws' : List Bool) × (run next ws' rs ≡ done success)
unfolding run
written b next b' s [] rs differs h = absurd (clash s differs (sym (run-give_up b' s [] rs) ∙ h))
written b next b' s (true ∷ ws) rs differs h = (ws, h)
written b next b' s (false ∷ ws) rs differs h =
    absurd (clash s differs (sym (run-give_up b' s ws rs) ∙ h))

-- Success behind a test that gives up where it fails.
chosen :
    (b : Bool) (next : Script) (answer : Bytes) (s : Status) (ws : List Bool) (rs : List Arrival)
    → s ≢ success
    → run (if b then next else write answer (finish s) (finish s)) ws rs ≡ done success
    → (b ≡ true) × (run next ws rs ≡ done success)
chosen true next answer s ws rs differs h = (refl, h)
chosen false next answer s ws rs differs h =
    absurd (clash s differs (sym (run-give_up answer s ws rs) ∙ h))

not_empty : (s : Bytes) → s ≢ [] → bytes_eq s [] ≡ false
unfolding bytes_eq
not_empty [] h = absurd (h refl)
not_empty (c ∷ s) h = refl

pub slave_secret-slave_locked :
    (secret name : Bytes) → secret ≢ [] → slave_secret secret name ≡ slave_locked secret name
unfolding slave_secret
slave_secret-slave_locked secret name locked = rw (not_empty secret locked)

-- What becomes of the answer of the master.
abbrev tested : Bytes → Bytes → Bytes → Script
tested secret name answer =
    if bytes_eq answer secret
    then write (210 ∷ []) (slave_name name) (give_up (211 ∷ []) svr_err)
    else give_up (212 ∷ []) badconn

-- A slave with a secret ends its handshake well only where the request came first and then its
-- secret, byte for byte: so on any network, whatever the other side sends, and whichever of the
-- writes fail.
pub handshake_slave-secret :
    (secret name : Bytes) (ws : List Bool) (rs : List Arrival)
    → secret ≢ []
    → run (handshake_slave secret name) ws rs ≡ done success
    → (rest : List Arrival) × (rs ≡ bytes (100 ∷ []) ∷ bytes secret ∷ rest)
unfolding handshake_slave slave_locked
handshake_slave-secret secret name ws rs locked h =
    let (request, rest, e, h1) = received _ _ _ ws rs h in
    let (asked, h2) =
      chosen (bytes_eq request (100 ∷ [])) (slave_secret secret name) _ badconn ws rest (λ e'. cc)
        h1 in
    let h3 =
      subst (λ p. run p ws rest ≡ done success) (slave_secret-slave_locked secret name locked) h2 in
    let (ws', h4) =
      written _ (receive (or_answer (211 ∷ []) (213 ∷ []) (tested secret name))) _ svr_err ws rest
        (λ e'. cc) h3 in
    let (answer, rest', e', h5) = received (211 ∷ []) (213 ∷ []) (tested secret name) ws' rest h4 in
    let (same, h6) = chosen (bytes_eq answer secret) _ _ badconn ws' rest' (λ e''. cc) h5 in
    (
      rest',
      e
          ∙ ap (λ l. bytes request ∷ l) e'
          ∙ ap (λ b. bytes b ∷ bytes answer ∷ rest') (bytes_eq_sound request (100 ∷ []) asked)
          ∙ ap (λ b. bytes (100 ∷ []) ∷ bytes b ∷ rest') (bytes_eq_sound answer secret same),
    )
