-- ===== src/Ws/Sockets/Delivery.antt =====
-- Whom `Send` reaches, and when it waits for ever.
use grandma_scheduling_servi.Prelude.{
  ℕ, ◌≡◌, ◌↔◌, refl, sym, ap, subst, ◌∙◌, inl, inr, Bool, Bool-cases, true, false, ◌||◌, List, [],
  ◌∷◌, ◌++◌, some, if◌then◌else◌, then_branch, else_branch, All, Outcome, done, blocked, ◌>>=◌,
  bind-done, Result, ok, ◌==◌, arith,
}
use grandma_scheduling_servi.Prelude.Text.{Bytes, bytes_eq}
use grandma_scheduling_servi.Ws.{Connection, Error, ConnMap, recipients}
use grandma_scheduling_servi.Ws.Sockets.{
  text, Socket, Sockets, set_socket, heartbeat, hand_over, send_message,
}

-- The address is one of these connections'.
abbrev pub is_one : ℕ → List Connection → Bool
is_one p [] = false
is_one p (c ∷ cs) = c.pointer == p || is_one p cs

-- No connection stands twice in the list.
abbrev pub AreDistinct : List Connection → Type 0
AreDistinct [] = Unit
AreDistinct (c ∷ cs) = (is_one c.pointer cs ≡ false) × AreDistinct cs

-- The connections that a key selects: all of them, or those with that key.
abbrev pub chosen : Bytes → List Connection → List Connection
chosen [] l = l
chosen (k ∷ key) [] = []
chosen (k ∷ key) (c ∷ cs) =
    let others = chosen (k ∷ key) cs in if bytes_eq c.key (k ∷ key) then c ∷ others else others

recipients-chosen : (key : Bytes) (l : List Connection) → recipients key l ≡ chosen key l
unfolding recipients bytes_eq
recipients-chosen [] [] = refl
recipients-chosen [] (c ∷ cs) = ap (λ l. c ∷ l) (recipients-chosen [] cs)
recipients-chosen (k ∷ key) [] = refl
recipients-chosen (k ∷ key) (c ∷ cs) =
    ap (λ l. if bytes_eq c.key (k ∷ key) then c ∷ l else l) (recipients-chosen (k ∷ key) cs)

-- A socket behind a message: it is written, or the write fails and the `Heartbeat` ends.
abbrev pub taken : Bool → Bytes → Socket → Socket
taken true msg s = record {
  beats = s.beats;
  closed = s.closed;
  written = s.written ++ (text msg ∷ []);
}
taken false msg s = record { beats = false; closed = true; written = s.written }

heartbeat-taken :
    (fine : Bool) (msg : Bytes) (s : Socket) → heartbeat fine (text msg) s ≡ taken fine msg s
unfolding heartbeat
heartbeat-taken true msg s = refl
heartbeat-taken false msg s = refl

-- Every one of these connections has taken the message, and no other.
abbrev pub reached : (ℕ → Bool) → Bytes → List Connection → Sockets → Sockets
reached fine msg cs ss p = if is_one p cs then taken (fine p) msg (ss p) else ss p

abbrev pub Beat : Sockets → List Connection → Type 0
Beat ss cs = All (λ c. (ss c.pointer).beats ≡ true) cs

no_wait : (a : Sockets) → blocked ≡ done a → ⊥
no_wait a e = cc

clash : (b : Bool) → b ≡ true → b ≡ false → ⊥
clash b h k = cc

same_sockets : (a b : Sockets) → done a ≡ done b → b ≡ a
same_sockets a b e = cc

module _ (fine : ℕ → Bool) (msg : Bytes) where
  abbrev after : Connection → Sockets → Sockets
  after c ss = set_socket c.pointer (heartbeat (fine c.pointer) (text msg) (ss c.pointer)) ss

  -- A recipient behind another is as it was.
  Beat-after :
      (c : Connection) (cs : List Connection) (ss : Sockets)
      → is_one c.pointer cs ≡ false
      → Beat (after c ss) cs ↔ Beat ss cs
  Beat-after c [] ss new = (λ h. tt, λ h. tt)
  Beat-after c (d ∷ cs) ss new =
      let other : (c.pointer == d.pointer) ≡ false = ground (arith, new) in
      let rest : is_one c.pointer cs ≡ false = ground (arith, new) in
      let (down, up) = Beat-after c cs ss rest in
      rw other (λ h. (h.0, down h.1), λ h. (h.0, up h.1))

  reached-after :
      (c : Connection) (cs : List Connection) (ss : Sockets)
      → is_one c.pointer cs ≡ false
      → reached fine msg cs (after c ss) ≡ reached fine msg (c ∷ cs) ss
  reached-after c cs ss new = λ i p. at_socket p i
    where
      at_own : reached fine msg cs (after c ss) c.pointer ≡ reached fine msg (c ∷ cs) ss c.pointer
      at_own =
          let itself : (c.pointer == c.pointer) ≡ true = ground arith in
          rw (new, itself) (heartbeat-taken (fine c.pointer) msg (ss c.pointer))

      at_socket : (p : ℕ) → reached fine msg cs (after c ss) p ≡ reached fine msg (c ∷ cs) ss p
      at_socket p = elim (Bool-cases (c.pointer == p)) [
        | inl here ↦
            subst (λ q. reached fine msg cs (after c ss) q ≡ reached fine msg (c ∷ cs) ss q)
              (ground (arith, here)) at_own
        | inr elsewhere ↦ rw elsewhere refl
      ]

  hand_over-done_iff :
      (cs : List Connection) (ss ss' : Sockets)
      → AreDistinct cs
      → (hand_over fine msg cs ss ≡ done ss') ↔ (Beat ss cs × (ss' ≡ reached fine msg cs ss))
  unfolding hand_over
  hand_over-done_iff [] ss ss' d = (λ h. (tt, same_sockets ss ss' h), λ h. ap done (sym h.1))
  hand_over-done_iff (c ∷ cs) ss ss' d = elim (Bool-cases (ss c.pointer).beats) [
    | inl beats ↦
        let there = hand_over-done_iff cs (after c ss) ss' d.1 in
        let same = reached-after c cs ss d.0 in
        let (down, up) = Beat-after c cs ss d.0 in
        let here =
          then_branch (ss c.pointer).beats (hand_over fine msg cs (after c ss)) blocked beats in
        (
          λ h. let (others, e) = there.0 (sym here ∙ h) in ((beats, down others), e ∙ same),
          λ h. here ∙ there.1 (up h.0.1, h.1 ∙ sym same),
        )
    | inr stopped ↦
        let here =
          else_branch (ss c.pointer).beats (hand_over fine msg cs (after c ss)) blocked stopped in
        (
          λ h. absurd (no_wait ss' (sym here ∙ h)),
          λ h. absurd (clash (ss c.pointer).beats h.0.0 stopped),
        )
  ]

  -- Where an id has connections, of which those that the key selects are all different, `Send`
  -- returns well exactly where the `Heartbeat` of each of these still runs: each has then taken the
  -- message, once, and written it behind what it had written, or ended where its write fails, and no
  -- other connection has changed.
  pub send_message-ok_iff :
      (id key : Bytes) (m : ConnMap) (l : List Connection) (ss ss' : Sockets)
      → m id ≡ some l
      → AreDistinct (chosen key l)
      → (send_message fine id key msg m ss ≡ done (ok ss'))
        ↔ (Beat ss (chosen key l) × (ss' ≡ reached fine msg (chosen key l) ss))
  unfolding send_message
  send_message-ok_iff id key m l ss ss' e d =
      let handed = hand_over-done_iff (chosen key l) ss ss' d in
      let same = recipients-chosen key l in
      let there : send_message fine id key msg m ss
          ≡ (hand_over fine msg (chosen key l) ss >>= λ x. done (ok x)) =
        rw (e, send_message, same) refl in
      (
        λ h.
            let (ss1, ran, h1) =
              bind-done (hand_over fine msg (chosen key l) ss) _ _ (sym there ∙ h) in
            handed.0 (ran ∙ ap done (same_result ss1 ss' h1)),
        λ h. there ∙ ap (λ o. o >>= λ x. done (ok x)) (handed.1 h),
      )
    where
      same_result :
          (a b : Sockets)
          → ◌≡◌ {A = Outcome (Result Error Sockets)} (done (ok a)) (done (ok b))
          → a ≡ b
      same_result a b e' = cc
