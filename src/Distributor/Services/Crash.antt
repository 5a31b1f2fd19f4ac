-- ===== src/Distributor/Services/Crash.antt =====
-- Which message ends the program when it is delivered.
use grandma_scheduling_servi.Prelude.{
  List, [], ◌∷◌, sym, ◌∙◌, Result, ok, err, then_branch, else_branch, ℕ, ◌≡◌, ◌↔◌, refl, inl, inr,
  Bool, Bool-cases, true, false, Option, none, some, if◌then◌else◌, Outcome, done, panic, blocked,
  ◌>>=◌,
}
use grandma_scheduling_servi.Prelude.Int.{ℤ, pos, ◌=ℤ◌, same_number}
use grandma_scheduling_servi.Prelude.Text.{Bytes, codes}
use grandma_scheduling_servi.Message.{Obj}
use grandma_scheduling_servi.Ws.{Connection, ConnMap}
use grandma_scheduling_servi.Ws.Sockets.{Sockets, hand_over}
use grandma_scheduling_servi.Distributor
use grandma_scheduling_servi.Distributor.{
  Job, rest_call, web_socket_msg, sms_message, gcm_push_notification, email_msg, dispatch,
  send_web_socket_msg,
}
use grandma_scheduling_servi.Distributor.Services.{
  Services, twilio_url, sms_post, sms_answered, send_sms_message, hand_to, run_job, deliver, is_nil,
}

module _ (services : Services) where
  -- The request for a text message can be made, and gets no answer.
  abbrev pub IsUnanswered : Bytes → Bytes → Type 0
  IsUnanswered endpoint msg =
      (services.http.is_request (codes "POST") (twilio_url services) ≡ true)
      × (services.post (sms_post services endpoint msg) ≡ none)

  -- The job is one that ends the program.
  abbrev Crashes : Option Job → Type 0
  Crashes (some (sms_message endpoint msg)) = IsUnanswered endpoint msg
  Crashes _ = ⊥

  answered_panics :
      {S : Type 0} (ss : S) (r : Option ℕ)
      → (◌>>=◌ {B = Bool × S} (sms_answered services r) (λ x. done (is_nil x, ss)) ≡ panic)
        ↔ (r ≡ none)
  unfolding sms_answered
  answered_panics ss none = (λ h. refl, λ h. refl)
  answered_panics ss (some status) = (λ h. cc, λ h. cc)

  sms-panic_iff :
      {S : Type 0} (ss : S) (endpoint msg : Bytes)
      → (◌>>=◌ {B = Bool × S} (send_sms_message services endpoint msg) (λ r. done (is_nil r, ss))
          ≡ panic)
        ↔ IsUnanswered endpoint msg
  unfolding send_sms_message
  sms-panic_iff ss endpoint msg =
      elim (Bool-cases (services.http.is_request (codes "POST") (twilio_url services))) [
        | inl made ↦
            let panics = answered_panics ss (services.post (sms_post services endpoint msg)) in
            rw made (λ h. (refl, panics.0 h), λ u. panics.1 u.1)
        | inr refused ↦ rw refused (λ h. cc, λ u. cc)
      ]

  behind_call :
      {A B : Type 0} (o : Outcome A) (f : A → B) → ((o >>= λ a. done (f a)) ≡ panic) ↔ (o ≡ panic)
  behind_call (done a) f = (λ h. cc, λ h. cc)
  behind_call panic f = (λ h. refl, λ h. refl)
  behind_call blocked f = (λ h. cc, λ h. cc)

  hand_over-safe :
      (fine : ℕ → Bool) (msg : Bytes) (cs : List Connection) (ss : Sockets)
      → hand_over fine msg cs ss ≡ panic
      → ⊥
  unfolding hand_over
  hand_over-safe fine msg [] ss h = cc
  hand_over-safe fine msg (c ∷ cs) ss h = elim (Bool-cases (ss c.pointer).beats) [
    | inl beats ↦
        hand_over-safe fine msg cs _ (sym (then_branch (ss c.pointer).beats _ _ beats) ∙ h)
    | inr stopped ↦ clash (sym (else_branch (ss c.pointer).beats _ _ stopped) ∙ h)
  ]
    where
      clash : ◌≡◌ {A = Outcome Sockets} blocked panic → ⊥
      clash e = cc

  hand_to-safe :
      (fine : ℕ → Bool) (msg : Bytes) (ss : Sockets)
      (r : Result Distributor.Error (Option (List Connection)))
      → hand_to services fine msg ss r ≡ panic
      → ⊥
  unfolding hand_to
  hand_to-safe fine msg ss (err e) h = cc
  hand_to-safe fine msg ss (ok none) h = cc
  hand_to-safe fine msg ss (ok (some conns)) h =
      hand_over-safe fine msg conns ss ((behind_call (hand_over fine msg conns ss) _).0 h)

  run_job-panic_iff :
      (fine : ℕ → Bool) (m : ConnMap) (ss : Sockets) (job : Job)
      → (run_job services fine m ss job ≡ panic) ↔ Crashes (some job)
  unfolding run_job
  run_job-panic_iff fine m ss (rest_call endpoint msg) = (λ h. cc, λ h. absurd h)
  run_job-panic_iff fine m ss (web_socket_msg endpoint msg) =
      (λ h. hand_to-safe fine msg ss (send_web_socket_msg endpoint m) h, λ h. absurd h)
  run_job-panic_iff fine m ss (sms_message endpoint msg) = sms-panic_iff ss endpoint msg
  run_job-panic_iff fine m ss (gcm_push_notification endpoint msg) = (λ h. cc, λ h. absurd h)
  run_job-panic_iff fine m ss (email_msg endpoint msg) = (λ h. cc, λ h. absurd h)

  job-panic_iff :
      (fine : ℕ → Bool) (m : ConnMap) (ss : Sockets) (o : Option Job)
      → ((elim o as (λ _. Outcome (Option Bool × Sockets)) [
        | none ↦ done (none, ss)
        | some job ↦ run_job services fine m ss job >>= λ r. done (some r.0, r.1)
      ])
          ≡ panic)
        ↔ Crashes o
  job-panic_iff fine m ss none = (λ h. cc, λ h. absurd h)
  job-panic_iff fine m ss (some job) =
      let ran = behind_call (run_job services fine m ss job) (λ r. (some r.0, r.1)) in
      let crash = run_job-panic_iff fine m ss job in
      (λ h. crash.0 (ran.0 h), λ c. ran.1 (crash.1 c))

  -- Whatever the tests for the other types say.
  harmless :
      (a b c d : Bool) (endpoint msg : Bytes)
      → Crashes (
          if a
          then some (rest_call endpoint msg)
          else if b
          then some (web_socket_msg endpoint msg)
          else if c
          then some (gcm_push_notification endpoint msg)
          else if d
          then some (email_msg endpoint msg)
          else none)
      → ⊥
  harmless true b c d endpoint msg h = h
  harmless false true c d endpoint msg h = h
  harmless false false true d endpoint msg h = h
  harmless false false false true endpoint msg h = h
  harmless false false false false endpoint msg h = h

  dispatch-Crashes :
      (msg : Obj)
      → Crashes (dispatch msg)
        ↔ ((msg.message_type ≡ pos 109) × IsUnanswered msg.endpoint msg.message_body)
  unfolding dispatch
  dispatch-Crashes msg = elim (Bool-cases (msg.message_type =ℤ pos 109)) [
    | inl text_message ↦
        let e = same_number msg.message_type 109 text_message in rw e (λ h. (refl, h), λ s. s.1)
    | inr other ↦ (
      λ h. absurd (harmless _ _ _ _ msg.endpoint msg.message_body (rw other at h)),
      λ s. absurd (clash msg.message_type s.0 other),
    )
  ]
    where
      clash : (t : ℤ) → t ≡ pos 109 → (t =ℤ pos 109) ≡ false → ⊥
      clash t e h = cc

  -- To deliver a message ends the program exactly where it is a text message, its request can be
  -- made, and there is no answer to it: every other sender returns, or waits.
  pub deliver-panic_iff :
      (fine : ℕ → Bool) (m : ConnMap) (ss : Sockets) (msg : Obj)
      → (deliver services fine m ss msg ≡ panic)
        ↔ ((msg.message_type ≡ pos 109) × IsUnanswered msg.endpoint msg.message_body)
  unfolding deliver
  deliver-panic_iff fine m ss msg =
      let ran = job-panic_iff fine m ss (dispatch msg) in
      (λ h. (dispatch-Crashes msg).0 (ran.0 h), λ u. ran.1 ((dispatch-Crashes msg).1 u))
