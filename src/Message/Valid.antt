-- ===== src/Message/Valid.antt =====
-- What `NewMessageObject` accepts, and which error it reports.
use grandma_scheduling_servi.Prelude.{◌≡◌, ◌≢◌, ◌↔◌, ◌⊎◌, [], ◌∷◌, arith, ok, err}
use grandma_scheduling_servi.Prelude.Int.{ℤ, pos, ◌≤ℤ◌}
use grandma_scheduling_servi.Prelude.Text.{Bytes}
use grandma_scheduling_servi.Message.{
  Obj, no_endpoint, expiration_too_big, negative_expiration, invalid_type, max_expiration,
  new_message_object,
}

pub record IsValid (o : Obj) : Type 0 where
  pub addressed : o.endpoint ≢ []
  pub not_negative : pos 0 ≤ℤ o.expiration
  pub within : o.expiration ≤ℤ max_expiration
  pub type_low : pos 100 ≤ℤ o.message_type
  pub type_high : o.message_type ≤ℤ pos 109

-- `NewMessageObject` returns a message exactly when that message is valid, and it is then made of
-- the four arguments.
pub new_message_object-ok_iff :
    (t : ℤ) (e b : Bytes) (x : ℤ) (o : Obj)
    → (new_message_object t e b x ≡ ok o) ↔ (
        (o ≡ record { message_type = t; endpoint = e; message_body = b; expiration = x })
        × IsValid o)
unfolding new_message_object
new_message_object-ok_iff t [] b x o = (λ h. ground arith, λ h. ground arith)
new_message_object-ok_iff t (c ∷ e) b x o = (λ h. ground arith, λ h. ground arith)

-- Which error is reported: the first that applies, in the order endpoint, expiration too big,
-- expiration negative, type.
new_message_object-err_iff :
    (t : ℤ) (e b : Bytes) (x : ℤ)
    → ((new_message_object t e b x ≡ err no_endpoint) ↔ (e ≡ []))
      × ((new_message_object t e b x ≡ err expiration_too_big)
          ↔ ((e ≢ []) × ¬ (x ≤ℤ max_expiration)))
      × ((new_message_object t e b x ≡ err negative_expiration) ↔ ((e ≢ []) × ¬ (pos 0 ≤ℤ x)))
      × ((new_message_object t e b x ≡ err invalid_type) ↔ (
          (e ≢ [])
          × (pos 0 ≤ℤ x)
          × (x ≤ℤ max_expiration)
          × ((¬ (pos 100 ≤ℤ t)) ⊎ (¬ (t ≤ℤ pos 109)))))
unfolding new_message_object
new_message_object-err_iff t [] b x = ground arith
new_message_object-err_iff t (c ∷ e) b x = ground arith
