-- ===== src/Distributor/Services/Gcm.antt =====
-- What a push notification is made of.
use grandma_scheduling_servi.Prelude.{◌≡◌, true, [], ◌∷◌, some, ok}
use grandma_scheduling_servi.Prelude.Text.{Bytes, codes}
use grandma_scheduling_servi.Json
use grandma_scheduling_servi.Json.{Json, Fields, object, text, Value}
use grandma_scheduling_servi.Json.Path.{at}
use grandma_scheduling_servi.Distributor
use grandma_scheduling_servi.Distributor.{answered, invalid_endpoint_or_body}
use grandma_scheduling_servi.Distributor.Services.{Services, gcm_url, gcm_text, gcm_post}

-- A message with the four fields that a push notification is made of, whose request is answered with
-- status 200.
pub record Pushed (services : Services) (endpoint message : Bytes) : Type 0 where
  pub root : Value
  pub decoded : services.decode message ≡ ok root
  pub kind : Bytes
  pub kind_there : at root.contents (codes "type" ∷ []) ≡ some (text kind)
  pub title : Bytes
  pub title_there : at root.contents (codes "title" ∷ []) ≡ some (text title)
  pub body : Bytes
  pub body_there : at root.contents (codes "body" ∷ []) ≡ some (text body)
  pub payload : Fields
  pub payload_there : at root.contents (codes "payload" ∷ []) ≡ some (object payload)
  pub made : services.http.is_request (codes "POST") gcm_url ≡ true
  pub taken :
      services.post
        (gcm_post services (gcm_text endpoint title body kind (services.marshal (object payload))))
      ≡ some 200
