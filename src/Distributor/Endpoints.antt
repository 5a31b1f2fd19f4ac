-- ===== src/Distributor/Endpoints.antt =====
-- How the senders take an endpoint apart.
use grandma_scheduling_servi.Prelude.{ℕ, ◌≡◌, ◌↔◌, true, ◌∷◌, ◌++◌, Option, none, some, ok, arith}
use grandma_scheduling_servi.Prelude.Text.{Bytes, Lacks}
use grandma_scheduling_servi.Strconv.Parts.{split-Lacks, split-append}
use grandma_scheduling_servi.Ws.{ConnMap, send}
use grandma_scheduling_servi.Distributor.{Http, answered, send_rest_call, send_web_socket_msg}

-- An endpoint "id.key", where neither holds a dot, reaches the connections of that id with that key;
-- what stands behind a second dot is not read.
pub send_web_socket_msg-send :
    (id key more : Bytes) (m : ConnMap)
    → Lacks b'.' id
    → Lacks b'.' key
    → (send_web_socket_msg (id ++ (b'.' ∷ key)) m ≡ ok (send id key m))
      × (send_web_socket_msg (id ++ (b'.' ∷ (key ++ (b'.' ∷ more)))) m ≡ ok (send id key m))
unfolding send_web_socket_msg
send_web_socket_msg-send id key more m hi hk = (
  rw (split-append id key b'.' hi, split-Lacks key b'.' hk),
  rw (split-append id (key ++ (b'.' ∷ more)) b'.' hi, split-append key more b'.' hk),
)

pub answered-ok_iff : (r : Option ℕ) → (answered r ≡ ok tt) ↔ (r ≡ some 200)
unfolding answered
answered-ok_iff none = (λ h. cc, λ h. cc)
answered-ok_iff (some status) = (λ h. ground arith, λ h. ground arith)

-- A REST call is made exactly of the three parts of an endpoint "method url type", and it is well
-- when the answer has status 200.
pub send_rest_call-ok :
    (http : Http) (method url content_type msg : Bytes)
    → Lacks b' ' method
    → Lacks b' ' url
    → Lacks b' ' content_type
    → http.is_request method url ≡ true
    → (send_rest_call http (method ++ (b' ' ∷ (url ++ (b' ' ∷ content_type)))) msg ≡ ok tt)
      ↔ (http.do_request method url content_type msg ≡ some 200)
unfolding send_rest_call
send_rest_call-ok http method url content_type msg hm hu hc valid =
    rw
      (
        split-append method (url ++ (b' ' ∷ content_type)) b' ' hm,
        split-append url content_type b' ' hu,
        split-Lacks content_type b' ' hc,
        valid,
      )
      (answered-ok_iff (http.do_request method url content_type msg))
