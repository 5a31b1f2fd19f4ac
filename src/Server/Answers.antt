-- ===== src/Server/Answers.antt =====
-- What the handler answers, and which requests reach the cluster.
use grandma_scheduling_servi.Prelude.{
  ◌≡◌, ◌⊎◌, inl, inr, refl, sym, ap, ◌∙◌, Bool-cases, true, false, [], ◌∷◌, some, none, Option,
  done, Result, ok, err, Result-cases, ◌>>=◌, arith,
}
use grandma_scheduling_servi.Prelude.Text.{Bytes, codes, bytes_eq, bytes_eq_sound, bytes_eq_refl}
use grandma_scheduling_servi.Message.{Obj, new_message_object}
use grandma_scheduling_servi.Message.Valid.{IsValid, new_message_object-ok_iff}
use grandma_scheduling_servi.Json.{Json, Value, object_from_value, get_string, get_int64}
use grandma_scheduling_servi.Json.Path.{at}
use grandma_scheduling_servi.Json.Getters.{IsText, IsInt, get_string_iff, get_int64_iff}
use grandma_scheduling_servi.Json.Root.{object_from_value-contents, at-object_from_value}
use grandma_scheduling_servi.Server.{
  Request, Response, Library, bad_request, failure, ◌or◌then◌, read_message, answer, distribute,
  handle_body, handler,
}

-- The data under a key of the body.
abbrev pub Holds : Json → Bytes → (Json → Type 0) → Type 0
Holds root key Is = (j : Json) × (at root (key ∷ []) ≡ some j) × Is j

-- The body is JSON with the four fields of `obj`, which is a valid message.
pub record Encodes {S : Type 0} (lib : Library S) (body : Bytes) (obj : Obj) : Type 0 where
  pub root : Value
  pub decoded : lib.decode body ≡ ok root
  pub has_type : Holds root.contents (codes "type") (IsInt obj.message_type)
  pub has_endpoint : Holds root.contents (codes "endpoint") (IsText obj.endpoint)
  pub has_message : Holds root.contents (codes "message") (IsText obj.message_body)
  pub has_expiration : Holds root.contents (codes "expiration") (IsInt obj.expiration)
  pub valid : IsValid obj

or_then-ok :
    {E A B : Type 0} (r : Result E A) (reply : E → Response) (f : A → Result Response B) (b : B)
    → (r or reply then f) ≡ ok b
    → (a : A) × (r ≡ ok a) × (f a ≡ ok b)
or_then-ok (ok a) reply f b h = (a, refl, h)
or_then-ok (err e) reply f b h = absurd (cc)

same_ok : (a b : Obj) → ◌≡◌ {A = Result Response Obj} (ok a) (ok b) → a ≡ b
same_ok a b h = cc

-- Each refusal of a chain has the status that its answers have.
or_then-status :
    {E A B : Type 0} (r : Result E A) (reply : E → Response) (f : A → Result Response B)
    (res : Response)
    → ((e : E) → (reply e).status ≡ 400)
    → ((a : A) → f a ≡ err res → res.status ≡ 400)
    → (r or reply then f) ≡ err res
    → res.status ≡ 400
or_then-status (ok a) reply f res of_reply of_rest h = of_rest a h
or_then-status {E} {A} {B} (err e) reply f res of_reply of_rest h =
    ap (λ x. x.status) (sym (same_err (reply e) res h)) ∙ of_reply e
  where
    same_err : (x y : Response) → ◌≡◌ {A = Result Response B} (err x) (err y) → x ≡ y
    same_err x y h' = cc

no_refusal : (obj : Obj) (res : Response) → ok obj ≡ err res → res.status ≡ 400
no_refusal obj res h = cc

module _ {S : Type 0} (lib : Library S) where
  read_message-Encodes :
      (body : Bytes) (obj : Obj) → read_message lib body ≡ ok obj → Encodes lib body obj
  unfolding read_message
  read_message-Encodes body obj h =
      let (json, ej, h1) = or_then-ok (object_from_value (lib.decode body)) _ _ obj h in
      let (t, et, h2) = or_then-ok (get_int64 json (codes "type" ∷ [])) _ _ obj h1 in
      let (e, ee, h3) = or_then-ok (get_string json (codes "endpoint" ∷ [])) _ _ obj h2 in
      let (b, eb, h4) = or_then-ok (get_string json (codes "message" ∷ [])) _ _ obj h3 in
      let (x, ex, h5) = or_then-ok (get_int64 json (codes "expiration" ∷ [])) _ _ obj h4 in
      let (obj', eo, h6) = or_then-ok (new_message_object t e b x) _ _ obj h5 in
      let made = (new_message_object-ok_iff t e b x obj).0 (eo ∙ ap ok (same_ok obj' obj h6)) in
      let (root, ed, same) = object_from_value-contents (lib.decode body) json ej in
      rw made.0 (record {
        root = root;
        decoded = ed;
        has_type = rw (← same) ((get_int64_iff json (codes "type" ∷ []) t).0 et);
        has_endpoint = rw (← same) ((get_string_iff json (codes "endpoint" ∷ []) e).0 ee);
        has_message = rw (← same) ((get_string_iff json (codes "message" ∷ []) b).0 eb);
        has_expiration = rw (← same) ((get_int64_iff json (codes "expiration" ∷ []) x).0 ex);
        valid = rw (← made.0) made.1;
      })

  Encodes-read_message :
      (body : Bytes) (obj : Obj) → Encodes lib body obj → read_message lib body ≡ ok obj
  unfolding read_message
  Encodes-read_message body obj n =
      let (json, ej, same) = at-object_from_value n.root (codes "type") n.has_type.0 n.has_type.1 in
      let made : new_message_object obj.message_type obj.endpoint obj.message_body obj.expiration
          ≡ ok obj =
        (new_message_object-ok_iff _ _ _ _ obj).1 (refl, n.valid) in
      rw (
        n.decoded,
        ej,
        (get_int64_iff json (codes "type" ∷ []) obj.message_type).1 (rw same n.has_type),
        (get_string_iff json (codes "endpoint" ∷ []) obj.endpoint).1 (rw same n.has_endpoint),
        (get_string_iff json (codes "message" ∷ []) obj.message_body).1 (rw same n.has_message),
        (get_int64_iff json (codes "expiration" ∷ []) obj.expiration).1 (rw same n.has_expiration),
        made,
      )

  read_message-status :
      (body : Bytes) (res : Response) → read_message lib body ≡ err res → res.status ≡ 400
  unfolding read_message
  read_message-status body res =
      or_then-status (object_from_value (lib.decode body)) _ _ res (λ e. refl)
        (λ json.
          or_then-status (get_int64 json (codes "type" ∷ [])) _ _ res (λ e. refl)
            (λ t.
              or_then-status (get_string json (codes "endpoint" ∷ [])) _ _ res (λ e. refl)
                (λ endpoint.
                  or_then-status (get_string json (codes "message" ∷ [])) _ _ res (λ e. refl)
                    (λ msg.
                      or_then-status (get_int64 json (codes "expiration" ∷ [])) _ _ res (λ e. refl)
                        (λ exp.
                          or_then-status (new_message_object t endpoint msg exp) _ _ res (λ e. refl)
                            (λ obj. no_refusal obj res))))))

-- A request that the handler accepts, with its message.
pub record Accepted {S : Type 0} (lib : Library S) (r : Request) (obj : Obj) : Type 0 where
  pub posted : r.method ≡ codes "POST"
  pub body : Bytes
  pub arrived : r.body ≡ some body
  pub token : r.token ≡ codes "test"
  pub encodes : Encodes lib body obj

module _ {S : Type 0} (lib : Library S) (r : Request) (st : S) where
  -- The message of the request goes to `DistCalls`, whose result is answered.
  pub record Passes : Type 0 where
    pub obj : Obj
    pub accepted : Accepted lib r obj
    pub passed :
        handler lib r st ≡ (lib.dist_calls obj st >>= λ res. done (answer lib obj res.0, res.1))

  -- The answer is a refusal, and nothing changes.
  pub record Refuses : Type 0 where
    pub reply : Response
    pub refused : handler lib r st ≡ done (reply, st)
    pub status : (reply.status ≡ 400) ⊎ (reply.status ≡ 403)
    pub not_accepted : (obj : Obj) → ¬ Accepted lib r obj

differs : (xs ys : Bytes) → bytes_eq xs ys ≡ false → xs ≡ ys → ⊥
differs xs ys no_match same = ground (arith, bytes_eq_refl xs)

same_body : (b c : Bytes) → some b ≡ some c → b ≡ c
same_body b c h = cc

no_body : (b : Bytes) → none ≡ some b → ⊥
no_body b h = cc

no_message : (obj : Obj) (res : Response) → err res ≡ ok obj → ⊥
no_message obj res h = cc

-- An accepted request goes to `DistCalls` with its message.
pub handler-Accepted :
    {S : Type 0} (lib : Library S) (r : Request) (st : S) (obj : Obj)
    → Accepted lib r obj
    → handler lib r st ≡ (lib.dist_calls obj st >>= λ res. done (answer lib obj res.0, res.1))
unfolding handler handle_body distribute
handler-Accepted lib r st obj a = rw (
  a.posted,
  a.arrived,
  a.token,
  bytes_eq_refl (codes "POST"),
  bytes_eq_refl (codes "test"),
  Encodes-read_message lib a.body obj a.encodes,
)

module _ {S : Type 0} (lib : Library S) (r : Request) (st : S)
    (posted : bytes_eq r.method (codes "POST") ≡ true) where
  with_token :
      (body : Bytes)
      → r.body ≡ some body
      → bytes_eq r.token (codes "test") ≡ true
      → Passes lib r st ⊎ Refuses lib r st
  unfolding handler handle_body distribute
  with_token body eb known = elim (Result-cases (read_message lib body)) [
    | inl (obj, e) ↦ inl (record {
      obj = obj;
      accepted = record {
        posted = bytes_eq_sound r.method (codes "POST") posted;
        body = body;
        arrived = eb;
        token = bytes_eq_sound r.token (codes "test") known;
        encodes = read_message-Encodes lib body obj e;
      };
      passed = rw (posted, eb, known, e);
    })
    | inr (res, e) ↦ inr (record {
      reply = res;
      refused = rw (posted, eb, known, e);
      status = inl (read_message-status lib body res e);
      not_accepted = λ obj a.
          let same = same_body body a.body (sym eb ∙ a.arrived) in
          no_message obj res
            (sym e ∙ ap (read_message lib) same ∙ Encodes-read_message lib a.body obj a.encodes);
    })
  ]

  with_body : (b : Option Bytes) → r.body ≡ b → Passes lib r st ⊎ Refuses lib r st
  unfolding handler handle_body
  with_body none eb = inr (record {
    reply = bad_request lib;
    refused = rw (posted, eb);
    status = inl refl;
    not_accepted = λ obj a. no_body a.body (sym eb ∙ a.arrived);
  })
  with_body (some body) eb = elim (Bool-cases (bytes_eq r.token (codes "test"))) [
    | inl known ↦ with_token body eb known
    | inr unknown ↦ inr (record {
      reply = failure lib 403 (codes "Not authorized");
      refused = rw (posted, eb, unknown);
      status = inr refl;
      not_accepted = λ obj a. differs r.token (codes "test") unknown a.token;
    })
  ]

-- The handler passes the message of an accepted request to `DistCalls`, and answers with its result;
-- any other request it refuses with status 400 or 403, and changes nothing.
pub handler-Passes :
    {S : Type 0} (lib : Library S) (r : Request) (st : S) → Passes lib r st ⊎ Refuses lib r st
unfolding handler
handler-Passes lib r st = elim (Bool-cases (bytes_eq r.method (codes "POST"))) [
  | inl posted ↦ with_body lib r st posted r.body refl
  | inr other ↦ inr (record {
    reply = bad_request lib;
    refused = rw other;
    status = inl refl;
    not_accepted = λ obj a. differs r.method (codes "POST") other a.posted;
  })
]

-- The answer does not depend on the secret or the MAC: with any other `mac` the handler does the
-- same.
pub handler-mac :
    {S : Type 0} (lib : Library S) (mac : Bytes → Bytes) (r : Request) (st : S)
    → handler (record lib { mac = mac }) r st ≡ handler lib r st
unfolding handler handle_body distribute read_message answer
handler-mac lib mac r st = refl
