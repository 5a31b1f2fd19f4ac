-- ===== src/Mapping/Batch.antt =====
-- Which batches of payloads `getPayload` makes.
use grandma_scheduling_servi.Prelude.{
  ℕ, ◌≡◌, ◌↔◌, ◌⊎◌, inl, inr, refl, sym, ap, ◌∙◌, Bool, true, false, List, [], ◌∷◌, some, Outcome,
  done, Result, ok, err, Result-cases, arith, length, ◌==◌, map, All, if◌then◌else◌,
}
use grandma_scheduling_servi.Prelude.Int.{ℤ, pos}
use grandma_scheduling_servi.Prelude.Text.{Bytes, codes, bytes_eq_sound}
use grandma_scheduling_servi.Json
use grandma_scheduling_servi.Json.{Object, array, get_string_array, get_string}
use grandma_scheduling_servi.Json.Path.{at}
use grandma_scheduling_servi.Json.Arrays.{texts, get_string_array-ok_iff}
use grandma_scheduling_servi.Mapping.{
  Error, Payload, ◌andthen◌, make, new_payloads, process_separate_payload, single_file, single_data,
  get_payload, wrong_payload_size,
}

-- The payload of one text.
abbrev pub payload_of : Bool → Bytes → Payload
payload_of isurl t =
    if isurl
    then record { urldata = true; url = t; data_text = [] }
    else record { urldata = false; url = []; data_text = t }

-- As a batch of URLs, each text must parse.
abbrev pub IsUsable : (Bytes → Bool) → Bool → Bytes → Type 0
IsUsable url_parses isurl t = (isurl ≡ false) ⊎ (url_parses t ≡ true)

pub andthen-ok :
    {A B : Type 0} (r : Result Json.Error A) (f : A → Outcome (Result Error B)) (b : B)
    → (r andthen f) ≡ done (ok b)
    → (a : A) × (r ≡ ok a) × (f a ≡ done (ok b))
andthen-ok (ok a) f b h = (a, refl, h)
andthen-ok (err e) f b h = absurd (cc)

module _ (url_parses : Bytes → Bool) where
  first_payload :
      (isurl : Bool) (t : Bytes) (ts : List Bytes) (ps : List Payload)
      → new_payloads url_parses isurl (t ∷ ts) ≡ ok ps
      → (qs : List Payload) × (new_payloads url_parses isurl ts ≡ ok qs)
        × (ps ≡ payload_of isurl t ∷ qs)
        × IsUsable url_parses isurl t
  unfolding new_payloads
  first_payload isurl t ts ps h = elim (Result-cases (new_payloads url_parses isurl ts)) [
    | inl (qs, e) ↦ (qs, e, ground arith, ground arith)
    | inr (f, e) ↦ absurd (ground arith)
  ]

  with_first_payload :
      (isurl : Bool) (t : Bytes) (ts : List Bytes) (qs : List Payload)
      → IsUsable url_parses isurl t
      → new_payloads url_parses isurl ts ≡ ok qs
      → new_payloads url_parses isurl (t ∷ ts) ≡ ok (payload_of isurl t ∷ qs)
  unfolding new_payloads
  with_first_payload isurl t ts qs u e = ground arith

  new_payloads-ok_iff :
      (isurl : Bool) (ts : List Bytes) (ps : List Payload)
      → (new_payloads url_parses isurl ts ≡ ok ps)
        ↔ ((ps ≡ map (payload_of isurl) ts) × All (IsUsable url_parses isurl) ts)
  unfolding new_payloads
  new_payloads-ok_iff isurl [] ps = (λ h. (cc, tt), λ h. cc)
  new_payloads-ok_iff isurl (t ∷ ts) ps = (
    λ h.
        let (qs, e, whole, u) = first_payload isurl t ts ps h in
        let (rest, us) = (new_payloads-ok_iff isurl ts qs).0 e in (rw (whole, rest), (u, us)),
    λ s.
        let e = (new_payloads-ok_iff isurl ts (map (payload_of isurl) ts)).1 (refl, s.1.1) in
        with_first_payload isurl t ts (map (payload_of isurl) ts) s.1.0 e ∙ ap ok (sym s.0),
  )

  abbrev sized : ℕ → Bool → List Bytes → Outcome (Result Error (List Payload))
  sized n isurl ts =
      if length ts == n
      then done (new_payloads url_parses isurl ts)
      else done (err wrong_payload_size)

  sized-ok :
      (n : ℕ) (isurl : Bool) (ts : List Bytes) (ps : List Payload)
      → sized n isurl ts ≡ done (ok ps)
      → (length ts ≡ n) × (new_payloads url_parses isurl ts ≡ ok ps)
  sized-ok n isurl ts ps h = (ground arith, ground arith)

  -- `processSeparatePayload` makes a batch exactly when "payloads" is an array of as many strings as
  -- the batch is to hold, each of which parses where they are URLs: one payload for each string, in
  -- order.
  pub process_separate_payload-ok_iff :
      (p : Object) (n : ℕ) (isurl : Bool) (ps : List Payload)
      → (process_separate_payload url_parses p (pos n) isurl ≡ done (ok ps)) ↔ (
          (ts : List Bytes) × (at p.value.contents (codes "payloads" ∷ [])
            ≡ some (array (texts ts)))
          × (length ts ≡ n)
          × (ps ≡ map (payload_of isurl) ts)
          × All (IsUsable url_parses isurl) ts)
  unfolding process_separate_payload make
  process_separate_payload-ok_iff p n isurl ps = (
    λ h.
        let (ts, e, h1) =
          andthen-ok (get_string_array p (codes "payloads" ∷ [])) (sized n isurl) ps h in
        let (size, made) = sized-ok n isurl ts ps h1 in
        let (whole, usable) = (new_payloads-ok_iff isurl ts ps).0 made in
        (ts, (get_string_array-ok_iff p (codes "payloads" ∷ []) ts).0 e, size, whole, usable),
    λ s.
        let e = (get_string_array-ok_iff p (codes "payloads" ∷ []) s.0).1 s.1 in
        let size : (length s.0 == n) ≡ true = ground arith in
        let made = (new_payloads-ok_iff isurl s.0 ps).1 (s.3, s.4) in rw (e, size, made),
  )

  single_file-fails :
      (p : Object) (size : ℤ) (ps : List Payload) → single_file url_parses p size ≡ done (ok ps) → ⊥
  unfolding single_file
  single_file-fails p size ps h =
      let (t, e, h1) = andthen-ok (get_string p (codes "url" ∷ [])) _ ps h in ground arith

  single_data-fails :
      (p : Object) (size : ℤ) (ps : List Payload) → single_data url_parses p size ≡ done (ok ps) → ⊥
  unfolding single_data
  single_data-fails p size ps h =
      let (t, e, h1) = andthen-ok (get_string p (codes "data" ∷ [])) _ ps h in ground arith

  -- A batch comes only from the type "separate_file" or "separate_data": with either `single` type
  -- there is no result, whatever the rest of the payload.
  pub get_payload-separate :
      (payload : Object) (size : ℤ) (ps : List Payload)
      → get_payload url_parses payload size ≡ done (ok ps)
      → (get_string payload (codes "type" ∷ []) ≡ ok (codes "separate_file"))
        ⊎ (get_string payload (codes "type" ∷ []) ≡ ok (codes "separate_data"))
  unfolding get_payload
  get_payload-separate payload size ps h =
      let (t, e, h1) = andthen-ok (get_string payload (codes "type" ∷ [])) _ ps h in
      let name : (t ≡ codes "separate_file") ⊎ (t ≡ codes "separate_data") = ground (
        arith,
        single_file-fails payload size ps,
        single_data-fails payload size ps,
        bytes_eq_sound t (codes "separate_file"),
        bytes_eq_sound t (codes "separate_data"),
      ) in
      elim name [ inl same ↦ inl (e ∙ ap ok same) | inr same ↦ inr (e ∙ ap ok same) ]
