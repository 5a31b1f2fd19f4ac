-- ===== src/Json/Arrays.antt =====
-- The getters of typed arrays: all the elements convert, or the first that does not is the error.
use grandma_scheduling_servi.Prelude.{
  ◌≡◌, ◌↔◌, refl, ap, sym, ◌∙◌, inl, inr, Bool, List, [], ◌∷◌, none, some, Result, ok, err,
  Result-cases,
}
use grandma_scheduling_servi.Prelude.Text.{Bytes}
use grandma_scheduling_servi.Prelude.Results.{◌>>=◌, collect}
use grandma_scheduling_servi.Json.{
  Json, Items, nil, cons, array, text, null, bool, number, object, Error, Object, child, children,
  as_string, as_array, get_path, get_string_array,
}
use grandma_scheduling_servi.Json.Path.{at, found, get_path-at}

-- The JSON array of these texts.
pub texts : List Bytes → Items
texts [] = nil
texts (s ∷ ss) = cons (text s) (texts ss)

collect-texts : (ss : List Bytes) → collect as_string (children (texts ss)) ≡ ok ss
unfolding as_string children texts
collect-texts [] = refl
collect-texts (s ∷ ss) = rw (collect-texts ss)

texts-collect :
    (js : Items) (ss : List Bytes) → collect as_string (children js) ≡ ok ss → js ≡ texts ss
unfolding as_string children texts
texts-collect nil [] h = refl
texts-collect nil (s ∷ ss) h = cc
texts-collect (cons (text s) js) ss h = elim (Result-cases (collect as_string (children js))) [
  | inl (ts, e) ↦
      let whole : ss ≡ s ∷ ts = by_rest ts e ss h in
      rw whole (ap (cons (text s)) (texts-collect js ts e))
  | inr (f, e) ↦ absurd (failed f e h)
]
  where
    by_rest :
        (ts : List Bytes)
        → collect as_string (children js) ≡ ok ts
        → (us : List Bytes) → collect as_string (child (text s) ∷ children js) ≡ ok us
        → us ≡ s ∷ ts
    by_rest ts e us h' = cc

    failed :
        (f : Error)
        → collect as_string (children js) ≡ err f
        → collect as_string (child (text s) ∷ children js) ≡ ok ss
        → ⊥
    failed f e h' = cc
texts-collect (cons null js) ss h = cc
texts-collect (cons (bool b) js) ss h = cc
texts-collect (cons (number n) js) ss h = cc
texts-collect (cons (array is) js) ss h = cc
texts-collect (cons (object fs) js) ss h = cc

strings : Json → Bool → Result Error (List Bytes)
unfolding as_array
strings j e = as_array (record { contents = j; exists = e }) >>= collect as_string

strings_of-array :
    (j : Json) (e : Bool) (ss : List Bytes) → strings j e ≡ ok ss → j ≡ array (texts ss)
unfolding strings
strings_of-array null e ss h = cc
strings_of-array (bool b) e ss h = cc
strings_of-array (number n) e ss h = cc
strings_of-array (text s) e ss h = cc
strings_of-array (array js) e ss h = ap array (texts-collect js ss h)
strings_of-array (object fs) e ss h = cc

array-strings_of : (e : Bool) (ss : List Bytes) → strings (array (texts ss)) e ≡ ok ss
unfolding strings
array-strings_of e ss = collect-texts ss

-- `GetStringArray` returns `ss` exactly where the path ends in the array of those strings: one
-- element that is no string, and there is an error.
pub get_string_array-ok_iff :
    (o : Object) (keys ss : List Bytes)
    → (get_string_array o keys ≡ ok ss) ↔ (at o.value.contents keys ≡ some (array (texts ss)))
unfolding get_string_array strings
get_string_array-ok_iff o keys ss = elim (Result-cases (get_path o.value keys)) [
  | inl (v, e) ↦
      let here : at o.value.contents keys ≡ some v.contents =
        sym (get_path-at o.value keys) ∙ ap found e in
      rw (e, here)
        (
          λ h. ap some (strings_of-array v.contents v.exists ss h),
          λ h.
              ap (λ j. strings j v.exists) (inside v.contents (texts ss) h)
              ∙ array-strings_of v.exists ss,
        )
  | inr (f, e) ↦
      let nowhere : at o.value.contents keys ≡ none = sym (get_path-at o.value keys) ∙ ap found e in
      rw (e, nowhere) (λ h. cc, λ h. cc)
]
  where
    inside : (j : Json) (js : Items) → some j ≡ some (array js) → j ≡ array js
    inside j js h = cc
