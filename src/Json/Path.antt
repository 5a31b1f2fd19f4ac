-- ===== src/Json/Path.antt =====
-- The value at a path of keys, against the walk through the decoded data itself.
use grandma_scheduling_servi.Prelude.{
  ◌≡◌, refl, sym, ◌∙◌, inl, inr, Result-cases, ap, Bool, List, [], ◌∷◌, Option, none, some,
  if◌then◌else◌, Result, ok, err, arith,
}
use grandma_scheduling_servi.Prelude.Text.{Bytes, bytes_eq}
use grandma_scheduling_servi.Json.{
  Json, null, bool, number, text, array, object, Fields, end, field, Error, Value, entries,
  find_key, get, get_path,
}

-- The data under a key, and at the end of a path.
pub under : Fields → Bytes → Option Json
under end key = none
under (field k j fs) key = let rest = under fs key in if bytes_eq k key then some j else rest

unfoldable pub at_key : Json → Bytes → Option Json
unfolding under
at_key (object fs) key = under fs key
at_key _ key = none

unfoldable pub at : Json → List Bytes → Option Json
at j [] = some j
at j (key ∷ keys) = elim (at_key j key) [ none ↦ none | some i ↦ at i keys ]

-- What a lookup found.
abbrev pub found : Result Error Value → Option Json
found (ok v) = some v.contents
found (err e) = none

find_key-under : (fs : Fields) (key : Bytes) → found (find_key key (entries fs)) ≡ under fs key
unfolding find_key entries under
find_key-under end key = refl
find_key-under (field k j fs) key = ground (arith, find_key-under fs key)

get-at_key : (v : Value) (key : Bytes) → found (get v key) ≡ at_key v.contents key
unfolding get at_key
get-at_key v key = by_contents v.contents v.exists
  where
    by_contents :
        (j : Json) (e : Bool) → found (get (record { contents = j; exists = e }) key) ≡ at_key j key
    by_contents null e = refl
    by_contents (bool b) e = refl
    by_contents (number n) e = refl
    by_contents (text s) e = refl
    by_contents (array js) e = refl
    by_contents (object fs) e = find_key-under fs key

-- `getPath` finds the data at the path, and fails exactly where there is none.
pub get_path-at : (v : Value) (keys : List Bytes) → found (get_path v keys) ≡ at v.contents keys
unfolding get_path at
get_path-at v [] = refl
get_path-at v (key ∷ keys) = elim (Result-cases (get v key)) [
  | inl (u, e) ↦
      let here : at_key v.contents key ≡ some u.contents = sym (get-at_key v key) ∙ ap found e in
      rw (e, here, at) (get_path-at u keys)
  | inr (f, e) ↦
      let nowhere : at_key v.contents key ≡ none = sym (get-at_key v key) ∙ ap found e in
      rw (e, nowhere, at)
]
