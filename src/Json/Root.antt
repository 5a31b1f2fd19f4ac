-- ===== src/Json/Root.antt =====
-- `objectFromValue`: the object at the root keeps the decoded data.
use grandma_scheduling_servi.Prelude.{◌≡◌, refl, Bool, [], ◌∷◌, some, Result, ok, err}
use grandma_scheduling_servi.Prelude.Text.{Bytes}
use grandma_scheduling_servi.Json.{
  Json, null, bool, number, text, array, object, Error, Value, Object, as_object, object_from_value,
}
use grandma_scheduling_servi.Json.Path.{at, at_key}

as_object-contents : (v : Value) (o : Object) → as_object v ≡ ok o → o.value.contents ≡ v.contents
unfolding as_object
as_object-contents v o = by_contents v.contents v.exists
  where
    by_contents :
        (j : Json) (e : Bool)
        → as_object (record { contents = j; exists = e }) ≡ ok o
        → o.value.contents ≡ j
    by_contents null e h = cc
    by_contents (bool b) e h = cc
    by_contents (number n) e h = cc
    by_contents (text s) e h = cc
    by_contents (array js) e h = cc
    by_contents (object fs) e h = cc

pub object_from_value-contents :
    (r : Result Error Value) (o : Object)
    → object_from_value r ≡ ok o
    → (v : Value) × (r ≡ ok v) × (o.value.contents ≡ v.contents)
unfolding object_from_value
object_from_value-contents (ok v) o h = (v, refl, as_object-contents v o h)
object_from_value-contents (err e) o h = absurd (cc)

-- Data with something under a key is an object.
pub at-object_from_value :
    (v : Value) (key : Bytes) (j : Json)
    → at v.contents (key ∷ []) ≡ some j
    → (o : Object) × (object_from_value (ok v) ≡ ok o) × (o.value.contents ≡ v.contents)
unfolding object_from_value as_object at at_key
at-object_from_value v key j = by_contents v.contents v.exists
  where
    by_contents :
        (i : Json) (e : Bool)
        → at i (key ∷ []) ≡ some j
        → (o : Object) × (object_from_value (ok (record { contents = i; exists = e })) ≡ ok o)
          × (o.value.contents ≡ i)
    by_contents null e h = absurd (cc)
    by_contents (bool b) e h = absurd (cc)
    by_contents (number n) e h = absurd (cc)
    by_contents (text s) e h = absurd (cc)
    by_contents (array js) e h = absurd (cc)
    by_contents (object fs) e h = (_, refl, refl)
