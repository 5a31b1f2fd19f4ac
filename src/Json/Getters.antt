-- ===== src/Json/Getters.antt =====
-- What the getters of one value return, against the data at the path.
use grandma_scheduling_servi.Prelude.{
  ◌≡◌, ◌↔◌, refl, ap, sym, ◌∙◌, inl, inr, Bool, true, false, List, [], ◌∷◌, none, some, Result, ok,
  Result-cases,
}
use grandma_scheduling_servi.Prelude.Int.{ℤ}
use grandma_scheduling_servi.Prelude.Text.{Bytes}
use grandma_scheduling_servi.Prelude.Results.{◌>>=◌}
use grandma_scheduling_servi.Strconv.{parse_int}
use grandma_scheduling_servi.Json.{
  Json, array, text, null, bool, number, object, Error, Value, Object, as_string, as_number,
  as_int64, checked, get_path, get_string, get_int64, as_object, get_object, Fields, entries,
}
use grandma_scheduling_servi.Json.Path.{at, found, get_path-at}

-- What a getter returns that converts the value at a path.
module _ {A : Type 0} (convert : Value → Result Error A) (Is : A → Json → Type 0)
    (convert_iff : (v : Value) (a : A) → (convert v ≡ ok a) ↔ Is a v.contents) where
  converted_iff :
      (v : Value) (keys : List Bytes) (a : A)
      → ((get_path v keys >>= convert) ≡ ok a)
        ↔ ((j : Json) × (at v.contents keys ≡ some j) × Is a j)
  converted_iff v keys a = elim (Result-cases (get_path v keys)) [
    | inl (u, e) ↦
        let here : at v.contents keys ≡ some u.contents = sym (get_path-at v keys) ∙ ap found e in
        rw (e, here)
          (
            λ h. (u.contents, refl, (convert_iff u a).0 h),
            λ s. (convert_iff u a).1 (rw (same u.contents s.0 s.1) s.2),
          )
    | inr (f, e) ↦
        let nowhere : at v.contents keys ≡ none = sym (get_path-at v keys) ∙ ap found e in
        rw (e, nowhere) (λ h. cc, λ s. absurd (missing s.0 s.1))
  ]
    where
      same : (i j : Json) → some i ≡ some j → i ≡ j
      same i j h = cc

      missing : (j : Json) → none ≡ some j → ⊥
      missing j h = cc

-- The data that is the string `s`, or a number that ParseInt reads as `n`.
abbrev pub IsText : Bytes → Json → Type 0
IsText s j = j ≡ text s

abbrev pub IsInt : ℤ → Json → Type 0
IsInt n j = (digits : Bytes) × (j ≡ number digits) × (parse_int digits ≡ (n, false))

as_string_iff : (v : Value) (s : Bytes) → (as_string v ≡ ok s) ↔ IsText s v.contents
unfolding as_string
as_string_iff v s = by_contents v.contents v.exists
  where
    by_contents :
        (j : Json) (e : Bool)
        → (as_string (record { contents = j; exists = e }) ≡ ok s) ↔ IsText s j
    by_contents null e = (λ h. cc, λ h. cc)
    by_contents (bool b) e = (λ h. cc, λ h. cc)
    by_contents (number n) e = (λ h. cc, λ h. cc)
    by_contents (text t) e = (λ h. cc, λ h. cc)
    by_contents (array js) e = (λ h. cc, λ h. cc)
    by_contents (object fs) e = (λ h. cc, λ h. cc)

checked_iff : (r : ℤ × Bool) (n : ℤ) → (checked r ≡ ok n) ↔ (r ≡ (n, false))
unfolding checked
checked_iff (m, true) n = (λ h. cc, λ h. cc)
checked_iff (m, false) n = (λ h. cc, λ h. cc)

as_int64_iff : (v : Value) (n : ℤ) → (as_int64 v ≡ ok n) ↔ IsInt n v.contents
unfolding as_int64 checked as_number
as_int64_iff v n = by_contents v.contents v.exists
  where
    by_contents :
        (j : Json) (e : Bool) → (as_int64 (record { contents = j; exists = e }) ≡ ok n) ↔ IsInt n j
    by_contents null e = (λ h. cc, λ s. cc)
    by_contents (bool b) e = (λ h. cc, λ s. cc)
    by_contents (number m) e = (
      λ h. (m, refl, (checked_iff (parse_int m) n).0 h),
      λ s. (checked_iff (parse_int m) n).1 (rw (digits_of m s.0 s.1) s.2),
    )
      where
        digits_of : (a b : Bytes) → number a ≡ number b → a ≡ b
        digits_of a b h = cc
    by_contents (text t) e = (λ h. cc, λ s. cc)
    by_contents (array js) e = (λ h. cc, λ s. cc)
    by_contents (object fs) e = (λ h. cc, λ s. cc)

pub get_string_iff :
    (o : Object) (keys : List Bytes) (s : Bytes)
    → (get_string o keys ≡ ok s) ↔ ((j : Json) × (at o.value.contents keys ≡ some j) × IsText s j)
unfolding get_string
get_string_iff o keys s = converted_iff as_string IsText as_string_iff o.value keys s

pub get_int64_iff :
    (o : Object) (keys : List Bytes) (n : ℤ)
    → (get_int64 o keys ≡ ok n) ↔ ((j : Json) × (at o.value.contents keys ≡ some j) × IsInt n j)
unfolding get_int64
get_int64_iff o keys n = converted_iff as_int64 IsInt as_int64_iff o.value keys n

-- The data that is an object, as `Object` gives it out.
abbrev pub IsObject : Object → Json → Type 0
IsObject p j =
    (fs : Fields) × (j ≡ object fs)
    × (p ≡ record { value = record { contents = object fs; exists = false }; m = entries fs })

as_object_iff : (v : Value) (p : Object) → (as_object v ≡ ok p) ↔ IsObject p v.contents
unfolding as_object
as_object_iff v p = by_contents v.contents v.exists
  where
    by_contents :
        (j : Json) (e : Bool)
        → (as_object (record { contents = j; exists = e }) ≡ ok p) ↔ IsObject p j
    by_contents null e = (λ h. cc, λ s. cc)
    by_contents (bool b) e = (λ h. cc, λ s. cc)
    by_contents (number n) e = (λ h. cc, λ s. cc)
    by_contents (text t) e = (λ h. cc, λ s. cc)
    by_contents (array js) e = (λ h. cc, λ s. cc)
    by_contents (object fs) e =
        (λ h. (fs, refl, cc), λ s. rw (s.2) (ap shown (same_fields fs s.0 s.1)))
      where
        shown : Fields → Result Error Object
        shown gs =
            ok (record { value = record { contents = object gs; exists = false }; m = entries gs })

        same_fields : (gs hs : Fields) → object gs ≡ object hs → gs ≡ hs
        same_fields gs hs h = cc

pub get_object_iff :
    (o : Object) (keys : List Bytes) (p : Object)
    → (get_object o keys ≡ ok p) ↔ ((j : Json) × (at o.value.contents keys ≡ some j) × IsObject p j)
unfolding get_object
get_object_iff o keys p = converted_iff as_object IsObject as_object_iff o.value keys p

-- The string at a key, both ways.
pub get_text :
    (o : Object) (key s : Bytes)
    → get_string o (key ∷ []) ≡ ok s
    → at o.value.contents (key ∷ []) ≡ some (text s)
get_text o key s e =
    let (j, there, same) = (get_string_iff o (key ∷ []) s).0 e in there ∙ ap some same

pub text_get :
    (o : Object) (key s : Bytes)
    → at o.value.contents (key ∷ []) ≡ some (text s)
    → get_string o (key ∷ []) ≡ ok s
text_get o key s e = (get_string_iff o (key ∷ []) s).1 (text s, e, refl)
