-- ===== src/Prelude/Endings.antt =====
-- How a Go call ends: it returns, it panics, or its goroutine waits for ever (a lock or a condition).
use mathlib.Core.Option.{none, some}
use mathlib.Core.Path.{◌≡◌, refl}
use mathlib.Core.Logic.{◌⊎◌, inl, inr}
use Prim.Native.Nat.{ℕ, zero, suc, ◌<◌}
use native.Mathlib.Omega.{arith}
use mathlib.Core.List.{List, [], ◌∷◌}
use grandma_scheduling_servi.Prelude.Tests.{ltb, if◌then◌else◌}
use grandma_scheduling_servi.Prelude.Lists.{length, get_elem?, get_or, set}

pub data Outcome {ℓ} (A : Type ℓ) : Type ℓ where
  done : A → Outcome A
  panic : Outcome A
  blocked : Outcome A

infixl 5 ◌>>=◌
abbrev pub ◌>>=◌ {ℓ κ} : {A : Type ℓ} {B : Type κ} → Outcome A → (A → Outcome B) → Outcome B
done a >>= f = f a
panic >>= f = panic
blocked >>= f = blocked

-- What returns behind another call has that return first.
pub bind-done {ℓ κ} :
    {A : Type ℓ} {B : Type κ} (o : Outcome A) (f : A → Outcome B) (b : B)
    → (o >>= f) ≡ done b
    → (a : A) × (o ≡ done a) × (f a ≡ done b)
bind-done (done a) f b h = (a, refl, h)
bind-done panic f b h = absurd (cc)
bind-done blocked f b h = absurd (cc)

-- `xs[i]` and `xs[i] = v`: an index out of range panics.
abbrev pub load {ℓ} : {A : Type ℓ} → List A → ℕ → Outcome A
load xs i = elim (get_elem? xs i) [ none ↦ panic | some x ↦ done x ]

-- In range, `xs[i]` is there.
pub load-get_or {ℓ} :
    {A : Type ℓ} (xs : List A) (i : ℕ) (d : A) → i < length xs → load xs i ≡ done (get_or xs i d)
load-get_or [] i d h = absurd (omega arith)
load-get_or (x ∷ xs) zero d h = refl
load-get_or (x ∷ xs) (suc i) d h = load-get_or xs i d (omega arith)

abbrev pub store {ℓ} : {A : Type ℓ} → List A → ℕ → A → Outcome (List A)
store xs i v = if ltb i (length xs) then done (set xs i v) else panic

-- A Go result `(value, error)`, of which callers read one half.
pub data Result {ℓ κ} (E : Type ℓ) (A : Type κ) : Type (ℓ ⊔ κ) where
  ok : A → Result E A
  err : E → Result E A

-- To split on a computed result and keep the equation.
pub Result-cases {ℓ κ} :
    {E : Type ℓ} {A : Type κ} (r : Result E A) → ((a : A) × (r ≡ ok a)) ⊎ ((e : E) × (r ≡ err e))
Result-cases (ok a) = inl (a, refl)
Result-cases (err e) = inr (e, refl)
