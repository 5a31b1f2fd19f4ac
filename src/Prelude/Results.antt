-- ===== src/Prelude/Results.antt =====
-- Chains of Go calls that return `(value, error)`: the first error is returned.
use mathlib.Core.List.{List, [], ◌∷◌}
use grandma_scheduling_servi.Prelude.Endings.{Result, ok, err}

infixl 5 ◌>>=◌
abbrev pub ◌>>=◌ {ℓ κ ι} :
    {E : Type ι} {A : Type ℓ} {B : Type κ} → Result E A → (A → Result E B) → Result E B
ok a >>= f = f a
err e >>= f = err e

-- A loop that fills a slice and returns at the first error.
abbrev pub collect {ℓ κ ι} :
    {E : Type ι} {A : Type ℓ} {B : Type κ} → (A → Result E B) → List A → Result E (List B)
collect f [] = ok []
collect f (x ∷ xs) = f x >>= λ y. collect f xs >>= λ ys. ok (y ∷ ys)
