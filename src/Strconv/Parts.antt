-- ===== src/Strconv/Parts.antt =====
-- The laws of `split`.
use grandma_scheduling_servi.Prelude.{
  ℕ, ◌≡◌, refl, List, ◌==◌, if◌then◌else◌, Bool-cases, inl, inr, [], ◌∷◌, ◌++◌, arith,
}
use grandma_scheduling_servi.Prelude.Text.{Bytes, Lacks}
use grandma_scheduling_servi.Strconv.{onto_head, split}

-- A part without separators, at the end of the text.
pub split-Lacks : (p : Bytes) (sep : ℕ) → Lacks sep p → split p sep ≡ p ∷ []
unfolding split
split-Lacks [] sep h = refl
split-Lacks (c ∷ p) sep h = ground (arith, split-Lacks p sep)

-- A part without separators, with more of the text behind it.
pub split-append :
    (p rest : Bytes) (sep : ℕ) → Lacks sep p → split (p ++ (sep ∷ rest)) sep ≡ p ∷ split rest sep
unfolding split
split-append [] rest sep h = ground arith
split-append (c ∷ p) rest sep h = ground (arith, split-append p rest sep)

-- What stands before the first separator.
pub before : Bytes → ℕ → Bytes
before [] sep = []
before (c ∷ s) sep = let rest = before s sep in if c == sep then [] else c ∷ rest

-- The first part is what stands before the first separator.
pub split-before : (s : Bytes) (sep : ℕ) → (ps : List Bytes) × (split s sep ≡ before s sep ∷ ps)
unfolding split before
split-before [] sep = ([], refl)
split-before (c ∷ s) sep =
    let (ps, e) = split-before s sep in
    elim (Bool-cases (c == sep)) [
      | inl cut ↦ (split s sep, rw cut)
      | inr keep ↦ (ps, rw (keep, e, onto_head))
    ]

-- Texts that are alike, and whose first lines end at the first separator, have the same two halves.
pub append-injective :
    (p q s t : Bytes) (sep : ℕ)
    → Lacks sep p
    → Lacks sep q
    → p ++ (sep ∷ s) ≡ q ++ (sep ∷ t)
    → (p ≡ q) × (s ≡ t)
append-injective [] [] s t sep hp hq e = (refl, cc)
append-injective [] (d ∷ q) s t sep hp hq e = absurd (ground arith)
append-injective (c ∷ p) [] s t sep hp hq e = absurd (ground arith)
append-injective (c ∷ p) (d ∷ q) s t sep hp hq e =
    ground (arith, append-injective p q s t sep hp.1 hq.1)
