-- ===== src/Prelude/Int.antt =====
-- Signed integers over the native numbers, under the library's names (its ℤ stands on the unary ℕ).
use Prim.Native.Nat.{ℕ, suc, ◌+◌, ◌-◌, ◌≤◌}
use mathlib.Core.Path.{◌≡◌, ap, sym, ◌∙◌}
use mathlib.Core.Logic.{◌≢◌}
use mathlib.Core.Bool.{Bool, true, false, ◌&&◌}
use native.Mathlib.Omega.{arith}
use grandma_scheduling_servi.Prelude.Tests.{ltb, leb, ◌==◌, if◌then◌else◌}

-- `negsuc n` is -(n + 1).
pub data ℤ : Type 0 where
  pos : ℕ → ℤ
  negsuc : ℕ → ℤ

abbrev pub pos_part : ℤ → ℕ
pos_part (pos n) = n
pos_part (negsuc n) = 0

abbrev pub neg_part : ℤ → ℕ
neg_part (pos n) = 0
neg_part (negsuc n) = suc n

-- a - b, as an integer.
abbrev pub sub_ℕ : ℕ → ℕ → ℤ
sub_ℕ a b = if leb b a then pos (a - b) else negsuc (b - a - 1)

infixl 65 ◌+ℤ◌ ◌-ℤ◌
infix 50 ◌≤ℤ◌
unfoldable pub ◌+ℤ◌ : ℤ → ℤ → ℤ
a +ℤ b = sub_ℕ (pos_part a + pos_part b) (neg_part a + neg_part b)

unfoldable pub ◌-ℤ◌ : ℤ → ℤ → ℤ
a -ℤ b = sub_ℕ (pos_part a + neg_part b) (neg_part a + pos_part b)

abbrev pub ◌≤ℤ◌ : ℤ → ℤ → Type 0
a ≤ℤ b = pos_part a + neg_part b ≤ pos_part b + neg_part a

abbrev pub ltb_ℤ : ℤ → ℤ → Bool
ltb_ℤ a b = ltb (pos_part a + neg_part b) (pos_part b + neg_part a)

infix 50 ◌=ℤ◌
abbrev pub ◌=ℤ◌ : ℤ → ℤ → Bool
a =ℤ b = pos_part a == pos_part b && neg_part a == neg_part b

-- The test for a constant decides.
pub same_number : (t : ℤ) (n : ℕ) → (t =ℤ pos n) ≡ true → t ≡ pos n
same_number (pos k) n h = ap pos (ground (arith, h))
same_number (negsuc k) n h = absurd (ground (arith, h))

pub other_number : (t : ℤ) (n : ℕ) → (t =ℤ pos n) ≡ false → t ≢ pos n
other_number t n h e = not_both (sym itself ∙ (ap (λ x. x =ℤ pos n) (sym e) ∙ h))
  where
    itself : (pos n =ℤ pos n) ≡ true
    itself = ground arith

    not_both : true ≡ false → ⊥
    not_both e' = cc
