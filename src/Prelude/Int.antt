-- ===== src/Prelude/Int.antt =====
-- Python's integers, over the native numbers.
use Prim.Native.Nat.{ℕ, suc, ◌+◌, ◌-◌}
use mathlib.Core.Path.{◌≡◌, ap}
use mathlib.Core.Logic.{inl, inr}
use native.Mathlib.Omega.{arith}
use mathlib.Core.Bool.{Bool}
use patch_machine.Prelude.Tests.{leb, if◌then◌else◌, Bool-cases}

-- `negsuc n` is -(n + 1).
pub data ℤ : Type 0 where
  pos : ℕ → ℤ
  negsuc : ℕ → ℤ

abbrev pub pos_part : ℤ → ℕ
pos_part (pos n) = n
pos_part (negsuc n) = 0

abbrev pub neg_part : ℤ → ℕ
neg_part (pos n) = 0
neg_part (negsuc n) = suc n

-- `a <= b`
abbrev pub leb_ℤ : ℤ → ℤ → Bool
leb_ℤ a b = leb (pos_part a + neg_part b) (pos_part b + neg_part a)

abbrev pub max_ℤ : ℤ → ℤ → ℤ
max_ℤ a b = if leb_ℤ a b then b else a

abbrev pub min_ℤ : ℤ → ℤ → ℤ
min_ℤ a b = if leb_ℤ a b then a else b

-- `max(0, a)`, as a number
abbrev pub clip : ℤ → ℕ
clip = pos_part

-- `a - b` on numbers
abbrev pub diff : ℕ → ℕ → ℤ
diff a b = if leb b a then pos (a - b) else negsuc (b - a - 1)

infixl 6 ◌+ℤ◌
unfoldable pub ◌+ℤ◌ : ℤ → ℤ → ℤ
a +ℤ b = diff (pos_part a + pos_part b) (neg_part a + neg_part b)

diff-balance : (a b : ℕ) → pos_part (diff a b) + b ≡ a + neg_part (diff a b)
diff-balance a b = elim (Bool-cases (leb b a)) [
  | inl h ↦ ground (arith, h)
  | inr h ↦ ground (arith, h)
]

-- The parts of a sum.
pub add-balance :
    (a b : ℤ)
    → pos_part (a +ℤ b) + (neg_part a + neg_part b) ≡ pos_part a + pos_part b + neg_part (a +ℤ b)
unfolding ◌+ℤ◌
add-balance a b = diff-balance (pos_part a + pos_part b) (neg_part a + neg_part b)

-- An integer is told by its parts.
pub parts_injective : (a b : ℤ) → pos_part a + neg_part b ≡ pos_part b + neg_part a → a ≡ b
parts_injective (pos m) (pos n) h = ap pos (omega arith)
parts_injective (pos m) (negsuc n) h = absurd (omega arith)
parts_injective (negsuc m) (pos n) h = absurd (omega arith)
parts_injective (negsuc m) (negsuc n) h = ap negsuc (omega arith)

pub add_assoc_ℤ : (a b c : ℤ) → a +ℤ b +ℤ c ≡ a +ℤ (b +ℤ c)
add_assoc_ℤ a b c = parts_injective (a +ℤ b +ℤ c) (a +ℤ (b +ℤ c)) (
    omega (arith, add-balance a b, add-balance (a +ℤ b) c, add-balance b c, add-balance a (b +ℤ c)))

pub zero_add_ℤ : (a : ℤ) → pos 0 +ℤ a ≡ a
zero_add_ℤ a = parts_injective (pos 0 +ℤ a) a (omega (arith, add-balance (pos 0) a))

pub add_zero_ℤ : (a : ℤ) → a +ℤ pos 0 ≡ a
add_zero_ℤ a = parts_injective (a +ℤ pos 0) a (omega (arith, add-balance a (pos 0)))

pub add_comm_ℤ : (a b : ℤ) → a +ℤ b ≡ b +ℤ a
add_comm_ℤ a b = parts_injective (a +ℤ b) (b +ℤ a) (omega (arith, add-balance a b, add-balance b a))

pub add_swap_ℤ : (a b c : ℤ) → a +ℤ b +ℤ c ≡ a +ℤ c +ℤ b
add_swap_ℤ a b c = parts_injective (a +ℤ b +ℤ c) (a +ℤ c +ℤ b) (
    omega (arith, add-balance a b, add-balance (a +ℤ b) c, add-balance a c, add-balance (a +ℤ c) b))
