-- ===== src/Common/Int.antt =====
-- Signed integers over the native numbers, and the casts between the signed and the unsigned words
-- of one width. A word of w bits is a number below 2 ^ w.
use Prim.Native.Nat.{ℕ, suc, ◌+◌, ◌-◌, ◌*◌, ◌≤◌, ◌<◌}
use mathlib.Core.Path.{◌≡◌}
use mathlib.Core.Bool.{Bool, true, false}
use native.Mathlib.Omega.{arith}
use mathlib.Core.Logic.{◌↔◌}
use cubic.Common.Tests.{ltb, leb, ◌==◌, if◌then◌else◌}

-- `negsuc n` is -(n + 1).
pub data ℤ : Type 0 where
  pos : ℕ → ℤ
  negsuc : ℕ → ℤ

abbrev pub pos_part : ℤ → ℕ
pos_part (pos n) = n
pos_part (negsuc n) = 0

abbrev pub neg_part : ℤ → ℕ
neg_part (pos n) = 0
neg_part (negsuc n) = suc n

infix 50 ◌≤ℤ◌
abbrev pub ◌≤ℤ◌ : ℤ → ℤ → Type 0
a ≤ℤ b = pos_part a + neg_part b ≤ pos_part b + neg_part a

abbrev pub leb_ℤ : ℤ → ℤ → Bool
leb_ℤ a b = leb (pos_part a + neg_part b) (pos_part b + neg_part a)

-- value < 0
abbrev pub is_negative : ℤ → Bool
is_negative (pos n) = false
is_negative (negsuc n) = true

-- `value as iN`, where 2 ^ (N - 1) is `half`, of an unsigned word of that width
abbrev pub to_signed : ℕ → ℕ → ℤ
to_signed half w = if ltb w half then pos w else negsuc (2 * half - 1 - w)

-- `value as uN`, where 2 ^ (N - 1) is `half`, of a signed word of at most that width
abbrev pub to_unsigned : ℕ → ℤ → ℕ
to_unsigned half (pos n) = n
to_unsigned half (negsuc n) = 2 * half - 1 - n

-- the values of a signed word
abbrev pub IsSigned : ℕ → ℤ → Type 0
IsSigned half (pos n) = n < half
IsSigned half (negsuc n) = n < half

pub to_signed-to_unsigned :
    (half : ℕ) (z : ℤ) → IsSigned half z → to_signed half (to_unsigned half z) ≡ z
to_signed-to_unsigned half (pos n) h = ground arith
to_signed-to_unsigned half (negsuc n) h = ground arith

pub to_unsigned-to_signed : (half w : ℕ) → w < 2 * half → to_unsigned half (to_signed half w) ≡ w
to_unsigned-to_signed half w h = ground arith

pub to_unsigned-lt : (half : ℕ) (z : ℤ) → IsSigned half z → to_unsigned half z < 2 * half
to_unsigned-lt half (pos n) h = omega arith
to_unsigned-lt half (negsuc n) h = omega arith

pub to_signed-IsSigned : (half w : ℕ) → w < 2 * half → IsSigned half (to_signed half w)
to_signed-IsSigned half w h = ground arith

-- equality
unfoldable pub beq_ℤ : ℤ → ℤ → Bool
beq_ℤ (pos a) (pos b) = a == b
beq_ℤ (negsuc a) (negsuc b) = a == b
beq_ℤ a b = false

pub beq_ℤ_iff : (a b : ℤ) → (beq_ℤ a b ≡ true) ↔ (a ≡ b)
unfolding beq_ℤ
beq_ℤ_iff (pos a) (pos b) = ground arith
beq_ℤ_iff (negsuc a) (negsuc b) = ground arith
beq_ℤ_iff (pos a) (negsuc b) = (λ e. cc, λ e. cc)
beq_ℤ_iff (negsuc a) (pos b) = (λ e. cc, λ e. cc)
