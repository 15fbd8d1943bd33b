-- ===== src/Common/Bits.antt =====
-- `&`, `|`, `<<` and `>>` on unsigned words as arithmetic, at every width.
use Prim.Native.Nat.{
  ℕ, zero, suc, ◌+◌, ◌-◌, ◌*◌, ◌/◌, ◌%◌, ◌^◌, ◌≤◌, ◌<◌, bit_and, bit_or, min, max, digits, bitwise,
  bit_and-bitwise, bit_or-bitwise,
}
use mathlib.Core.Path.{◌≡◌, refl, ap}
use native.Mathlib.Nat.{pow-suc, one-le-pow, div-add-mod}
use native.Mathlib.Omega.{arith}

-- The recursion on digits does not depend on its fuel.
module _ (run_out : ℕ → ℕ) (join : ℕ → ℕ → ℕ) where
  more_fuel : (n m a b : ℕ) → a ≤ n → a ≤ m → digits run_out join n a b ≡ digits run_out join m a b
  more_fuel zero zero a b p q = refl
  more_fuel zero (suc m) zero b p q = refl
  more_fuel zero (suc m) (suc a) b p q = absurd (omega arith)
  more_fuel (suc n) zero zero b p q = refl
  more_fuel (suc n) zero (suc a) b p q = absurd (omega arith)
  more_fuel (suc n) (suc m) zero b p q = refl
  more_fuel (suc n) (suc m) (suc a) b p q =
      rw (more_fuel n m (suc a / 2) (b / 2) (omega arith) (omega arith))

  lowest_digit :
      (a b : ℕ)
      → bitwise run_out join (suc a) b
        ≡ bitwise run_out join (suc a / 2) (b / 2) * 2 + join (suc a % 2) (b % 2)
  lowest_digit a b = rw (more_fuel a (suc a / 2) (suc a / 2) (b / 2) (omega arith) (omega arith))

or_halves : (a b : ℕ) → bit_or a b ≡ bit_or (a / 2) (b / 2) * 2 + max (a % 2) (b % 2)
or_halves zero b = simp bit_or-bitwise (omega arith)
or_halves (suc a) b = simp bit_or-bitwise (lowest_digit (λ y. y) max a b)

and_halves : (a b : ℕ) → bit_and a b ≡ bit_and (a / 2) (b / 2) * 2 + min (a % 2) (b % 2)
and_halves zero b = simp bit_and-bitwise (omega arith)
and_halves (suc a) b = simp bit_and-bitwise (lowest_digit (λ y. 0) min a b)

zero-bit_or : (b : ℕ) → bit_or 0 b ≡ b
zero-bit_or b = bit_or-bitwise 0 b

pub zero-bit_and : (b : ℕ) → bit_and 0 b ≡ 0
zero-bit_and b = bit_and-bitwise 0 b

double_pow : (q k : ℕ) → q * 2 ^ suc k ≡ 2 * (q * 2 ^ k)
double_pow q k = omega (arith, ap (λ (t : ℕ). q * t) (pow-suc 2 k))

and-zero : (a : ℕ) → bit_and a 0 ≡ 0
and-zero a = below (suc a) a (omega arith)
  where
    below : (n a : ℕ) → a < n → bit_and a 0 ≡ 0
    below zero a h = absurd (omega arith)
    below (suc n) zero h = zero-bit_and 0
    below (suc n) (suc a) h = omega (arith, and_halves (suc a) 0, below n (suc a / 2) (omega arith))

-- `low | (high << k)` is a sum where `low` fits k bits.
pub or_disjoint : (k low high : ℕ) → low < 2 ^ k → bit_or low (high * 2 ^ k) ≡ low + high * 2 ^ k
or_disjoint zero low high h = ground (arith, zero-bit_or high)
or_disjoint (suc k) low high h = ground (
  arith,
  or_halves low (high * 2 ^ suc k),
  double_pow high k,
  pow-suc 2 k,
  or_disjoint k (low / 2) high,
)

or_comm_below : (n a b : ℕ) → a + b < n → bit_or a b ≡ bit_or b a
or_comm_below zero a b h = absurd (omega arith)
or_comm_below (suc n) zero zero h = refl
or_comm_below (suc n) (suc a) b h = omega (
  arith,
  or_halves (suc a) b,
  or_halves b (suc a),
  or_comm_below n (suc a / 2) (b / 2) (omega arith),
)
or_comm_below (suc n) zero (suc b) h =
    omega
      (arith, or_halves 0 (suc b), or_halves (suc b) 0, or_comm_below n 0 (suc b / 2) (omega arith))

pub or_comm : (a b : ℕ) → bit_or a b ≡ bit_or b a
or_comm a b = or_comm_below (suc (a + b)) a b (omega arith)

-- `(high << k) | low`, the other way round.
pub or_fields : (k high low : ℕ) → low < 2 ^ k → bit_or (high * 2 ^ k) low ≡ high * 2 ^ k + low
or_fields k high low h = omega (arith, or_comm (high * 2 ^ k) low, or_disjoint k low high h)

-- A mask of k low ones, `(1 << k) - 1`, keeps the k low bits.
and_low_parts : (k high low : ℕ) → low < 2 ^ k → bit_and (low + high * 2 ^ k) (2 ^ k - 1) ≡ low
and_low_parts zero high low h = ground (arith, and-zero (low + high * 1))
and_low_parts (suc k) high low h = ground (
  arith,
  and_halves (low + high * 2 ^ suc k) (2 ^ suc k - 1),
  double_pow high k,
  pow-suc 2 k,
  and_low_parts k high (low / 2),
)

pub and_low_mask : (k a : ℕ) → bit_and a (2 ^ k - 1) ≡ a % 2 ^ k
and_low_mask k a =
    ground (arith, one-le-pow k 2, div-add-mod a (2 ^ k), and_low_parts k (a / 2 ^ k) (a % 2 ^ k))

-- A mask whose k low bits are 0 clears them.
and_high_parts :
    (k high low m : ℕ)
    → low < 2 ^ k
    → bit_and (low + high * 2 ^ k) (m * 2 ^ k) ≡ bit_and high m * 2 ^ k
and_high_parts zero high low m h = ground arith
and_high_parts (suc k) high low m h = ground (
  arith,
  and_halves (low + high * 2 ^ suc k) (m * 2 ^ suc k),
  double_pow high k,
  double_pow m k,
  double_pow (bit_and high m) k,
  pow-suc 2 k,
  and_high_parts k high (low / 2) m,
)

pub and_high_mask : (k a m : ℕ) → bit_and a (m * 2 ^ k) ≡ bit_and (a / 2 ^ k) m * 2 ^ k
and_high_mask k a m =
    ground
      (arith, one-le-pow k 2, div-add-mod a (2 ^ k), and_high_parts k (a / 2 ^ k) (a % 2 ^ k) m)
