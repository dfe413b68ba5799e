-- ===== src/Base/Bits/Masks.antt =====
-- A mask of low bits is a remainder, a mask of high bits shifts, and `|` of fields is a sum.
use Prim.Native.Nat.{
  ℕ, zero, suc, ◌+◌, ◌-◌, ◌*◌, ◌/◌, ◌%◌, ◌^◌, ◌≤◌, ◌<◌, bit_and, bit_or, bit_and-bitwise,
  bit_or-bitwise,
}
use mathlib.Core.Path.{◌≡◌, refl, ap, sym}
use native.Mathlib.Nat.{pow-suc, one-le-pow, mul_comm, div-div-eq-div-mul, div-add-mod}
use native.Mathlib.Omega.{arith}
use weensy_osvm.Base.Bits.Lowest.{bit_and-lowest, bit_or-lowest}

-- `n` bounds the word, for the recursion from `a / 2` to `a`.
bit_and-zero_below : (n a : ℕ) → a ≤ n → bit_and a 0 ≡ 0
bit_and-zero_below n zero h = refl
bit_and-zero_below zero (suc a) h = absurd (omega arith)
bit_and-zero_below (suc n) (suc a) h =
    omega (arith, bit_and-lowest (suc a) 0, bit_and-zero_below n (suc a / 2) (omega arith))

pub bit_and-zero : (a : ℕ) → bit_and a 0 ≡ 0
bit_and-zero a = bit_and-zero_below a a (omega arith)

bit_or-zero_below : (n a : ℕ) → a ≤ n → bit_or a 0 ≡ a
bit_or-zero_below n zero h = refl
bit_or-zero_below zero (suc a) h = absurd (omega arith)
bit_or-zero_below (suc n) (suc a) h =
    omega (arith, bit_or-lowest (suc a) 0, bit_or-zero_below n (suc a / 2) (omega arith))

pub bit_or-zero : (a : ℕ) → bit_or a 0 ≡ a
bit_or-zero a = bit_or-zero_below a a (omega arith)

mul-pow-suc : (q k : ℕ) → q * 2 ^ suc k ≡ 2 * (q * 2 ^ k)
mul-pow-suc q k = omega (arith, ap (λ (t : ℕ). q * t) (pow-suc 2 k))

div-pow-suc : (a k : ℕ) → a / 2 ^ suc k ≡ a / 2 / 2 ^ k
div-pow-suc a k = rw (pow-suc 2 k, mul_comm (2 ^ k) 2) (sym (div-div-eq-div-mul a 2 (2 ^ k)))

mod-pow-suc : (a k : ℕ) → a % 2 ^ suc k ≡ a / 2 % 2 ^ k * 2 + a % 2
mod-pow-suc a k = ground (
  arith,
  div-pow-suc a k,
  pow-suc 2 k,
  div-add-mod a (2 ^ suc k),
  div-add-mod (a / 2) (2 ^ k),
  ap (λ (t : ℕ). t * (a / 2 / 2 ^ k)) (pow-suc 2 k),
  ap (λ (t : ℕ). 2 ^ suc k * t) (div-pow-suc a k),
)

-- The bits above `k` of a mask pick the bits above `k` of the word.
pub bit_and_high : (k a b : ℕ) → bit_and a (b * 2 ^ k) ≡ bit_and (a / 2 ^ k) b * 2 ^ k
bit_and_high zero a b = ground arith
bit_and_high (suc k) a b = ground (
  arith,
  bit_and-lowest a (b * 2 ^ suc k),
  mul-pow-suc b k,
  mul-pow-suc (bit_and (a / 2 ^ suc k) b) k,
  div-pow-suc a k,
  bit_and_high k (a / 2) b,
)

-- The mask of the `k` low bits is the remainder by `2 ^ k`.
pub bit_and_low : (k a : ℕ) → bit_and a (2 ^ k - 1) ≡ a % 2 ^ k
bit_and_low zero a = ground (arith, bit_and-zero a)
bit_and_low (suc k) a = ground (
  arith,
  bit_and-lowest a (2 ^ suc k - 1),
  pow-suc 2 k,
  one-le-pow k 2,
  mod-pow-suc a k,
  bit_and_low k (a / 2),
)

-- `(q << k) | r` is a sum when `r` has no bit at `k` or above.
pub bit_or_sum : (k q r : ℕ) → r < 2 ^ k → bit_or (q * 2 ^ k) r ≡ q * 2 ^ k + r
bit_or_sum zero q r h = ground (arith, bit_or-zero q)
bit_or_sum (suc k) q r h =
    ground
      (arith, bit_or-lowest (q * 2 ^ suc k) r, mul-pow-suc q k, pow-suc 2 k, bit_or_sum k q (r / 2))

pub zero-bit_and : (b : ℕ) → bit_and 0 b ≡ 0
zero-bit_and b = bit_and-bitwise 0 b

bit_and-le_below : (n a b : ℕ) → a ≤ n → bit_and a b ≤ a
bit_and-le_below n zero b h = omega (arith, zero-bit_and b)
bit_and-le_below zero (suc a) b h = absurd (omega arith)
bit_and-le_below (suc n) (suc a) b h =
    omega (arith, bit_and-lowest (suc a) b, bit_and-le_below n (suc a / 2) (b / 2) (omega arith))

pub bit_and-le : (a b : ℕ) → bit_and a b ≤ a
bit_and-le a b = bit_and-le_below a a b (omega arith)

zero-bit_or : (b : ℕ) → bit_or 0 b ≡ b
zero-bit_or b = bit_or-bitwise 0 b

-- `r | (q << k)`, the same sum.
pub low_bit_or : (k q r : ℕ) → r < 2 ^ k → bit_or r (q * 2 ^ k) ≡ r + q * 2 ^ k
low_bit_or zero q zero h = omega (arith, zero-bit_or (q * 2 ^ 0))
low_bit_or zero q (suc r) h = absurd (omega arith)
low_bit_or (suc k) q r h =
    ground
      (arith, bit_or-lowest r (q * 2 ^ suc k), mul-pow-suc q k, pow-suc 2 k, low_bit_or k q (r / 2))

-- The bits from `k` on stay where the other word has none of them.
pub bit_or_above :
    (k q r s : ℕ) → r < 2 ^ k → s < 2 ^ k → bit_or (q * 2 ^ k + r) s ≡ q * 2 ^ k + bit_or r s
bit_or_above zero q zero zero h l = omega (arith, bit_or-zero (q * 2 ^ 0 + 0), bit_or-zero 0)
bit_or_above zero q (suc r) s h l = absurd (omega arith)
bit_or_above zero q r (suc s) h l = absurd (omega arith)
bit_or_above (suc k) q r s h l = ground (
  arith,
  bit_or-lowest (q * 2 ^ suc k + r) s,
  bit_or-lowest r s,
  mul-pow-suc q k,
  pow-suc 2 k,
  bit_or_above k q (r / 2) (s / 2),
)
